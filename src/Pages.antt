-- ===== src/Pages.antt =====
-- Paginated responses, `PageResponse.of` (app/schemas/common.py).
pub mod Cover
use order_run_be.Base.{ℕ, ◌+◌, ◌-◌, ◌/◌, Bool, List, ◌==◌, ◌||◌, ◌&&◌, leb, ltb, if◌then◌else◌}

pub record PageResponse (T : Type 0) : Type 0 where
  pub content : List T
  pub total_elements : ℕ
  pub total_pages : ℕ
  pub page_number : ℕ
  pub page_size : ℕ
  pub first : Bool
  pub last : Bool

-- `ceil(total_elements / page_size)` if both are positive, else 0. The quotient, a float in the
-- source, is exact here, as it is there below 2 ** 53.
unfoldable pub total_pages : ℕ → ℕ → ℕ
total_pages total_elements page_size =
    if ltb 0 page_size && ltb 0 total_elements
    then (total_elements + page_size - 1) / page_size
    else 0

-- `page_number` is not negative (the routers ask for `ge=0`), and truncated `- 1` agrees with the
-- source: with no page the first test has answered already.
unfoldable pub of : {T : Type 0} → List T → ℕ → ℕ → ℕ → PageResponse T
unfolding total_pages
of content page_number page_size total_elements = record {
  content = content;
  total_elements = total_elements;
  total_pages = total_pages total_elements page_size;
  page_number = page_number;
  page_size = page_size;
  first = leb page_number 0;
  last =
      total_pages total_elements page_size == 0
      || leb (total_pages total_elements page_size - 1) page_number;
}
