-- ===== src/Schemas/Accounts.antt =====
-- The settlement account of a request (app/schemas/settlement.py). The account number is the list of
-- its characters.
use Prim.Native.String.{count}
use package.text.Mathlib.Text.{◌==◌ as same_string}
use order_run_be.Base.{
  ℕ, Bool, true, false, String, List, [], ◌∷◌, ◌+◌, Option, none, some, leb, ◌&&◌, ◌||◌,
  if◌then◌else◌, length,
}
use order_run_be.Phone
use order_run_be.Settlement.{SettlementAccountRequest}
use order_run_be.Schemas.Texts.{strip_text, is_not_blank}

-- `SUPPORTED_BANK_NAMES`
abbrev pub supported_bank_names : List String
supported_bank_names =
    "국민은행" ∷ "신한은행" ∷ "우리은행" ∷ "하나은행" ∷ "농협은행" ∷ "기업은행" ∷ "카카오뱅크" ∷ "토스뱅크" ∷ "케이뱅크" ∷ "SC제일은행"
    ∷ "한국씨티은행" ∷ "산업은행" ∷ "수협은행" ∷ "대구은행" ∷ "부산은행" ∷ "광주은행" ∷ "제주은행" ∷ "전북은행" ∷ "경남은행" ∷ "새마을금고"
    ∷ "신협" ∷ "우체국" ∷ []

abbrev pub one_of_names : String → List String → Bool
one_of_names name [] = false
one_of_names name (n ∷ ns) = same_string n name || one_of_names name ns

-- The first digits of the decimal systems of Unicode: `\d` takes the ten characters from each.
abbrev pub digit_zeros : List ℕ
digit_zeros =
    48 ∷ 1632 ∷ 1776 ∷ 1984 ∷ 2406 ∷ 2534 ∷ 2662 ∷ 2790 ∷ 2918 ∷ 3046 ∷ 3174 ∷ 3302 ∷ 3430 ∷ 3558
    ∷ 3664 ∷ 3792 ∷ 3872 ∷ 4160 ∷ 4240 ∷ 6112 ∷ 6160 ∷ 6470 ∷ 6608 ∷ 6784 ∷ 6800 ∷ 6992 ∷ 7088
    ∷ 7232 ∷ 7248 ∷ 42528 ∷ 43216 ∷ 43264 ∷ 43472 ∷ 43504 ∷ 43600 ∷ 44016 ∷ 65296 ∷ 66720 ∷ 68912
    ∷ 69734 ∷ 69872 ∷ 69942 ∷ 70096 ∷ 70384 ∷ 70736 ∷ 70864 ∷ 71248 ∷ 71360 ∷ 71472 ∷ 71904 ∷ 72016
    ∷ 72784 ∷ 73040 ∷ 73120 ∷ 73552 ∷ 92768 ∷ 92864 ∷ 93008 ∷ 120782 ∷ 120792 ∷ 120802 ∷ 120812
    ∷ 120822 ∷ 123200 ∷ 123632 ∷ 124144 ∷ 125264 ∷ 130032 ∷ []

abbrev pub is_digit_of : List ℕ → ℕ → Bool
is_digit_of [] c = false
is_digit_of (z ∷ zs) c = leb z c && leb c (z + 9) || is_digit_of zs c

unfoldable pub is_digit : ℕ → Bool
is_digit = is_digit_of digit_zeros

abbrev pub all_digits : List ℕ → Bool
all_digits [] = true
all_digits (c ∷ cs) = is_digit c && all_digits cs

-- `re.fullmatch(r"\d{6,30}", stripped)`
abbrev pub is_account_number : List ℕ → Bool
is_account_number cs = leb 6 (length cs) && (leb (length cs) 30 && all_digits cs)

abbrev pub is_bank : String → Bool
is_bank name = is_not_blank name && one_of_names (strip_text name) supported_bank_names

-- `SettlementAccountRequest`
unfoldable pub settlement_request : SettlementAccountRequest → Option SettlementAccountRequest
unfolding is_not_blank
settlement_request r =
    if leb (count r.bank_name) 50
      && (is_bank r.bank_name
          && (is_account_number (Phone.strip r.account_number)
              && (leb (count r.account_holder) 100 && is_not_blank r.account_holder)))
    then some (record {
      bank_name = strip_text r.bank_name;
      account_number = Phone.strip r.account_number;
      account_holder = strip_text r.account_holder;
    })
    else none

-- `SettlementService.bank_names`
unfoldable pub bank_names : List String
bank_names = supported_bank_names
