-- ===== src/Phone.antt =====
-- Phone numbers as lists of code points: `normalize_phone` (app/core/phone.py) and the form that
-- the SMS sender uses (app/services/sms_service.py).
pub mod Normal
pub mod Strips
use order_run_be.Base.{
  ℕ, Bool, true, false, List, [], ◌∷◌, ◌==◌, ◌||◌, ◌&&◌, not, leb, if◌then◌else◌, drop,
}

-- The characters that `str.strip` takes off: Unicode white space.
unfoldable pub is_blank : ℕ → Bool
is_blank c =
    leb 9 c && leb c 13
    || leb 28 c && leb c 32
    || c == 133
    || c == 160
    || c == 5760
    || leb 8192 c && leb c 8202
    || c == 8232
    || c == 8233
    || c == 8239
    || c == 8287
    || c == 12288

abbrev pub left_strip : List ℕ → List ℕ
left_strip [] = []
left_strip (c ∷ cs) = let rest = left_strip cs in if is_blank c then rest else c ∷ cs

abbrev pub keep : ℕ → List ℕ → List ℕ
keep c [] = if is_blank c then [] else c ∷ []
keep c (d ∷ ds) = c ∷ d ∷ ds

abbrev pub right_strip : List ℕ → List ℕ
right_strip [] = []
right_strip (c ∷ cs) = keep c (right_strip cs)

abbrev pub strip : List ℕ → List ℕ
strip cs = right_strip (left_strip cs)

-- `replace(x, "")` for a single character
abbrev pub remove : ℕ → List ℕ → List ℕ
remove x [] = []
remove x (c ∷ cs) = let rest = remove x cs in if c == x then rest else c ∷ rest

-- `startswith`
abbrev pub starts_with : List ℕ → List ℕ → Bool
starts_with [] cs = true
starts_with (p ∷ ps) [] = false
starts_with (p ∷ ps) (c ∷ cs) = c == p && starts_with ps cs

-- "+82"
abbrev pub country_code : List ℕ
country_code = 43 ∷ 56 ∷ 50 ∷ []

-- `"0" + value[3:]` where the value starts with "+82"
abbrev pub domestic : List ℕ → List ℕ
domestic value = if starts_with country_code value then 48 ∷ drop 3 value else value

unfoldable pub normalize_phone : List ℕ → List ℕ
normalize_phone phone = domestic (remove 45 (remove 32 (strip phone)))

-- `_to_e164_kr` on the normalized number
abbrev pub international : List ℕ → List ℕ
international [] = []
international (c ∷ cs) = if c == 43 then c ∷ cs else if c == 48 then 43 ∷ 56 ∷ 50 ∷ cs else c ∷ cs

unfoldable pub to_e164_kr : List ℕ → List ℕ
to_e164_kr phone = international (normalize_phone phone)

-- `==` on texts
abbrev pub same_text : List ℕ → List ℕ → Bool
same_text [] [] = true
same_text (c ∷ cs) (d ∷ ds) = c == d && same_text cs ds
same_text _ _ = false
