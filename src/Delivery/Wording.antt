-- ===== src/Delivery/Wording.antt =====
-- The texts of the dispatcher's notices
-- (app/services/notification/notification_dispatcher.py). An amount is not negative.
use Prim.Native.String.{◌++◌ as join}
use package.text.Mathlib.Text.{◌==◌ as same_string}
use order_run_be.Base.{
  ℕ, zero, suc, ◌/◌, ◌%◌, ◌<◌, ◌≡◌, String, Option, none, some, ltb, if◌then◌else◌, arith, ◌==◌,
}

abbrev pub digit : ℕ → String
digit n =
    if n == 0
    then "0"
    else if n == 1
    then "1"
    else if n == 2
    then "2"
    else if n == 3
    then "3"
    else if n == 4
    then "4"
    else if n == 5
    then "5"
    else if n == 6
    then "6"
    else if n == 7
    then "7"
    else if n == 8
    then "8"
    else "9"

-- A number below a thousand, without and with leading zeros
abbrev pub short : ℕ → String
short n =
    if ltb n 10
    then digit n
    else if ltb n 100
    then join (digit (n / 10)) (digit (n % 10))
    else join (digit (n / 100)) (join (digit (n / 10 % 10)) (digit (n % 10)))

abbrev pub three_digits : ℕ → String
three_digits n = join (digit (n / 100)) (join (digit (n / 10 % 10)) (digit (n % 10)))

grouped : ℕ → ℕ → String
grouped zero n = short n
grouped (suc fuel) n =
    let more = grouped fuel (n / 1000) in
    if ltb n 1000 then short n else join more (join "," (three_digits (n % 1000)))

-- `f"{n:,}"`
unfoldable pub with_commas : ℕ → String
unfolding grouped
with_commas n = grouped n n

-- Any fuel above the number gives the same text.
grouped_enough : (f g n : ℕ) → n < suc f → n < suc g → grouped f n ≡ grouped g n
unfolding grouped
grouped_enough zero zero n p q = ground arith
grouped_enough zero (suc g) n p q = ground arith
grouped_enough (suc f) zero n p q = ground arith
grouped_enough (suc f) (suc g) n p q = ground (arith, grouped_enough f g (n / 1000))

-- `f"'{title}'…"`, `body += f" 사유: {reason}"` under `if reason`, and `reason or ""`
abbrev pub quoted : String → String → String
quoted title rest = join "'" (join title (join "'" rest))

abbrev pub or_empty : Option String → String
or_empty none = ""
or_empty (some reason) = reason

abbrev pub with_reason : String → Option String → String
with_reason body none = body
with_reason body (some reason) =
    if same_string reason "" then body else join body (join " 사유: " reason)
