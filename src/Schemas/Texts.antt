-- ===== src/Schemas/Texts.antt =====
-- Python's `strip` on texts, and the validators that several request bodies share (app/schemas).
use Prim.Native.Char.{Char, code}
use Prim.Native.String.{count}
use order_run_be.Base.{
  ℕ, Bool, true, false, not, String, List, [], ◌∷◌, Option, none, some, leb, ◌&&◌, if◌then◌else◌,
  length,
}
use order_run_be.Phone
use order_run_be.Phone.{is_blank}

abbrev pub left_strip : String → String
left_strip String.[] = String.[]
left_strip (String.◌∷◌ c s) =
    let rest = left_strip s in if is_blank (code c) then rest else String.◌∷◌ c s

abbrev pub keep : Char → String → String
keep c String.[] = if is_blank (code c) then String.[] else String.◌∷◌ c String.[]
keep c (String.◌∷◌ d s) = String.◌∷◌ c (String.◌∷◌ d s)

abbrev pub right_strip : String → String
right_strip String.[] = String.[]
right_strip (String.◌∷◌ c s) = keep c (right_strip s)

-- `value.strip()`
abbrev pub strip_text : String → String
strip_text s = right_strip (left_strip s)

-- `not value.strip()` is the test for a blank text.
abbrev pub is_empty : String → Bool
is_empty String.[] = true
is_empty (String.◌∷◌ c s) = false

unfoldable pub is_not_blank : String → Bool
unfolding is_blank
is_not_blank value = not (is_empty (strip_text value))

-- A field with `min_length=1` and `max_length=limit` whose validator strips the text
unfoldable pub stripped_text : ℕ → String → Option String
unfolding is_not_blank
stripped_text limit value =
    if leb 1 (count value) && (leb (count value) limit && is_not_blank value)
    then some (strip_text value)
    else none

-- The same for a phone number, as the list of its characters
abbrev pub is_nil : List ℕ → Bool
is_nil [] = true
is_nil (c ∷ cs) = false

unfoldable pub stripped_phone : ℕ → List ℕ → Option (List ℕ)
unfolding is_blank
stripped_phone limit value =
    if leb 1 (length value) && (leb (length value) limit && not (is_nil (Phone.strip value)))
    then some (Phone.strip value)
    else none
