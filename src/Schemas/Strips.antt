-- ===== src/Schemas/Strips.antt =====
-- A request body that was accepted is accepted again as it is (app/schemas/user.py).
use Prim.Native.Char.{Char, code}
use Prim.Native.String.{count}
use Prim.Native.String.count as Count
use order_run_be.Base.{
  ℕ, ◌+◌, ◌≤◌, ◌≡◌, refl, ◌∙◌, ap, Bool, true, false, not, List, [], ◌∷◌, Option, none, some,
  String, Bool-cases, Option-cases, inl, inr, arith, length,
}
use order_run_be.Phone
use order_run_be.Phone.{is_blank}
use order_run_be.Phone.Strips
use order_run_be.Phone.Strips.{strip_idem, strip-clean, length-strip}
use order_run_be.Schemas.{optional_text}
use order_run_be.Schemas.Texts.{
  left_strip, right_strip, keep, strip_text, is_not_blank, is_empty, stripped_text, stripped_phone,
  is_nil,
}

-- No white space at the start
pub starts_clean : String → Bool
unfolding is_blank
starts_clean String.[] = true
starts_clean (String.◌∷◌ c s) = not (is_blank (code c))

starts_clean-left_strip : (s : String) → starts_clean (left_strip s) ≡ true
unfolding starts_clean
starts_clean-left_strip String.[] = refl
starts_clean-left_strip (String.◌∷◌ c s) = ground (arith, starts_clean-left_strip s)

left_strip-clean : (s : String) → starts_clean s ≡ true → left_strip s ≡ s
unfolding starts_clean
left_strip-clean String.[] h = refl
left_strip-clean (String.◌∷◌ c s) h = ground arith

starts_clean-keep :
    (c : Char) (s : String) → not (is_blank (code c)) ≡ true → starts_clean (keep c s) ≡ true
unfolding starts_clean
starts_clean-keep c String.[] h = ground arith
starts_clean-keep c (String.◌∷◌ d s) h = h

starts_clean-right_strip :
    (s : String) → starts_clean s ≡ true → starts_clean (right_strip s) ≡ true
unfolding starts_clean
starts_clean-right_strip String.[] h = refl
starts_clean-right_strip (String.◌∷◌ c s) h = starts_clean-keep c (right_strip s) h

right_strip-keep : (c : Char) (s : String) → right_strip s ≡ s → right_strip (keep c s) ≡ keep c s
right_strip-keep c String.[] h = elim (Bool-cases (is_blank (code c))) [
  | inl blank ↦ rw blank refl
  | inr solid ↦ rw (solid, solid) refl
]
right_strip-keep c (String.◌∷◌ d s) h = rw h refl

right_strip_idem : (s : String) → right_strip (right_strip s) ≡ right_strip s
right_strip_idem String.[] = refl
right_strip_idem (String.◌∷◌ c s) = right_strip-keep c (right_strip s) (right_strip_idem s)

-- No white space at the end
pub ends_clean : String → Bool
unfolding is_blank
ends_clean String.[] = true
ends_clean (String.◌∷◌ c String.[]) = not (is_blank (code c))
ends_clean (String.◌∷◌ c (String.◌∷◌ d s)) = ends_clean (String.◌∷◌ d s)

ends_clean-keep : (c : Char) (s : String) → ends_clean s ≡ true → ends_clean (keep c s) ≡ true
unfolding ends_clean
ends_clean-keep c String.[] h = elim (Bool-cases (is_blank (code c))) [
  | inl blank ↦ rw blank refl
  | inr solid ↦ rw solid (ap not solid)
]
ends_clean-keep c (String.◌∷◌ d s) h = h

ends_clean-right_strip : (s : String) → ends_clean (right_strip s) ≡ true
unfolding ends_clean
ends_clean-right_strip String.[] = refl
ends_clean-right_strip (String.◌∷◌ c s) =
    ends_clean-keep c (right_strip s) (ends_clean-right_strip s)

-- Neither has one
pub IsTrimmed : String → Type 0
IsTrimmed s = (starts_clean s ≡ true) × (ends_clean s ≡ true)

pub IsTrimmedNumber : List ℕ → Type 0
IsTrimmedNumber s = (Strips.starts_clean s ≡ true) × (Strips.ends_clean s ≡ true)

pub IsTrimmedOption : Option String → Type 0
IsTrimmedOption none = Unit
IsTrimmedOption (some s) = IsTrimmed s

strip_text-IsTrimmed : (s : String) → IsTrimmed (strip_text s)
unfolding IsTrimmed
strip_text-IsTrimmed s = (
  starts_clean-right_strip (left_strip s) (starts_clean-left_strip s),
  ends_clean-right_strip (left_strip s),
)

strip_text_idem : (s : String) → strip_text (strip_text s) ≡ strip_text s
strip_text_idem s =
    ap right_strip (
      left_strip-clean (strip_text s)
        (starts_clean-right_strip (left_strip s) (starts_clean-left_strip s)))
    ∙ right_strip_idem (left_strip s)

count-cons : (c : Char) (s : String) → count (String.◌∷◌ c s) ≡ count s + 1
count-cons c s = omega (arith, Count.cons c s)

count-nil : count String.[] ≡ 0
count-nil = Count.nil

count-left_strip : (s : String) → count (left_strip s) ≤ count s
count-left_strip String.[] = omega arith
count-left_strip (String.◌∷◌ c s) = ground (arith, count-left_strip s, count-cons c s)

count-keep : (c : Char) (s : String) → count (keep c s) ≤ count s + 1
count-keep c String.[] = elim (Bool-cases (is_blank (code c))) [
  | inl blank ↦ rw blank (omega arith)
  | inr solid ↦ rw solid (omega (arith, count-cons c String.[]))
]
count-keep c (String.◌∷◌ d s) = omega (arith, count-cons c (String.◌∷◌ d s))

count-right_strip : (s : String) → count (right_strip s) ≤ count s
count-right_strip String.[] = omega arith
count-right_strip (String.◌∷◌ c s) =
    omega (arith, count-keep c (right_strip s), count-right_strip s, count-cons c s)

count-strip_text : (s : String) → count (strip_text s) ≤ count s
count-strip_text s = omega (arith, count-right_strip (left_strip s), count-left_strip s)

count-solid : (s : String) → is_empty s ≡ false → 1 ≤ count s
count-solid String.[] h = absurd (cc)
count-solid (String.◌∷◌ c s) h = omega (arith, count-cons c s)

-- A text that a validator lets through is let through again, as it is.
pub stripped_text-settles :
    (limit : ℕ) (value : String) {s : String}
    → stripped_text limit value ≡ some s
    → stripped_text limit s ≡ some s
unfolding stripped_text is_not_blank
stripped_text-settles limit value {s} h =
    let (same, solid, short) : (strip_text value ≡ s)
        × (is_empty (strip_text value) ≡ false)
        × (count value ≤ limit) =
      ground arith in
    rw (← same) (
      ground (
        arith,
        strip_text_idem value,
        count-strip_text value,
        count-solid (strip_text value) solid,
      ))

length-solid : (cs : List ℕ) → is_nil cs ≡ false → 1 ≤ length cs
length-solid [] h = absurd (cc)
length-solid (c ∷ cs) h = omega arith

pub stripped_phone-settles :
    (limit : ℕ) (value : List ℕ) {s : List ℕ}
    → stripped_phone limit value ≡ some s
    → stripped_phone limit s ≡ some s
unfolding stripped_phone
stripped_phone-settles limit value {s} h =
    let (same, solid, short) : (Phone.strip value ≡ s)
        × (is_nil (Phone.strip value) ≡ false)
        × (length value ≤ limit) =
      ground arith in
    rw (← same)
      (ground (arith, strip_idem value, length-strip value, length-solid (Phone.strip value) solid))

pub optional_text-settles :
    (limit : ℕ) (value : Option String) {s : Option String}
    → optional_text limit value ≡ some s
    → optional_text limit s ≡ some s
optional_text-settles limit none h = ground arith
optional_text-settles limit (some value) {s} h = elim (Option-cases (stripped_text limit value)) [
  | inl bad ↦ absurd (ground arith)
  | inr (w, good) ↦
      let e : some w ≡ s = ground arith in rw (← e, stripped_text-settles limit value good) refl
]

pub stripped_text-IsTrimmed :
    (limit : ℕ) (value : String) {s : String} → stripped_text limit value ≡ some s → IsTrimmed s
unfolding stripped_text
stripped_text-IsTrimmed limit value {s} h =
    let same : strip_text value ≡ s = ground arith in rw (← same) (strip_text-IsTrimmed value)

pub stripped_phone-IsTrimmedNumber :
    (limit : ℕ) (value : List ℕ) {s : List ℕ}
    → stripped_phone limit value ≡ some s
    → IsTrimmedNumber s
unfolding stripped_phone IsTrimmedNumber
stripped_phone-IsTrimmedNumber limit value {s} h =
    let same : Phone.strip value ≡ s = ground arith in rw (← same) (strip-clean value)

pub optional_text-IsTrimmedOption :
    (limit : ℕ) (value : Option String) {s : Option String}
    → optional_text limit value ≡ some s
    → IsTrimmedOption s
unfolding IsTrimmedOption
optional_text-IsTrimmedOption limit none {s} h = let e : none ≡ s = ground arith in rw (← e) tt
optional_text-IsTrimmedOption limit (some value) {s} h =
    elim (Option-cases (stripped_text limit value)) [
      | inl bad ↦ absurd (ground arith)
      | inr (w, good) ↦
          let e : some w ≡ s = ground arith in rw (← e) (stripped_text-IsTrimmed limit value good)
    ]
