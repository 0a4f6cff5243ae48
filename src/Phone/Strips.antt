-- ===== src/Phone/Strips.antt =====
-- `strip` on a phone number (app/schemas/user.py).
use order_run_be.Base.{
  ℕ, ◌+◌, ◌≤◌, ◌≡◌, refl, ◌∙◌, ap, Bool, true, not, List, [], ◌∷◌, Bool-cases, inl, inr, arith,
  length,
}
use order_run_be.Phone.{is_blank, left_strip, right_strip, keep, strip}

-- No white space at the start
pub starts_clean : List ℕ → Bool
unfolding is_blank
starts_clean [] = true
starts_clean (c ∷ s) = not (is_blank c)

starts_clean-left_strip : (s : List ℕ) → starts_clean (left_strip s) ≡ true
unfolding starts_clean
starts_clean-left_strip [] = refl
starts_clean-left_strip (c ∷ s) = ground (arith, starts_clean-left_strip s)

left_strip-clean : (s : List ℕ) → starts_clean s ≡ true → left_strip s ≡ s
unfolding starts_clean
left_strip-clean [] h = refl
left_strip-clean (c ∷ s) h = ground arith

starts_clean-keep : (c : ℕ) (s : List ℕ) → not (is_blank c) ≡ true → starts_clean (keep c s) ≡ true
unfolding starts_clean
starts_clean-keep c [] h = ground arith
starts_clean-keep c (d ∷ s) h = h

starts_clean-right_strip :
    (s : List ℕ) → starts_clean s ≡ true → starts_clean (right_strip s) ≡ true
unfolding starts_clean
starts_clean-right_strip [] h = refl
starts_clean-right_strip (c ∷ s) h = starts_clean-keep c (right_strip s) h

right_strip-keep : (c : ℕ) (s : List ℕ) → right_strip s ≡ s → right_strip (keep c s) ≡ keep c s
right_strip-keep c [] h = elim (Bool-cases (is_blank c)) [
  | inl blank ↦ rw blank refl
  | inr solid ↦ rw (solid, solid) refl
]
right_strip-keep c (d ∷ s) h = rw h refl

right_strip_idem : (s : List ℕ) → right_strip (right_strip s) ≡ right_strip s
right_strip_idem [] = refl
right_strip_idem (c ∷ s) = right_strip-keep c (right_strip s) (right_strip_idem s)

-- No white space at the end
pub ends_clean : List ℕ → Bool
unfolding is_blank
ends_clean [] = true
ends_clean (c ∷ []) = not (is_blank c)
ends_clean (c ∷ d ∷ s) = ends_clean (d ∷ s)

ends_clean-keep : (c : ℕ) (s : List ℕ) → ends_clean s ≡ true → ends_clean (keep c s) ≡ true
unfolding ends_clean
ends_clean-keep c [] h = ground arith
ends_clean-keep c (d ∷ s) h = h

ends_clean-right_strip : (s : List ℕ) → ends_clean (right_strip s) ≡ true
unfolding ends_clean
ends_clean-right_strip [] = refl
ends_clean-right_strip (c ∷ s) = ends_clean-keep c (right_strip s) (ends_clean-right_strip s)

pub strip-clean : (s : List ℕ) → (starts_clean (strip s) ≡ true) × (ends_clean (strip s) ≡ true)
strip-clean s = (
  starts_clean-right_strip (left_strip s) (starts_clean-left_strip s),
  ends_clean-right_strip (left_strip s),
)

pub strip_idem : (s : List ℕ) → strip (strip s) ≡ strip s
strip_idem s =
    ap right_strip (
      left_strip-clean (strip s)
        (starts_clean-right_strip (left_strip s) (starts_clean-left_strip s)))
    ∙ right_strip_idem (left_strip s)

length-left_strip : (s : List ℕ) → length (left_strip s) ≤ length s
length-left_strip [] = omega arith
length-left_strip (c ∷ s) = ground (arith, length-left_strip s)

length-keep : (c : ℕ) (s : List ℕ) → length (keep c s) ≤ length s + 1
length-keep c [] = ground arith
length-keep c (d ∷ s) = omega arith

length-right_strip : (s : List ℕ) → length (right_strip s) ≤ length s
length-right_strip [] = omega arith
length-right_strip (c ∷ s) = omega (arith, length-keep c (right_strip s), length-right_strip s)

pub length-strip : (s : List ℕ) → length (strip s) ≤ length s
length-strip s = omega (arith, length-right_strip (left_strip s), length-left_strip s)
