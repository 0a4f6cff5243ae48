-- ===== src/Phone/Normal.antt =====
-- Normal forms of phone numbers (app/core/phone.py, app/services/sms_service.py).
use order_run_be.Base.{
  ℕ, zero, suc, ◌≡◌, refl, ◌∙◌, inl, inr, Bool, true, List, [], ◌∷◌, ◌==◌, ◌||◌, ◌&&◌, not, drop,
  arith, Bool-cases,
}
use order_run_be.Phone.{
  is_blank, left_strip, keep, right_strip, strip, remove, starts_with, country_code, domestic,
  normalize_phone, international, to_e164_kr,
}

-- No character but the space is white space.
abbrev pub is_plain : List ℕ → Bool
is_plain [] = true
is_plain (c ∷ cs) = (not (is_blank c) || c == 32) && is_plain cs

-- Neither white space nor a hyphen is left.
abbrev is_clean : List ℕ → Bool
is_clean [] = true
is_clean (c ∷ cs) = (not (is_blank c) && not (c == 45)) && is_clean cs

space_blank : is_blank 32 ≡ true
unfolding is_blank
space_blank = refl

left_strip-plain : (cs : List ℕ) → is_plain cs ≡ true → is_plain (left_strip cs) ≡ true
left_strip-plain [] h = refl
left_strip-plain (c ∷ cs) h = ground (arith, left_strip-plain cs)

keep-plain :
    (c : ℕ) (cs : List ℕ)
    → (not (is_blank c) || c == 32) ≡ true
    → is_plain cs ≡ true
    → is_plain (keep c cs) ≡ true
keep-plain c [] h k = ground arith
keep-plain c (d ∷ ds) h k = ground arith

right_strip-plain : (cs : List ℕ) → is_plain cs ≡ true → is_plain (right_strip cs) ≡ true
right_strip-plain [] h = refl
right_strip-plain (c ∷ cs) h =
    keep-plain c (right_strip cs) (ground arith) (right_strip-plain cs (ground arith))

remove_both-clean : (cs : List ℕ) → is_plain cs ≡ true → is_clean (remove 45 (remove 32 cs)) ≡ true
remove_both-clean [] h = refl
remove_both-clean (c ∷ cs) h = ground (arith, remove_both-clean cs, space_blank)

left_strip-clean : (cs : List ℕ) → is_clean cs ≡ true → left_strip cs ≡ cs
left_strip-clean [] h = refl
left_strip-clean (c ∷ cs) h = ground arith

right_strip-clean : (cs : List ℕ) → is_clean cs ≡ true → right_strip cs ≡ cs
right_strip-clean [] h = refl
right_strip-clean (c ∷ []) h = ground arith
right_strip-clean (c ∷ d ∷ ds) h = rw (right_strip-clean (d ∷ ds) (ground arith))

remove_hyphen-clean : (cs : List ℕ) → is_clean cs ≡ true → remove 45 cs ≡ cs
remove_hyphen-clean [] h = refl
remove_hyphen-clean (c ∷ cs) h = ground (arith, remove_hyphen-clean cs)

remove_space-clean : (cs : List ℕ) → is_clean cs ≡ true → remove 32 cs ≡ cs
remove_space-clean [] h = refl
remove_space-clean (c ∷ cs) h = ground (arith, remove_space-clean cs, space_blank)

normalize-clean : (cs : List ℕ) → is_clean cs ≡ true → normalize_phone cs ≡ domestic cs
unfolding normalize_phone
normalize-clean cs h = rw (
  left_strip-clean cs h,
  right_strip-clean cs h,
  remove_space-clean cs h,
  remove_hyphen-clean cs h,
)

drop-clean : (k : ℕ) (cs : List ℕ) → is_clean cs ≡ true → is_clean (drop k cs) ≡ true
drop-clean zero cs h = h
drop-clean (suc k) [] h = refl
drop-clean (suc k) (c ∷ cs) h = drop-clean k cs (ground arith)

domestic-clean : (cs : List ℕ) → is_clean cs ≡ true → is_clean (domestic cs) ≡ true
unfolding is_blank
domestic-clean cs h = elim (Bool-cases (starts_with country_code cs)) [
  | inl e ↦ rw e (drop-clean 3 cs h)
  | inr e ↦ rw e h
]

domestic_idem : (cs : List ℕ) → domestic (domestic cs) ≡ domestic cs
domestic_idem cs = elim (Bool-cases (starts_with country_code cs)) [
  | inl e ↦ rw e
  | inr e ↦ rw (e, e)
]

normalize_phone-clean : (cs : List ℕ) → is_plain cs ≡ true → is_clean (normalize_phone cs) ≡ true
unfolding normalize_phone
normalize_phone-clean cs h =
    domestic-clean _
      (remove_both-clean (strip cs) (right_strip-plain (left_strip cs) (left_strip-plain cs h)))

domestic-normalize_phone : (cs : List ℕ) → domestic (normalize_phone cs) ≡ normalize_phone cs
unfolding normalize_phone
domestic-normalize_phone cs = domestic_idem (remove 45 (remove 32 (strip cs)))

-- If no character of a typed number but the space is white space, normalizing it a second time
-- changes nothing.
pub normalize_phone_idem :
    (cs : List ℕ) → is_plain cs ≡ true → normalize_phone (normalize_phone cs) ≡ normalize_phone cs
normalize_phone_idem cs h =
    normalize-clean (normalize_phone cs) (normalize_phone-clean cs h) ∙ domestic-normalize_phone cs

country_code-clean : (cs : List ℕ) → is_clean cs ≡ true → is_clean (43 ∷ 56 ∷ 50 ∷ cs) ≡ true
unfolding is_blank
country_code-clean cs h = h

tail-clean : (c : ℕ) (cs : List ℕ) → is_clean (c ∷ cs) ≡ true → is_clean cs ≡ true
tail-clean c cs h = ground arith

international-clean : (cs : List ℕ) → is_clean cs ≡ true → is_clean (international cs) ≡ true
international-clean [] h = refl
international-clean (c ∷ cs) h = elim (Bool-cases (c == 43)) [
  | inl e ↦ rw e h
  | inr e ↦ elim (Bool-cases (c == 48)) [
    | inl z ↦ rw (e, z) (country_code-clean cs (tail-clean c cs h))
    | inr z ↦ rw (e, z) h
  ]
]

domestic-international : (cs : List ℕ) → domestic cs ≡ cs → domestic (international cs) ≡ cs
domestic-international [] h = refl
domestic-international (c ∷ cs) h = ground arith

-- If no character of a typed number but the space is white space, the number that the SMS sender
-- uses for it normalizes to the same number.
pub normalize_phone-to_e164_kr :
    (cs : List ℕ) → is_plain cs ≡ true → normalize_phone (to_e164_kr cs) ≡ normalize_phone cs
unfolding to_e164_kr
normalize_phone-to_e164_kr cs h =
    let clean = normalize_phone-clean cs h in
    normalize-clean (international (normalize_phone cs))
      (international-clean (normalize_phone cs) clean)
    ∙ domestic-international (normalize_phone cs) (domestic-normalize_phone cs)
