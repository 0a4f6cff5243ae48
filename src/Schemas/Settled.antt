-- ===== src/Schemas/Settled.antt =====
-- The request bodies of sign-up and login are accepted again as the validators leave them
-- (app/schemas/user.py).
use order_run_be.Base.{◌≡◌, some, Option-cases, inl, inr, arith}
use order_run_be.Schemas.{
  SignupSend, LoginConfirm, signup_send_request, login_confirm_request, optional_text,
}
use order_run_be.Schemas.Texts.{stripped_text, stripped_phone}
use order_run_be.Schemas.Strips.{
  stripped_text-settles, stripped_phone-settles, optional_text-settles, IsTrimmed, IsTrimmedNumber,
  IsTrimmedOption, stripped_text-IsTrimmed, stripped_phone-IsTrimmedNumber,
  optional_text-IsTrimmedOption,
}

signup_send_request-settles :
    (body : SignupSend) {r : SignupSend}
    → signup_send_request body ≡ some r
    → signup_send_request r ≡ some r
unfolding signup_send_request
signup_send_request-settles body {r} h = elim (Option-cases (stripped_text 100 body.name)) [
  | inl bad ↦ absurd (ground arith)
  | inr (name, n) ↦ elim (Option-cases (stripped_phone 20 body.phone)) [
    | inl bad ↦ absurd (ground arith)
    | inr (phone, p) ↦ elim (Option-cases (stripped_text 50 body.carrier)) [
      | inl bad ↦ absurd (ground arith)
      | inr (carrier, c) ↦
          let e : some (record { name = name; phone = phone; carrier = carrier }) ≡ some r =
            ground arith in
          ground (
            arith,
            stripped_text-settles 100 body.name n,
            stripped_phone-settles 20 body.phone p,
            stripped_text-settles 50 body.carrier c,
          )
    ]
  ]
]

-- No text of the body has white space at either end.
pub AreTrimmed : LoginConfirm → Type 0
AreTrimmed r = IsTrimmedNumber r.phone × IsTrimmed r.code × IsTrimmedOption r.fcm_token

-- The phone, the code and the token of a login's body that the validators let through have no
-- white space at either end, and that body is let through again and left as it is.
pub login_confirm_request-settles :
    (body : LoginConfirm) {r : LoginConfirm}
    → login_confirm_request body ≡ some r
    → AreTrimmed r × (login_confirm_request r ≡ some r)
unfolding login_confirm_request AreTrimmed
login_confirm_request-settles body {r} h = elim (Option-cases (stripped_phone 20 body.phone)) [
  | inl bad ↦ absurd (ground arith)
  | inr (phone, p) ↦ elim (Option-cases (stripped_text 20 body.code)) [
    | inl bad ↦ absurd (ground arith)
    | inr (code, c) ↦ elim (Option-cases (optional_text 4096 body.fcm_token)) [
      | inl bad ↦ absurd (ground arith)
      | inr (token, t) ↦
          let e : record { phone = phone; code = code; fcm_token = token } ≡ r = ground arith in
          rw (← e) (
            (
              stripped_phone-IsTrimmedNumber 20 body.phone p,
              stripped_text-IsTrimmed 20 body.code c,
              optional_text-IsTrimmedOption 4096 body.fcm_token t,
            ),
            ground (
              arith,
              stripped_phone-settles 20 body.phone p,
              stripped_text-settles 20 body.code c,
              optional_text-settles 4096 body.fcm_token t,
            ),
          )
    ]
  ]
]
