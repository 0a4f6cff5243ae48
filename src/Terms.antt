-- ===== src/Terms.antt =====
-- The agreement to the terms (app/services/terms/terms_service.py, app/models/terms.py).
pub mod Agreed
use order_run_be.Base.{
  ℕ, Bool, true, false, List, [], ◌∷◌, Option, none, some, ◌==◌, ◌&&◌, ◌||◌, not, UserId, Moment,
  first, find_by, upsert, is_some, if◌then◌else◌,
}
use order_run_be.Errors.{AppError}
use order_run_be.Models.Account.{TermsAgreement}
use order_run_be.Db.{
  Db, Tx, ◌>>=◌, ◌>>◌, pure, found, modify, raise_when, Request, commit, find_user,
}

-- `TermsType`
pub data TermsType : Type 0 where
  terms_of_service privacy_policy payment_refund_policy : TermsType

abbrev pub terms_types : List TermsType
terms_types = terms_of_service ∷ privacy_policy ∷ payment_refund_policy ∷ []

-- `required`
abbrev pub required : TermsType → Bool
required terms_of_service = true
required privacy_policy = true
required payment_refund_policy = true

-- `TermsAgreementRequest`
pub record TermsAgreementRequest : Type 0 where
  pub terms_of_service : Bool
  pub privacy_policy : Bool
  pub payment_refund_policy : Bool

-- `payload_by_field`
abbrev pub agreed_to : TermsAgreementRequest → TermsType → Bool
agreed_to r terms_of_service = r.terms_of_service
agreed_to r privacy_policy = r.privacy_policy
agreed_to r payment_refund_policy = r.payment_refund_policy

-- The loop over `TermsType`
abbrev pub check_required : TermsAgreementRequest → List TermsType → Tx (Unit {0})
check_required r [] = pure tt
check_required r (t ∷ ts) = do
  raise_when (required t && not (agreed_to r t)) AppError.required_terms_invalid
  check_required r ts

abbrev pub agreement_of : UserId → TermsAgreementRequest → Moment → TermsAgreement
agreement_of user_id r now = record {
  user_id = user_id;
  terms_of_service = r.terms_of_service;
  privacy_policy = r.privacy_policy;
  payment_refund_policy = r.payment_refund_policy;
  agreed_at = now;
}

abbrev pub find_agreement : UserId → Db → Option TermsAgreement
find_agreement user_id db = find_by (λ (a : TermsAgreement). a.user_id) user_id db.terms_agreements

-- The row is added, or every column but the key of the user's row is assigned. The response has the
-- columns of the row.
unfoldable pub agree : Moment → UserId → TermsAgreementRequest → Request TermsAgreement
agree now user_id payload = commit do
  existing_user ← found (find_user user_id) AppError.user_not_found
  check_required payload terms_types
  modify (λ db. record db {
    terms_agreements =
        upsert (λ (a : TermsAgreement). a.user_id) (agreement_of existing_user.id payload now)
          db.terms_agreements;
  })
  pure (agreement_of existing_user.id payload now)
