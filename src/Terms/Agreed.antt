-- ===== src/Terms/Agreed.antt =====
-- What an agreement to the terms needs and leaves (app/services/terms/terms_service.py).
use order_run_be.Base.{
  ◌≡◌, refl, sym, ◌∙◌, ap, true, some, ok, UserId, Moment, Option-cases, inl, inr, upsert, find_by,
  find_by-upsert, arith, first-mem, ==_iff,
}
use order_run_be.Models.User.{User}
use order_run_be.Models.Account.{TermsAgreement}
use order_run_be.Db.{Db, find_user}
use order_run_be.Terms.{TermsAgreementRequest, agreement_of, find_agreement, agree}

agree-lem :
    (now : Moment) (u : UserId) (r : TermsAgreementRequest) (db : Db) (user : User)
    (a : TermsAgreement)
    → find_user u db ≡ some user
    → (agree now u r db).0 ≡ ok a
    → (r.terms_of_service ≡ true)
      × (r.privacy_policy ≡ true)
      × (r.payment_refund_policy ≡ true)
      × (a ≡ agreement_of user.id r now)
unfolding agree
agree-lem now u r db user a e h = (ground arith, ground arith, ground arith, ground arith)

agree-db :
    (now : Moment) (u : UserId) (r : TermsAgreementRequest) (db : Db) (user : User)
    → find_user u db ≡ some user
    → r.terms_of_service ≡ true
    → r.privacy_policy ≡ true
    → r.payment_refund_policy ≡ true
    → (agree now u r db).1.terms_agreements
      ≡ upsert (λ (a : TermsAgreement). a.user_id) (agreement_of user.id r now) db.terms_agreements
unfolding agree
agree-db now u r db user e t p f = rw (e, t, p, f) refl

-- If agreeing to the terms succeeds, all three terms are agreed to at that moment, and the
-- agreement that is then stored for the user is the one returned.
agree-stores :
    (now : Moment) (u : UserId) (r : TermsAgreementRequest) (db : Db) (a : TermsAgreement)
    → (agree now u r db).0 ≡ ok a
    → (a.terms_of_service ≡ true)
      × (a.privacy_policy ≡ true)
      × (a.payment_refund_policy ≡ true)
      × (a.agreed_at ≡ now)
      × (find_agreement u (agree now u r db).1 ≡ some a)
agree-stores now u r db a h = elim (Option-cases (find_user u db)) [
  | inl e ↦ absurd (unfold agree in ground arith)
  | inr (user, e) ↦
      let (t, p, f, made) = agree-lem now u r db user a e h in
      let key : user.id ≡ u = (==_iff _ _).0 (first-mem _ db.users e).1 in
      let id = λ (x : TermsAgreement). x.user_id in
      let stored : find_agreement user.id (agree now u r db).1 ≡ some (agreement_of user.id r now) =
        ap (find_by id user.id) (agree-db now u r db user e t p f)
        ∙ find_by-upsert id (agreement_of user.id r now) db.terms_agreements in
      (
        ap (λ (x : TermsAgreement). x.terms_of_service) made ∙ t,
        ap (λ (x : TermsAgreement). x.privacy_policy) made ∙ p,
        ap (λ (x : TermsAgreement). x.payment_refund_policy) made ∙ f,
        ap (λ (x : TermsAgreement). x.agreed_at) made,
        ap (λ i. find_agreement i (agree now u r db).1) (sym key) ∙ stored ∙ ap some (sym made),
      )
]
