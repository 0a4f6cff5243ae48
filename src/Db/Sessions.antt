-- ===== src/Db/Sessions.antt =====
-- What can be said of a request from the work of its session.
use order_run_be.Base.{
  ℕ, ◌≡◌, refl, ap, ◌∙◌, inl, inr, ◌==◌, ==_iff, Result, ok, err, Result-cases, first-mem, some,
  Memᴰ, find_by-update,
}
use order_run_be.Errors.{Error}
use order_run_be.Models.Proposal.{Proposal}
use order_run_be.Models.Offer.{Offer}
use order_run_be.Db.{
  Db, Tx, Request, commit, answer, respond_with, find_proposal, find_offer, save_proposal,
}

-- What held before a request, and holds after the work of its session, holds after the request.
pub commit-keeps :
    {A : Type 0} (P : Db → Type 0) (work : Tx A) (db : Db)
    → P db
    → ((a : A) (db' : Db) → work db ≡ ok (a, db') → P db')
    → P (commit work db).1
commit-keeps P work db before after = elim (Result-cases (work db)) [
  | inl (v, e) ↦ rw e (after v.0 v.1 e)
  | inr (x, e) ↦ rw e before
]

-- The response changes nothing.
answer-db :
    {A B : Type 0} (r : Request A) (respond : A → Db → Result Error B) (db : Db)
    → (answer r respond db).1 ≡ (r db).1
answer-db {A} r respond db = go (r db)
  where
    go : (x : Result Error A × Db) → (respond_with respond x).1 ≡ x.1
    go (ok a, db') = refl
    go (err e, db') = refl

-- A row that a query by key has found.
pub find_proposal-mem :
    (i : ℕ) (db : Db) {p : Proposal}
    → find_proposal i db ≡ some p
    → Memᴰ p db.proposals.rows × (p.id ≡ i)
find_proposal-mem i db e =
    let (m, t) = first-mem (λ p. p.id == i) db.proposals.rows e in (m, (==_iff _ _).0 t)

pub find_offer-mem :
    (i : ℕ) (db : Db) {o : Offer} → find_offer i db ≡ some o → Memᴰ o db.offers.rows × (o.id ≡ i)
find_offer-mem i db e =
    let (m, t) = first-mem (λ o. o.id == i) db.offers.rows e in (m, (==_iff _ _).0 t)

-- A request that commits the work of its session and responds keeps what that work keeps.
pub request-keeps :
    {A B : Type 0} (P : Db → Type 0) (work : Tx A) (respond : A → Db → Result Error B) (db : Db)
    → P db
    → ((a : A) (db' : Db) → work db ≡ ok (a, db') → P db')
    → P (answer (commit work) respond db).1
request-keeps P work respond db before after =
    rw (answer-db (commit work) respond db) (commit-keeps P work db before after)

-- A request that responds well has committed the work of its session.
pub answer-ok :
    {A B : Type 0} (work : Tx A) (respond : A → Db → Result Error B) (db : Db) {b : B} {db' : Db}
    → answer (commit work) respond db ≡ (ok b, db')
    → (a : A) × (work db ≡ ok (a, db'))
answer-ok {A} {B} work respond db {b} {db'} h = elim (Result-cases (work db)) [
  | inl ((a, d), e) ↦
      let same : d ≡ db' = ap (λ (x : Result Error B × Db). x.1) (rw e at h) in
      (a, e ∙ ap (λ (x : Db). ok (a, x)) same)
  | inr (x, e) ↦
      let bad : err x ≡ ok b = ap (λ (y : Result Error B × Db). y.0) (rw e at h) in absurd (cc bad)
]

-- A query by key finds a row that was saved over the one it found.
pub find_saved_proposal :
    (i : ℕ) (p q : Proposal) (db : Db)
    → find_proposal i db ≡ some p
    → q.id ≡ p.id
    → find_proposal i (save_proposal q db) ≡ some q
find_saved_proposal i p q db h e =
    let key : q.id ≡ i = e ∙ (find_proposal-mem i db h).1 in
    rw (← key) (find_by-update (λ (x : Proposal). x.id) q p db.proposals.rows (rw (← key) at h))
