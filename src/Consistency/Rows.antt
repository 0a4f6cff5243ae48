-- ===== src/Consistency/Rows.antt =====
-- One row written back under its key: what becomes of the other rows, and of the row itself.
use order_run_be.Base.{
  ℕ, ◌≡◌, ◌⊎◌, ◌≢◌, inl, inr, List, Memᴰ, ◌==◌, ==_iff, ==_refl, change, Bool-cases,
}
use order_run_be.Models.Proposal.{Proposal}
use order_run_be.Models.Offer.{Offer}
use order_run_be.Consistency.{IsConsistent}

abbrev pub put_proposal : Proposal → Proposal → Proposal → Proposal
put_proposal p p' = change (λ q. q.id == p.id) (λ _. p')

abbrev pub put_offer : Offer → Offer → Offer → Offer
put_offer o o' = change (λ r. r.id == o.id) (λ _. o')

module _ {ps : List Proposal} {os : List Offer} {n m : ℕ} (old : IsConsistent ps os n m) where
  -- The row with the key is the row that was read, and it alone is replaced.
  pub put_proposal-cases :
      (p p' q : Proposal)
      → Memᴰ p ps
      → Memᴰ q ps
      → ((q ≡ p) × (put_proposal p p' q ≡ p')) ⊎ ((q.id ≢ p.id) × (put_proposal p p' q ≡ q))
  put_proposal-cases p p' q hp hq = elim (Bool-cases (q.id == p.id)) [
    | inl h ↦ inl (old.proposal_key q p hq hp ((==_iff _ _).0 h), rw h)
    | inr h ↦ inr ((λ e. cc ((==_iff q.id p.id).1 e)), rw h)
  ]

  pub put_offer-cases :
      (o o' r : Offer)
      → Memᴰ o os
      → Memᴰ r os
      → ((r ≡ o) × (put_offer o o' r ≡ o')) ⊎ ((r.id ≢ o.id) × (put_offer o o' r ≡ r))
  put_offer-cases o o' r ho hr = elim (Bool-cases (r.id == o.id)) [
    | inl h ↦ inl (old.offer_key r o hr ho ((==_iff _ _).0 h), rw h)
    | inr h ↦ inr ((λ e. cc ((==_iff r.id o.id).1 e)), rw h)
  ]

pub put_self : (p p' : Proposal) → put_proposal p p' p ≡ p'
put_self p p' = rw (==_refl p.id)
