-- ===== src/Consistency/Closing.antt =====
-- The steps that end waiting offers: a proposal is closed with its waiting offers, or one waiting
-- offer is cancelled.
use order_run_be.Base.{
  ℕ, ◌≡◌, inl, inr, Bool, true, false, List, map, Memᴰ, arith, ◌==◌, ◌&&◌, change, ◌≢◌, ◌∙◌,
}
use mathlib.Core.List.{map-id}
use order_run_be.Models.Proposal.{Proposal, ProposalStatus}
use order_run_be.Models.Offer
use order_run_be.Models.Offer.{Offer, OfferStatus}
use order_run_be.Consistency.{is_engaged, is_matched, fits, IsConsistent}
use order_run_be.Consistency.Rows.{put_proposal, put_proposal-cases, put_offer, put_offer-cases}
use order_run_be.Consistency.Transition.{IsStep, step-IsConsistent}

abbrev pub rejected_offer : Offer → Offer
rejected_offer o = record o { status = OfferStatus.rejected }

-- The bulk update of the waiting offers of a proposal
abbrev pub reject_of : ℕ → Offer → Offer
reject_of pid =
    change (λ o. o.proposal_id == pid && Offer.is o.status OfferStatus.waiting) rejected_offer

-- The last statuses of a proposal that never was matched
abbrev pub is_closed : ProposalStatus → Bool
is_closed ProposalStatus.cancelled = true
is_closed ProposalStatus.reported = true
is_closed _ = false

reject_of-keys :
    (pid : ℕ) (o : Offer)
    → ((reject_of pid o).id ≡ o.id)
      × ((reject_of pid o).proposal_id ≡ o.proposal_id)
      × ((reject_of pid o).runner_id ≡ o.runner_id)
reject_of-keys pid o = ground arith

reject_of_other : (pid : ℕ) (o : Offer) → o.proposal_id ≢ pid → reject_of pid o ≡ o
reject_of_other pid o ne = ground arith

-- Under an open proposal every offer is then over, and fits a closed one.
closed_fits :
    (s t : ProposalStatus) (pid : ℕ) (o : Offer)
    → is_matched s ≡ false
    → is_closed t ≡ true
    → o.proposal_id ≡ pid
    → fits s o.status ≡ true
    → fits t (reject_of pid o).status ≡ true
closed_fits s t pid o hs ht e h = ground arith

reject_of-engaged :
    (pid : ℕ) (o : Offer) → is_engaged (reject_of pid o).status ≡ is_engaged o.status
reject_of-engaged pid o = ground arith

module _ {ps : List Proposal} {os : List Offer} {n m : ℕ} (old : IsConsistent ps os n m) where
  module _ (p p' : Proposal) (hp : Memᴰ p ps)
      (same : (p'.id ≡ p.id) × (p'.orderer_id ≡ p.orderer_id))
      (unmatched : is_matched p.status ≡ false) (closed : is_closed p'.status ≡ true)
      (closed_unmatched : is_matched p'.status ≡ false) where
    step : IsStep (put_proposal p p') (reject_of p.id) ps os
    step = record {
      keeps_proposal = λ q hq. elim (put_proposal-cases old p p' q hp hq) [
        | inl (qp, ep) ↦ (cc (same.0), cc (same.1))
        | inr (ne, ep) ↦ (cc, cc)
      ];
      keeps_offer = λ r hr. reject_of-keys p.id r;
      agrees = λ q r hq hr e.
          let before = old.agrees q r hq hr e in
          elim (put_proposal-cases old p p' q hp hq) [
            | inl (qp, ep) ↦
                rw ep
                  (closed_fits p.status p'.status p.id r unmatched closed (cc) (rw (← qp) before))
            | inr (ne, ep) ↦ rw (ep, reject_of_other p.id r (λ u. ne (cc))) before
          ];
      one_engaged = λ r s hr hs e h k.
          old.one_engaged r s hr hs e (rw (reject_of-engaged p.id r) at h)
            (rw (reject_of-engaged p.id s) at k);
      has_engaged = λ q hq h. elim (put_proposal-cases old p p' q hp hq) [
        | inl (qp, ep) ↦ absurd (cc (rw ep at h))
        | inr (ne, ep) ↦
            let (r, hr, e, t) = old.has_engaged q hq (rw ep at h) in
            (r, hr, e, reject_of-engaged p.id r ∙ t)
      ];
    }

    -- A proposal that never was matched is closed, and its waiting offers are rejected.
    pub closing-IsConsistent :
        IsConsistent (map (put_proposal p p') ps) (map (reject_of p.id) os) n m
    closing-IsConsistent = step-IsConsistent (put_proposal p p') (reject_of p.id) ps os n m old step

  module _ (o o' : Offer) (ho : Memᴰ o os)
      (same : (o'.id ≡ o.id) × (o'.proposal_id ≡ o.proposal_id) × (o'.runner_id ≡ o.runner_id))
      (idle : is_engaged o.status ≡ false) (idle' : is_engaged o'.status ≡ false)
      (follows : (s : ProposalStatus) → fits s o.status ≡ true → fits s o'.status ≡ true) where
    same_engaged :
        (r : Offer) → Memᴰ r os → is_engaged (put_offer o o' r).status ≡ is_engaged r.status
    same_engaged r hr = elim (put_offer-cases old o o' r ho hr) [
      | inl (ro, er) ↦ rw (er, ro) (cc)
      | inr (ne, er) ↦ rw er
    ]

    offer-IsStep : IsStep (λ q. q) (put_offer o o') ps os
    offer-IsStep = record {
      keeps_proposal = λ q hq. (cc, cc);
      keeps_offer = λ r hr. elim (put_offer-cases old o o' r ho hr) [
        | inl (ro, er) ↦ (cc (same.0), cc (same.1), cc (same.2))
        | inr (ne, er) ↦ (cc, cc, cc)
      ];
      agrees = λ q r hq hr e.
          let before = old.agrees q r hq hr e in
          elim (put_offer-cases old o o' r ho hr) [
            | inl (ro, er) ↦ rw er (follows q.status (rw (← ro) before))
            | inr (ne, er) ↦ rw er before
          ];
      one_engaged = λ r s hr hs e h k.
          old.one_engaged r s hr hs e (rw (same_engaged r hr) at h) (rw (same_engaged s hs) at k);
      has_engaged =
          λ q hq h. let (r, hr, e, t) = old.has_engaged q hq h in (r, hr, e, same_engaged r hr ∙ t);
    }

    -- A waiting offer is cancelled.
    pub offer-IsConsistent : IsConsistent ps (map (put_offer o o') os) n m
    offer-IsConsistent =
        let moved = step-IsConsistent (λ q. q) (put_offer o o') ps os n m old offer-IsStep in
        rw map-id at moved
