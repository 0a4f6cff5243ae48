-- ===== src/Consistency/Matching.antt =====
-- The match: one waiting offer of an open proposal is accepted, and its rivals are rejected.
use order_run_be.Base.{ℕ, ◌≡◌, ◌≢◌, inl, inr, ◌⊎◌, true, false, List, map, Memᴰ, arith, change}
use order_run_be.Models.Proposal.{Proposal, ProposalStatus}
use order_run_be.Models.Offer.{Offer, OfferStatus}
use order_run_be.Offers.Commands.{is_rival}
use order_run_be.Consistency.{is_engaged, fits, IsConsistent}
use order_run_be.Consistency.Closing.{rejected_offer}
use order_run_be.Consistency.Rows.{put_proposal, put_proposal-cases, put_offer, put_offer-cases}
use order_run_be.Consistency.Transition.{IsStep, step-IsConsistent}

-- The bulk update of the rivals of an offer
abbrev pub reject_rival : ℕ → ℕ → Offer → Offer
reject_rival pid oid = change (is_rival pid oid) rejected_offer

rival-keys :
    (pid oid : ℕ) (o : Offer)
    → ((reject_rival pid oid o).id ≡ o.id)
      × ((reject_rival pid oid o).proposal_id ≡ o.proposal_id)
      × ((reject_rival pid oid o).runner_id ≡ o.runner_id)
rival-keys pid oid o = ground arith

rival_other : (pid oid : ℕ) (o : Offer) → o.proposal_id ≢ pid → reject_rival pid oid o ≡ o
rival_other pid oid o ne = ground arith

rival_self : (pid oid : ℕ) (o : Offer) → o.id ≡ oid → reject_rival pid oid o ≡ o
rival_self pid oid o e = ground arith

rival-engaged :
    (pid oid : ℕ) (o : Offer) → is_engaged (reject_rival pid oid o).status ≡ is_engaged o.status
rival-engaged pid oid o = ground arith

rival_fits :
    (pid oid : ℕ) (o : Offer)
    → o.id ≢ oid
    → o.proposal_id ≡ pid
    → fits ProposalStatus.offered o.status ≡ true
    → fits ProposalStatus.matched (reject_rival pid oid o).status ≡ true
rival_fits pid oid o ne e h = ground arith

offered_idle : (u : OfferStatus) → fits ProposalStatus.offered u ≡ true → is_engaged u ≡ false
offered_idle u h = ground arith

module _ {ps : List Proposal} {os : List Offer} {n m : ℕ} (old : IsConsistent ps os n m)
    (p p' : Proposal) (o o' : Offer) (hp : Memᴰ p ps) (ho : Memᴰ o os)
    (same_p : (p'.id ≡ p.id) × (p'.orderer_id ≡ p.orderer_id))
    (same_o : (o'.id ≡ o.id) × (o'.proposal_id ≡ o.proposal_id) × (o'.runner_id ≡ o.runner_id))
    (of_p : o.proposal_id ≡ p.id) (is_open : p.status ≡ ProposalStatus.offered)
    (matched : p'.status ≡ ProposalStatus.matched)
    (accepted : o'.status ≡ OfferStatus.accepted) where
  abbrev after : Offer → Offer
  after r = reject_rival p.id o.id (put_offer o o' r)

  -- The accepted offer, or another one.
  after-cases :
      (r : Offer)
      → Memᴰ r os
      → ((r ≡ o) × (after r ≡ o')) ⊎ ((r.id ≢ o.id) × (after r ≡ reject_rival p.id o.id r))
  after-cases r hr = elim (put_offer-cases old o o' r ho hr) [
    | inl (ro, er) ↦ inl (ro, rw er (rival_self p.id o.id o' same_o.0))
    | inr (ne, er) ↦ inr (ne, rw er)
  ]

  idle : (r : Offer) → Memᴰ r os → r.proposal_id ≡ p.id → is_engaged r.status ≡ false
  idle r hr e = offered_idle r.status (rw (← is_open) (old.agrees p r hp hr e))

  after_engaged :
      (r : Offer)
      → Memᴰ r os
      → is_engaged (after r).status ≡ true
      → (r ≡ o) ⊎ (is_engaged r.status ≡ true)
  after_engaged r hr h = elim (after-cases r hr) [
    | inl (ro, er) ↦ inl ro
    | inr (ne, er) ↦ inr (rw (er, rival-engaged) at h)
  ]

  one :
      (r s : Offer)
      → Memᴰ r os
      → Memᴰ s os
      → r.proposal_id ≡ s.proposal_id
      → is_engaged (after r).status ≡ true
      → is_engaged (after s).status ≡ true
      → r.id ≡ s.id
  one r s hr hs e h k = elim (after_engaged r hr h) [
    | inl ro ↦ elim (after_engaged s hs k) [ inl so ↦ cc | inr t ↦ absurd (cc (idle s hs (cc))) ]
    | inr t ↦ elim (after_engaged s hs k) [
      | inl so ↦ absurd (cc (idle r hr (cc)))
      | inr u ↦ old.one_engaged r s hr hs e t u
    ]
  ]

  agrees :
      (q : Proposal) (r : Offer)
      → Memᴰ q ps
      → Memᴰ r os
      → r.proposal_id ≡ q.id
      → fits (put_proposal p p' q).status (after r).status ≡ true
  agrees q r hq hr e =
      let before = old.agrees q r hq hr e in
      elim (put_proposal-cases old p p' q hp hq) [
        | inl (qp, ep) ↦ elim (after-cases r hr) [
          | inl (ro, er) ↦ rw (ep, er, matched, accepted)
          | inr (ne, er) ↦
              let was_open : q.status ≡ ProposalStatus.offered = cc in
              rw (ep, er, matched) (rival_fits p.id o.id r ne (cc) (rw was_open at before))
        ]
        | inr (ne, ep) ↦ elim (after-cases r hr) [
          | inl (ro, er) ↦ absurd (ne (cc))
          | inr (_, er) ↦ rw (ep, er, rival_other p.id o.id r (λ u. ne (cc))) before
        ]
      ]

  step : IsStep (put_proposal p p') after ps os
  step = record {
    keeps_proposal = λ q hq. elim (put_proposal-cases old p p' q hp hq) [
      | inl (qp, ep) ↦ (cc (same_p.0), cc (same_p.1))
      | inr (ne, ep) ↦ (cc, cc)
    ];
    keeps_offer = λ r hr. elim (after-cases r hr) [
      | inl (ro, er) ↦ (cc (same_o.0), cc (same_o.1), cc (same_o.2))
      | inr (ne, er) ↦ rw er (rival-keys p.id o.id r)
    ];
    agrees = agrees;
    one_engaged = one;
    has_engaged = λ q hq h. elim (put_proposal-cases old p p' q hp hq) [
      | inl (qp, ep) ↦ elim (after-cases o ho) [
        | inl (_, er) ↦ (o, ho, cc, rw (er, accepted))
        | inr (ne, _) ↦ absurd (ne (cc))
      ]
      | inr (ne, ep) ↦
          let (r, hr, e, t) = old.has_engaged q hq (rw ep at h) in
          elim (after-cases r hr) [
            | inl (ro, er) ↦ absurd (ne (cc))
            | inr (_, er) ↦ (r, hr, e, rw (er, rival-engaged) t)
          ]
    ];
  }

  pub match-IsConsistent : IsConsistent (map (put_proposal p p') ps) (map after os) n m
  match-IsConsistent = step-IsConsistent (put_proposal p p') after ps os n m old step
