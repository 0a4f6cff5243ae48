-- ===== src/Consistency/Execution.antt =====
-- The steps of a matched proposal: the row of the proposal and the row of its offer in execution
-- change together.
use order_run_be.Base.{ℕ, ◌≡◌, inl, inr, ◌≢◌, true, false, List, map, Memᴰ, arith, Bool-cases}
use order_run_be.Models.Proposal.{Proposal, ProposalStatus}
use order_run_be.Models.Offer.{Offer, OfferStatus}
use order_run_be.Consistency.{is_engaged, is_matched, fits, IsConsistent}
use order_run_be.Consistency.Rows.{put_proposal, put_offer, put_proposal-cases, put_offer-cases}
use order_run_be.Consistency.Transition.{IsStep, step-IsConsistent}

-- An offer that is not in execution fits every matched proposal alike.
bystander :
    (s t : ProposalStatus) (u : OfferStatus)
    → is_matched s ≡ true
    → is_matched t ≡ true
    → fits s u ≡ true
    → is_engaged u ≡ false
    → fits t u ≡ true
bystander s t u hs ht hf hu = ground arith

module _ {ps : List Proposal} {os : List Offer} {n m : ℕ} (old : IsConsistent ps os n m)
    (p p' : Proposal) (o o' : Offer) (hp : Memᴰ p ps) (ho : Memᴰ o os)
    (same_p : (p'.id ≡ p.id) × (p'.orderer_id ≡ p.orderer_id))
    (same_o : (o'.id ≡ o.id) × (o'.proposal_id ≡ o.proposal_id) × (o'.runner_id ≡ o.runner_id))
    (of_p : o.proposal_id ≡ p.id) (matched : is_matched p.status ≡ true)
    (matched' : is_matched p'.status ≡ true) (engaged : is_engaged o.status ≡ true)
    (engaged' : is_engaged o'.status ≡ true) (fit : fits p'.status o'.status ≡ true) where
  idle : (r : Offer) → Memᴰ r os → r.proposal_id ≡ p.id → r.id ≢ o.id → is_engaged r.status ≡ false
  idle r hr e ne = elim (Bool-cases (is_engaged r.status)) [
    | inl h ↦ absurd (ne (old.one_engaged r o hr ho (cc) h engaged))
    | inr h ↦ h
  ]

  agrees :
      (q : Proposal) (r : Offer)
      → Memᴰ q ps
      → Memᴰ r os
      → r.proposal_id ≡ q.id
      → fits (put_proposal p p' q).status (put_offer o o' r).status ≡ true
  agrees q r hq hr e =
      let before = old.agrees q r hq hr e in
      elim (put_proposal-cases old p p' q hp hq) [
        | inl (qp, ep) ↦ elim (put_offer-cases old o o' r ho hr) [
          | inl (ro, er) ↦ rw (ep, er) fit
          | inr (ne, er) ↦
              let here : r.proposal_id ≡ p.id = cc in
              let fit_p : fits p.status r.status ≡ true = rw (← qp) before in
              rw (ep, er)
                (bystander p.status p'.status r.status matched matched' fit_p (idle r hr here ne))
        ]
        | inr (ne, ep) ↦ elim (put_offer-cases old o o' r ho hr) [
          | inl (ro, er) ↦ absurd (ne (cc))
          | inr (_, er) ↦ rw (ep, er) before
        ]
      ]

  was_engaged :
      (r : Offer)
      → Memᴰ r os
      → is_engaged (put_offer o o' r).status ≡ true
      → is_engaged r.status ≡ true
  was_engaged r hr h = elim (put_offer-cases old o o' r ho hr) [
    | inl (ro, er) ↦ rw ro engaged
    | inr (ne, er) ↦ rw er at h
  ]

  now_engaged :
      (r : Offer)
      → Memᴰ r os
      → is_engaged r.status ≡ true
      → is_engaged (put_offer o o' r).status ≡ true
  now_engaged r hr h = elim (put_offer-cases old o o' r ho hr) [
    | inl (ro, er) ↦ rw er engaged'
    | inr (ne, er) ↦ rw er h
  ]

  was_matched :
      (q : Proposal)
      → Memᴰ q ps
      → is_matched (put_proposal p p' q).status ≡ true
      → is_matched q.status ≡ true
  was_matched q hq h = elim (put_proposal-cases old p p' q hp hq) [
    | inl (qp, ep) ↦ rw qp matched
    | inr (ne, ep) ↦ rw ep at h
  ]

  step : IsStep (put_proposal p p') (put_offer o o') ps os
  step = record {
    keeps_proposal = λ q hq. elim (put_proposal-cases old p p' q hp hq) [
      | inl (qp, ep) ↦ (cc (same_p.0), cc (same_p.1))
      | inr (ne, ep) ↦ (cc, cc)
    ];
    keeps_offer = λ r hr. elim (put_offer-cases old o o' r ho hr) [
      | inl (ro, er) ↦ (cc (same_o.0), cc (same_o.1), cc (same_o.2))
      | inr (ne, er) ↦ (cc, cc, cc)
    ];
    agrees = agrees;
    one_engaged =
        λ r t hr ht e a b. old.one_engaged r t hr ht e (was_engaged r hr a) (was_engaged t ht b);
    has_engaged = λ q hq h.
        let (r, hr, e, t) = old.has_engaged q hq (was_matched q hq h) in
        (r, hr, e, now_engaged r hr t);
  }

  pub execution-IsConsistent :
      IsConsistent (map (put_proposal p p') ps) (map (put_offer o o') os) n m
  execution-IsConsistent = step-IsConsistent (put_proposal p p') (put_offer o o') ps os n m old step
