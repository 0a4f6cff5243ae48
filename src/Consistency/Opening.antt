-- ===== src/Consistency/Opening.antt =====
-- The steps before a match that leave the offers alone, and the insertion of a proposal and of an
-- offer.
use order_run_be.Base.{
  ℕ, suc, ◌≡◌, ◌∙◌, ap, inl, inr, Bool, true, false, List, [], ◌∷◌, ◌++◌, map, Memᴰ, arith,
}
use mathlib.Core.List.{map-id}
use mathlib.Core.List.Memᴰ
use order_run_be.Models.Proposal.{Proposal, ProposalStatus}
use order_run_be.Models.Offer.{Offer, OfferStatus}
use order_run_be.Consistency.{is_matched, fits, IsConsistent}
use order_run_be.Consistency.Rows.{put_proposal, put_proposal-cases}
use order_run_be.Consistency.Transition.{IsStep, step-IsConsistent}

-- A status under which a proposal has no offers.
abbrev pub is_draft : ProposalStatus → Bool
is_draft ProposalStatus.holding = true
is_draft ProposalStatus.posted = true
is_draft _ = false

draft_has_none : (s : ProposalStatus) (u : OfferStatus) → is_draft s ≡ true → fits s u ≡ false
draft_has_none s u h = ground arith

module _ {ps : List Proposal} {os : List Offer} {n m : ℕ} (old : IsConsistent ps os n m)
    (p p' : Proposal) (hp : Memᴰ p ps) (same : (p'.id ≡ p.id) × (p'.orderer_id ≡ p.orderer_id))
    (unmatched : is_matched p'.status ≡ false) where
  module _
      (follows : (r : Offer)
        → Memᴰ r os
        → r.proposal_id ≡ p.id
        → fits p.status r.status ≡ true
        → fits p'.status r.status ≡ true) where
    step : IsStep (put_proposal p p') (λ o. o) ps os
    step = record {
      keeps_proposal = λ q hq. elim (put_proposal-cases old p p' q hp hq) [
        | inl (qp, ep) ↦ (cc (same.0), cc (same.1))
        | inr (ne, ep) ↦ (cc, cc)
      ];
      keeps_offer = λ r hr. (cc, cc, cc);
      agrees = λ q r hq hr e. elim (put_proposal-cases old p p' q hp hq) [
        | inl (qp, ep) ↦
            rw ep (
              follows r hr (e ∙ ap (λ (x : Proposal). x.id) qp)
                (rw (← qp) (old.agrees q r hq hr e)))
        | inr (ne, ep) ↦ rw ep (old.agrees q r hq hr e)
      ];
      one_engaged = old.one_engaged;
      has_engaged = λ q hq h. elim (put_proposal-cases old p p' q hp hq) [
        | inl (qp, ep) ↦ absurd (cc (rw ep at h))
        | inr (ne, ep) ↦ old.has_engaged q hq (rw ep at h)
      ];
    }

    -- A proposal takes another status that its offers fit, and no match is claimed.
    pub status-IsConsistent : IsConsistent (map (put_proposal p p') ps) os n m
    status-IsConsistent =
        let moved = step-IsConsistent (put_proposal p p') (λ o. o) ps os n m old step in
        rw map-id at moved

  -- A proposal without offers takes any status but a matched one.
  pub draft-IsConsistent :
      is_draft p.status ≡ true → IsConsistent (map (put_proposal p p') ps) os n m
  draft-IsConsistent draft =
      status-IsConsistent (λ r m e h. absurd (cc (h, draft_has_none p.status r.status draft)))

module _ {ps : List Proposal} {os : List Offer} {n m : ℕ} (old : IsConsistent ps os n m) where
  -- A new proposal with the next key.
  pub add_proposal-IsConsistent :
      (p : Proposal)
      → p.id ≡ n
      → is_matched p.status ≡ false
      → IsConsistent (ps ++ p ∷ []) os (suc n) m
  add_proposal-IsConsistent p key unmatched = record {
    proposal_key = λ q r hq hr e. elim (Memᴰ.append_cases ps hq) [
      | inl mq ↦ elim (Memᴰ.append_cases ps hr) [
        | inl mr ↦ old.proposal_key q r mq mr e
        | inr sr ↦ absurd (
            omega (
              arith,
              old.proposal_fresh q mq,
              e,
              key,
              ap (λ (x : Proposal). x.id) (Memᴰ.eq_of_singleton sr),
            ))
      ]
      | inr sq ↦ elim (Memᴰ.append_cases ps hr) [
        | inl mr ↦ absurd (
            omega (
              arith,
              old.proposal_fresh r mr,
              e,
              key,
              ap (λ (x : Proposal). x.id) (Memᴰ.eq_of_singleton sq),
            ))
        | inr sr ↦ cc (Memᴰ.eq_of_singleton sq, Memᴰ.eq_of_singleton sr)
      ]
    ];
    offer_key = old.offer_key;
    proposal_fresh = λ q hq. elim (Memᴰ.append_cases ps hq) [
      | inl mq ↦ omega (arith, old.proposal_fresh q mq)
      | inr sq ↦ omega (arith, key, ap (λ (x : Proposal). x.id) (Memᴰ.eq_of_singleton sq))
    ];
    offer_fresh = old.offer_fresh;
    has_proposal =
        λ o ho. let (q, hq, e) = old.has_proposal o ho in (q, Memᴰ.append_left (p ∷ []) hq, e);
    not_self = λ q o hq ho e. elim (Memᴰ.append_cases ps hq) [
      | inl mq ↦ old.not_self q o mq ho e
      | inr sq ↦ absurd (no_offer p key q o sq ho e)
    ];
    one_bid = old.one_bid;
    agrees = λ q o hq ho e. elim (Memᴰ.append_cases ps hq) [
      | inl mq ↦ old.agrees q o mq ho e
      | inr sq ↦ absurd (no_offer p key q o sq ho e)
    ];
    one_engaged = old.one_engaged;
    has_engaged = λ q hq h. elim (Memᴰ.append_cases ps hq) [
      | inl mq ↦ old.has_engaged q mq h
      | inr sq ↦ absurd (cc (Memᴰ.eq_of_singleton sq, h, unmatched))
    ];
  }
    where
      no_offer :
          (p : Proposal)
          → p.id ≡ n
          → (q : Proposal) (o : Offer) → Memᴰ q (p ∷ [])
          → Memᴰ o os
          → o.proposal_id ≡ q.id
          → ⊥
      no_offer p key q o sq ho e =
          let (r, hr, er) = old.has_proposal o ho in
          omega (
            arith,
            old.proposal_fresh r hr,
            er,
            e,
            key,
            ap (λ (x : Proposal). x.id) (Memᴰ.eq_of_singleton sq),
          )
