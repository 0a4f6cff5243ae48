-- ===== src/Consistency/Offering.antt =====
-- The insertion of an offer on an open proposal.
use order_run_be.Base.{
  ℕ, suc, ◌≡◌, ◌≢◌, sym, ap, inl, inr, true, false, List, [], ◌∷◌, ◌++◌, Memᴰ, arith,
}
use mathlib.Core.List.Memᴰ
use order_run_be.Models.Proposal.{Proposal}
use order_run_be.Models.Offer.{Offer}
use order_run_be.Consistency.{is_engaged, fits, IsConsistent}

module _ {ps : List Proposal} {os : List Offer} {n m : ℕ} (old : IsConsistent ps os n m)
    (p : Proposal) (o : Offer) (hp : Memᴰ p ps) (key : o.id ≡ m) (of_p : o.proposal_id ≡ p.id)
    (other : o.runner_id ≢ p.orderer_id)
    (new_bid : (r : Offer) → Memᴰ r os → r.proposal_id ≡ p.id → r.runner_id ≢ o.runner_id)
    (fit : fits p.status o.status ≡ true) (idle : is_engaged o.status ≡ false) where
  fresh : (r s : Offer) → Memᴰ r os → Memᴰ s (o ∷ []) → r.id ≢ s.id
  fresh r s hr hs e =
      omega
        (arith, old.offer_fresh r hr, e, key, ap (λ (x : Offer). x.id) (Memᴰ.eq_of_singleton hs))

  no_second_bid :
      (r s : Offer)
      → Memᴰ r os
      → Memᴰ s (o ∷ [])
      → r.proposal_id ≡ s.proposal_id
      → r.runner_id ≢ s.runner_id
  no_second_bid r s hr hs e u =
      let same = Memᴰ.eq_of_singleton hs in new_bid r hr (cc same) (cc same)

  the_proposal :
      (q : Proposal) (r : Offer) → Memᴰ q ps → Memᴰ r (o ∷ []) → r.proposal_id ≡ q.id → q ≡ p
  the_proposal q r hq hr e =
      let same = Memᴰ.eq_of_singleton hr in old.proposal_key q p hq hp (cc same)

  not_idle : (r : Offer) → Memᴰ r (o ∷ []) → is_engaged r.status ≡ true → ⊥
  not_idle r hr h = cc (Memᴰ.eq_of_singleton hr)

  -- A waiting offer of a runner who is not the orderer and has no offer there yet.
  pub add_offer-IsConsistent : IsConsistent ps (os ++ o ∷ []) n (suc m)
  add_offer-IsConsistent = record {
    proposal_key = old.proposal_key;
    offer_key = λ r s hr hs e. elim (Memᴰ.append_cases os hr) [
      | inl mr ↦ elim (Memᴰ.append_cases os hs) [
        | inl ms ↦ old.offer_key r s mr ms e
        | inr ss ↦ absurd (fresh r s mr ss e)
      ]
      | inr sr ↦ elim (Memᴰ.append_cases os hs) [
        | inl ms ↦ absurd (fresh s r ms sr (sym e))
        | inr ss ↦ cc (Memᴰ.eq_of_singleton sr, Memᴰ.eq_of_singleton ss)
      ]
    ];
    proposal_fresh = old.proposal_fresh;
    offer_fresh = λ r hr. elim (Memᴰ.append_cases os hr) [
      | inl mr ↦ omega (arith, old.offer_fresh r mr)
      | inr sr ↦ omega (arith, key, ap (λ (x : Offer). x.id) (Memᴰ.eq_of_singleton sr))
    ];
    has_proposal = λ r hr. elim (Memᴰ.append_cases os hr) [
      | inl mr ↦ old.has_proposal r mr
      | inr sr ↦ (p, hp, cc (Memᴰ.eq_of_singleton sr))
    ];
    not_self = λ q r hq hr e. elim (Memᴰ.append_cases os hr) [
      | inl mr ↦ old.not_self q r hq mr e
      | inr sr ↦ let same = the_proposal q r hq sr e in λ u. other (cc (Memᴰ.eq_of_singleton sr))
    ];
    one_bid = λ r s hr hs e u. elim (Memᴰ.append_cases os hr) [
      | inl mr ↦ elim (Memᴰ.append_cases os hs) [
        | inl ms ↦ old.one_bid r s mr ms e u
        | inr ss ↦ absurd (no_second_bid r s mr ss e u)
      ]
      | inr sr ↦ elim (Memᴰ.append_cases os hs) [
        | inl ms ↦ absurd (no_second_bid s r ms sr (sym e) (sym u))
        | inr ss ↦ cc (Memᴰ.eq_of_singleton sr, Memᴰ.eq_of_singleton ss)
      ]
    ];
    agrees = λ q r hq hr e. elim (Memᴰ.append_cases os hr) [
      | inl mr ↦ old.agrees q r hq mr e
      | inr sr ↦ rw (the_proposal q r hq sr e, Memᴰ.eq_of_singleton sr) fit
    ];
    one_engaged = λ r s hr hs e h k. elim (Memᴰ.append_cases os hr) [
      | inl mr ↦ elim (Memᴰ.append_cases os hs) [
        | inl ms ↦ old.one_engaged r s mr ms e h k
        | inr ss ↦ absurd (not_idle s ss k)
      ]
      | inr sr ↦ absurd (not_idle r sr h)
    ];
    has_engaged = λ q hq h.
        let (r, hr, e, t) = old.has_engaged q hq h in (r, Memᴰ.append_left (o ∷ []) hr, e, t);
  }
