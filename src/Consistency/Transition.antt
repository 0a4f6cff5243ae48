-- ===== src/Consistency/Transition.antt =====
-- Rows changed in place, and rows added: what has to be shown for the invariant to survive.
use order_run_be.Base.{ℕ, ◌≡◌, true, List, map, Memᴰ, arith}
use mathlib.Core.List.Memᴰ
use order_run_be.Models.Proposal.{Proposal}
use order_run_be.Models.Offer.{Offer}
use order_run_be.Consistency.{is_engaged, is_matched, fits, IsConsistent}

-- What a change of rows must leave alone, and what it must show.
pub record IsStep (f : Proposal → Proposal) (g : Offer → Offer) (ps : List Proposal)
    (os : List Offer) : Type 0 where
  pub keeps_proposal :
      (p : Proposal) → Memᴰ p ps → ((f p).id ≡ p.id) × ((f p).orderer_id ≡ p.orderer_id)
  pub keeps_offer :
      (o : Offer)
      → Memᴰ o os
      → ((g o).id ≡ o.id) × ((g o).proposal_id ≡ o.proposal_id) × ((g o).runner_id ≡ o.runner_id)
  pub agrees :
      (p : Proposal) (o : Offer)
      → Memᴰ p ps
      → Memᴰ o os
      → o.proposal_id ≡ p.id
      → fits (f p).status (g o).status ≡ true
  pub one_engaged :
      (o r : Offer)
      → Memᴰ o os
      → Memᴰ r os
      → o.proposal_id ≡ r.proposal_id
      → is_engaged (g o).status ≡ true
      → is_engaged (g r).status ≡ true
      → o.id ≡ r.id
  pub has_engaged :
      (p : Proposal)
      → Memᴰ p ps
      → is_matched (f p).status ≡ true
      → (o : Offer) × Memᴰ o os × (o.proposal_id ≡ p.id) × (is_engaged (g o).status ≡ true)

module _ (f : Proposal → Proposal) (g : Offer → Offer) (ps : List Proposal) (os : List Offer)
    (n m : ℕ) (old : IsConsistent ps os n m) (st : IsStep f g ps os) where
  proposal_key' : (p q : Proposal) → Memᴰ p (map f ps) → Memᴰ q (map f ps) → p.id ≡ q.id → p ≡ q
  proposal_key' p q hp hq e =
      let (p₀, mp, ep) = Memᴰ.of_map f ps hp in
      let (q₀, mq, eq) = Memᴰ.of_map f ps hq in
      let kp = (st.keeps_proposal p₀ mp).0 in
      let kq = (st.keeps_proposal q₀ mq).0 in
      let ids : p₀.id ≡ q₀.id = cc in cc (old.proposal_key p₀ q₀ mp mq ids)

  offer_key' : (o r : Offer) → Memᴰ o (map g os) → Memᴰ r (map g os) → o.id ≡ r.id → o ≡ r
  offer_key' o r ho hr e =
      let (o₀, mo, eo) = Memᴰ.of_map g os ho in
      let (r₀, mr, er) = Memᴰ.of_map g os hr in
      let ko = (st.keeps_offer o₀ mo).0 in
      let kr = (st.keeps_offer r₀ mr).0 in
      let ids : o₀.id ≡ r₀.id = cc in cc (old.offer_key o₀ r₀ mo mr ids)

  pub step-IsConsistent : IsConsistent (map f ps) (map g os) n m
  step-IsConsistent = record {
    proposal_key = proposal_key';
    offer_key = offer_key';
    proposal_fresh = λ p hp.
        let (p₀, mp, ep) = Memᴰ.of_map f ps hp in
        let k = (st.keeps_proposal p₀ mp).0 in
        let same : p.id ≡ p₀.id = cc in omega (arith, same, old.proposal_fresh p₀ mp);
    offer_fresh = λ o ho.
        let (o₀, mo, eo) = Memᴰ.of_map g os ho in
        let k = (st.keeps_offer o₀ mo).0 in
        let same : o.id ≡ o₀.id = cc in omega (arith, same, old.offer_fresh o₀ mo);
    has_proposal = λ o ho.
        let (o₀, mo, eo) = Memᴰ.of_map g os ho in
        let (p, mp, e) = old.has_proposal o₀ mo in
        let ko = st.keeps_offer o₀ mo in
        let kp = st.keeps_proposal p mp in (f p, Memᴰ.map f mp, cc (ko.1, kp.0));
    not_self = λ p o hp ho e.
        let (p₀, mp, ep) = Memᴰ.of_map f ps hp in
        let (o₀, mo, eo) = Memᴰ.of_map g os ho in
        let kp = st.keeps_proposal p₀ mp in
        let ko = st.keeps_offer o₀ mo in
        let ids : o₀.proposal_id ≡ p₀.id = cc (ko.1, kp.0) in
        λ same. old.not_self p₀ o₀ mp mo ids (cc (ko.2, kp.1));
    one_bid = λ o r ho hr e u.
        let (o₀, mo, eo) = Memᴰ.of_map g os ho in
        let (r₀, mr, er) = Memᴰ.of_map g os hr in
        let ko = st.keeps_offer o₀ mo in
        let kr = st.keeps_offer r₀ mr in
        let pids : o₀.proposal_id ≡ r₀.proposal_id = cc (ko.1, kr.1) in
        let rids : o₀.runner_id ≡ r₀.runner_id = cc (ko.2, kr.2) in
        cc (ko.0, kr.0, old.one_bid o₀ r₀ mo mr pids rids);
    agrees = λ p o hp ho e.
        let (p₀, mp, ep) = Memᴰ.of_map f ps hp in
        let (o₀, mo, eo) = Memᴰ.of_map g os ho in
        let kp = st.keeps_proposal p₀ mp in
        let ko = st.keeps_offer o₀ mo in
        let ids : o₀.proposal_id ≡ p₀.id = cc (ko.1, kp.0) in
        rw (← ep, ← eo) (st.agrees p₀ o₀ mp mo ids);
    one_engaged = λ o r ho hr e h k.
        let (o₀, mo, eo) = Memᴰ.of_map g os ho in
        let (r₀, mr, er) = Memᴰ.of_map g os hr in
        let ko = st.keeps_offer o₀ mo in
        let kr = st.keeps_offer r₀ mr in
        let pids : o₀.proposal_id ≡ r₀.proposal_id = cc (ko.1, kr.1) in
        cc (ko.0, kr.0, st.one_engaged o₀ r₀ mo mr pids (rw eo h) (rw er k));
    has_engaged = λ p hp h.
        let (p₀, mp, ep) = Memᴰ.of_map f ps hp in
        let kp = st.keeps_proposal p₀ mp in
        let (o, mo, e, t) = st.has_engaged p₀ mp (rw ep h) in
        let ko = st.keeps_offer o mo in (g o, Memᴰ.map g mo, cc (ko.1, kp.0), t);
  }
