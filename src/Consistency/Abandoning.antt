-- ===== src/Consistency/Abandoning.antt =====
-- The loop that cancels the open proposals of a user who withdraws
-- (app/services/user_auth/user_withdrawal_service.py).
use order_run_be.Base.{
  ℕ, ◌≡◌, refl, sym, ◌∙◌, ap, inl, inr, ◌⊎◌, true, false, List, [], ◌∷◌, map, Memᴰ, arith, ok,
  Result-cases, Bool-cases, ◌==◌, ==_iff,
}
use mathlib.Core.List.Memᴰ
use mathlib.Core.Path.{subst}
use order_run_be.Models.Proposal
use order_run_be.Models.Proposal.{Proposal, ProposalStatus}
use order_run_be.Models.Offer
use order_run_be.Models.Offer.{Offer, OfferStatus}
use order_run_be.Db.{Db, save_proposal}
use order_run_be.Withdrawal.{cancel_proposals, auto_cancel_proposal_statuses}
use order_run_be.Consistency.{Consistent, IsConsistent, fits}
use order_run_be.Consistency.Rows.{put_proposal}
use order_run_be.Consistency.Opening.{status-IsConsistent}

abbrev cancelled_proposal : Proposal → Proposal
cancelled_proposal p = record p { status = ProposalStatus.cancelled }

abbrev pub HeldProposal : Proposal → List Proposal → Type 0
HeldProposal p ps = Memᴰ p ps ⊎ Memᴰ (cancelled_proposal p) ps

cancel_lem :
    (p : Proposal) {p' : Proposal}
    → Proposal.cancel p ≡ ok p'
    → (Proposal.is_in auto_cancel_proposal_statuses p.status ≡ true) × (p' ≡ cancelled_proposal p)
unfolding Proposal.cancel
cancel_lem p h = ground arith

follows :
    (s : ProposalStatus) (u : OfferStatus)
    → Proposal.is_in auto_cancel_proposal_statuses s ≡ true
    → Offer.is u OfferStatus.waiting ≡ false
    → fits s u ≡ true
    → fits ProposalStatus.cancelled u ≡ true
follows s u h k f = ground arith

abbrev cancel_row : Proposal → Proposal → Proposal
cancel_row p = put_proposal p (cancelled_proposal p)

-- No offer on the proposal waits.
abbrev pub NoneWaits : Proposal → List Offer → Type 0
NoneWaits p os =
    (r : Offer) → Memᴰ r os → r.proposal_id ≡ p.id → Offer.is r.status OfferStatus.waiting ≡ false

module _ {ps : List Proposal} {os : List Offer} {n m : ℕ} (old : IsConsistent ps os n m)
    (p : Proposal) (open_p : Proposal.is_in auto_cancel_proposal_statuses p.status ≡ true)
    (none_waits : NoneWaits p os) (stored : HeldProposal p ps) where
  cancel-IsConsistent : IsConsistent (map (cancel_row p) ps) os n m
  cancel-IsConsistent = elim stored [
    | inl hp ↦
        status-IsConsistent old p (cancelled_proposal p) hp (refl, refl) refl
          (λ r mr e f. follows p.status r.status open_p (none_waits r mr e) f)
    | inr hc ↦
        status-IsConsistent old (cancelled_proposal p) (cancelled_proposal p) hc (refl, refl) refl
          (λ r mr e f. f)
  ]

  cancel-Held : (q : Proposal) → HeldProposal q ps → HeldProposal q (map (cancel_row p) ps)
  cancel-Held q (inl mq) = elim (Bool-cases (q.id == p.id)) [
    | inr ne ↦ inl (Memᴰ.cast (sym (rw ne)) (Memᴰ.map (cancel_row p) mq))
    | inl e ↦
        let moved : cancel_row p q ≡ cancelled_proposal p = rw e in
        elim stored [
          | inl hp ↦
              let same : q ≡ p = old.proposal_key q p mq hp ((==_iff _ _).0 e) in
              inr (Memᴰ.cast (ap cancelled_proposal same ∙ sym moved) (Memᴰ.map (cancel_row p) mq))
          | inr hc ↦
              let same : q ≡ cancelled_proposal p =
                old.proposal_key q (cancelled_proposal p) mq hc ((==_iff _ _).0 e) in
              inl (Memᴰ.cast (same ∙ sym moved) (Memᴰ.map (cancel_row p) mq))
        ]
  ]
  cancel-Held q (inr mq) = elim (Bool-cases (q.id == p.id)) [
    | inr ne ↦ inr (Memᴰ.cast (sym (rw ne)) (Memᴰ.map (cancel_row p) mq))
    | inl e ↦
        let moved : cancel_row p (cancelled_proposal q) ≡ cancelled_proposal p = rw e in
        elim stored [
          | inl hp ↦
              let same : cancelled_proposal q ≡ p =
                old.proposal_key (cancelled_proposal q) p mq hp ((==_iff _ _).0 e) in
              inr (Memᴰ.cast (ap cancelled_proposal same ∙ sym moved) (Memᴰ.map (cancel_row p) mq))
          | inr hc ↦
              let same : cancelled_proposal q ≡ cancelled_proposal p =
                old.proposal_key (cancelled_proposal q) (cancelled_proposal p) mq hc
                  ((==_iff _ _).0 e) in
              inr (Memᴰ.cast (same ∙ sym moved) (Memᴰ.map (cancel_row p) mq))
        ]
  ]

pub cancel_proposals-Consistent :
    (rows : List Proposal) (db : Db)
    → Consistent db
    → ((p : Proposal) → Memᴰ p rows → HeldProposal p db.proposals.rows)
    → ((p : Proposal) → Memᴰ p rows → NoneWaits p db.offers.rows)
    → (v : Unit {0}) (db' : Db) → cancel_proposals rows db ≡ ok (v, db')
    → Consistent db' × (db'.offers ≡ db.offers)
cancel_proposals-Consistent [] db c stored none_waits v db' h =
    let same : db ≡ db' = ground arith in
    (subst (λ d. Consistent d) same c, ap (λ (d : Db). d.offers) (sym same))
cancel_proposals-Consistent (p ∷ rows) db c stored none_waits v db' h =
    elim (Result-cases (Proposal.cancel p)) [
      | inr (e, bad) ↦ absurd (cc (rw bad at h))
      | inl (p', good) ↦
          let (open_p, made) = cancel_lem p good in
          let idle = none_waits p (Memᴰ.head refl) in
          let now = stored p (Memᴰ.head refl) in
          let rest : cancel_proposals rows (save_proposal (cancelled_proposal p) db) ≡ ok (v, db') =
            rw (good, made) at h in
          cancel_proposals-Consistent rows (save_proposal (cancelled_proposal p) db)
            (cancel-IsConsistent c p open_p idle now)
            (λ q mq. cancel-Held c p open_p idle now q (stored q (Memᴰ.tail mq)))
            (λ q mq. none_waits q (Memᴰ.tail mq)) v db' rest
    ]
