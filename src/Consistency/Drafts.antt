-- ===== src/Consistency/Drafts.antt =====
-- The commands on a proposal before its match and the invariant
-- (app/services/proposal/proposal_service.py).
use order_run_be.Base.{
  ℕ, ◌≡◌, refl, inl, inr, true, false, some, none, arith, ok, err, UserId, Moment, Option-cases,
  Bool-cases, Result-cases, Result, ◌==◌, ◌&&◌, not, first, ap, map, change, Option,
}
use order_run_be.Errors.{Error}
use order_run_be.Models.User.{User}
use order_run_be.Models.Proposal
use order_run_be.Models.Proposal.{Proposal, ProposalStatus, update_proposal, create_proposal}
use order_run_be.Db.{Db, find_proposal}
use order_run_be.Db.Sessions.{find_proposal-mem}
use order_run_be.Proposals.Commands.{
  ProposalRequest, editable_statuses, cancellable_statuses, create, update, cancel, confirm_payment,
}
use order_run_be.Consistency.{Consistent, is_matched}
use order_run_be.Consistency.Opening.{is_draft, draft-IsConsistent, add_proposal-IsConsistent}
use order_run_be.Consistency.Closing.{closing-IsConsistent}

holding_draft :
    (s : ProposalStatus) → Proposal.is s ProposalStatus.holding ≡ true → is_draft s ≡ true
holding_draft s h = ground arith

editable_draft :
    (s : ProposalStatus) → Proposal.is_in editable_statuses s ≡ true → is_draft s ≡ true
editable_draft s h = ground arith

cancellable_unmatched :
    (s : ProposalStatus) → Proposal.is_in cancellable_statuses s ≡ true → is_matched s ≡ false
cancellable_unmatched s h = ground arith

cancellable_draft :
    (s : ProposalStatus)
    → Proposal.is_in cancellable_statuses s ≡ true
    → Proposal.is s ProposalStatus.offered ≡ false
    → is_draft s ≡ true
cancellable_draft s h k = ground arith

pub confirm_payment-Consistent :
    (i : ℕ) (db : Db) → Consistent db → Consistent (confirm_payment i db).1
unfolding confirm_payment
confirm_payment-Consistent i db c = elim (Option-cases (find_proposal i db)) [
  | inl e ↦ rw e c
  | inr (p, e) ↦ elim (Bool-cases (Proposal.is p.status ProposalStatus.holding)) [
    | inl h ↦
        rw (e, h)
          (draft-IsConsistent c p (record p { status = ProposalStatus.posted })
            (find_proposal-mem i db e).0 (refl, refl) refl (holding_draft p.status h))
    | inr h ↦ rw (e, h) c
  ]
]

-- What a successful edit keeps.
update_proposal_keeps :
    (now : Moment) (r : ProposalRequest) (p : Proposal) {p' : Proposal}
    → update_proposal now r.title r.content r.deadline r.errand_fee p ≡ ok p'
    → (p'.id ≡ p.id) × (p'.orderer_id ≡ p.orderer_id) × (p'.status ≡ ProposalStatus.holding)
unfolding update_proposal
update_proposal_keeps now r p h = ground arith

pub update-Consistent :
    (now : Moment) (i : ℕ) (r : ProposalRequest) (u : UserId) (db : Db)
    → Consistent db
    → Consistent (update now i r u db).1
unfolding update
update-Consistent now i r u db c = elim (Option-cases (find_proposal i db)) [
  | inl e ↦ rw e c
  | inr (p, e) ↦ elim (Bool-cases (p.orderer_id == u)) [
    | inr stranger ↦ rw (e, stranger) c
    | inl owner ↦ elim (Bool-cases (Proposal.is_in editable_statuses p.status)) [
      | inr fixed ↦ rw (e, owner, fixed) c
      | inl editable ↦
          elim (Result-cases (update_proposal now r.title r.content r.deadline r.errand_fee p)) [
            | inr (x, bad) ↦ rw (e, owner, editable, bad) c
            | inl (p', good) ↦
                let (key, owner_same, draft) = update_proposal_keeps now r p good in
                let rows =
                  ap
                    (λ (k : ℕ).
                      map (change (λ (q : Proposal). q.id == k) (λ _. p')) db.proposals.rows)
                    key in
                rw (e, owner, editable, good, rows)
                  (draft-IsConsistent c p p' (find_proposal-mem i db e).0 (key, owner_same)
                    (rw draft) (editable_draft p.status editable))
          ]
    ]
  ]
]

pub cancel-Consistent :
    (i : ℕ) (u : UserId) (db : Db) → Consistent db → Consistent (cancel i u db).1
unfolding cancel
cancel-Consistent i u db c = elim (Option-cases (find_proposal i db)) [
  | inl e ↦ rw e c
  | inr (p, e) ↦ elim (Bool-cases (p.orderer_id == u)) [
    | inr stranger ↦ rw (e, stranger) c
    | inl owner ↦ elim (Bool-cases (Proposal.is_in cancellable_statuses p.status)) [
      | inr fixed ↦ rw (e, owner, fixed) c
      | inl allowed ↦
          let p' : Proposal = record p { status = ProposalStatus.cancelled } in
          let found = (find_proposal-mem i db e).0 in
          elim (Bool-cases (Proposal.is p.status ProposalStatus.offered)) [
            | inl offered ↦
                rw (e, owner, allowed, offered)
                  (closing-IsConsistent c p p' found (refl, refl)
                    (cancellable_unmatched p.status allowed) refl refl)
            | inr draft ↦
                rw (e, owner, allowed, draft)
                  (draft-IsConsistent c p p' found (refl, refl) refl
                    (cancellable_draft p.status allowed draft))
          ]
    ]
  ]
]

abbrev row_of : ℕ → Moment → Result Error (ℕ → Moment → Proposal) → Option Proposal
row_of i t (ok make) = some (make i t)
row_of i t (err e) = none

-- What a new proposal is.
create_proposal_lem :
    (now : Moment) (u : UserId) (r : ProposalRequest) {make : ℕ → Moment → Proposal} (i : ℕ)
    (t : Moment)
    → create_proposal now u r.title r.content r.deadline r.errand_fee ≡ ok make
    → ((make i t).id ≡ i) × ((make i t).status ≡ ProposalStatus.holding)
unfolding create_proposal
create_proposal_lem now u r i t h = ground (arith, ap (row_of i t) h)

pub create-Consistent :
    (now flushed : Moment) (r : ProposalRequest) (u : UserId) (db : Db)
    → Consistent db
    → Consistent (create now flushed r u db).1
unfolding create
create-Consistent now flushed r u db c =
    elim (Option-cases (first (λ (x : User). x.id == u && not x.deleted) db.users)) [
      | inl e ↦ rw e c
      | inr (who, e) ↦
          elim (Result-cases (create_proposal now u r.title r.content r.deadline r.errand_fee)) [
            | inr (x, bad) ↦ rw (e, bad) c
            | inl (make, good) ↦
                let (key, status) = create_proposal_lem now u r db.proposals.next flushed good in
                rw (e, good)
                  (add_proposal-IsConsistent c (make db.proposals.next flushed) key (rw status))
          ]
    ]
