-- ===== src/Consistency/Moderation.antt =====
-- The commands on reports and the invariant (app/services/proposal/proposal_report_service.py).
use order_run_be.Base.{
  ℕ, String, ◌≡◌, refl, inl, inr, true, false, some, arith, ok, UserId, Moment, Option,
  Option-cases, Bool-cases,
}
use order_run_be.Models.Proposal
use order_run_be.Models.Proposal.{Proposal, ProposalStatus}
use order_run_be.Models.Report.{ProposalReport}
use order_run_be.Db.{Db, find_proposal}
use order_run_be.Db.Sessions.{find_proposal-mem, request-keeps}
use order_run_be.Reports.{
  reportable_proposal_statuses, find_report, create_work, create, close_reported, accept_work,
  accept, reject_work, reject,
}
use order_run_be.Consistency.{Consistent, is_matched}
use order_run_be.Consistency.Closing.{closing-IsConsistent}

-- What the work of a session leaves alone.
record SameOffers (db db' : Db) : Type 0 where
  proposals : db'.proposals ≡ db.proposals
  offers : db'.offers ≡ db.offers

SameOffers-Consistent : (db db' : Db) → SameOffers db db' → Consistent db → Consistent db'
SameOffers-Consistent db db' same c = rw (same.proposals, same.offers) c

create_work-ok :
    (t : Moment) (i : ℕ) (u : UserId) (k : ℕ) (d : Option String) (db : Db)
    {v : ProposalReport × String} {db' : Db}
    → create_work t i u k d db ≡ ok (v, db')
    → SameOffers db db'
unfolding create_work
create_work-ok t i u k d db h = record { proposals = ground arith; offers = ground arith }

pub create-Consistent :
    (t : Moment) (i : ℕ) (u : UserId) (k : ℕ) (d : Option String) (db : Db)
    → Consistent db
    → Consistent (create t i u k d db).1
unfolding create
create-Consistent t i u k d db c =
    request-keeps Consistent (create_work t i u k d) _ db c
      (λ v db' h. SameOffers-Consistent db db' (create_work-ok t i u k d db h) c)

reportable_unmatched :
    (s : ProposalStatus)
    → Proposal.is_in reportable_proposal_statuses s ≡ true
    → is_matched s ≡ false
reportable_unmatched s h = ground arith

close_reported-Consistent :
    (i : ℕ) (db : Db) (p : Proposal)
    → find_proposal i db ≡ some p
    → Consistent db
    → Consistent (close_reported p db)
close_reported-Consistent i db p e c =
    elim (Bool-cases (Proposal.is_in reportable_proposal_statuses p.status)) [
      | inl public ↦ rw public (
          closing-IsConsistent c p (record p { status = ProposalStatus.reported })
            (find_proposal-mem i db e).0 (refl, refl) (reportable_unmatched p.status public) refl
            refl)
      | inr fixed ↦ rw fixed c
    ]

accept_work-ok :
    (t : Moment) (i : ℕ) (db : Db) (r : ProposalReport) (p : Proposal) {v : ProposalReport}
    {db' : Db}
    → find_report i db ≡ some r
    → find_proposal r.proposal_id db ≡ some p
    → accept_work t i db ≡ ok (v, db')
    → SameOffers (close_reported p db) db'
unfolding accept_work
accept_work-ok t i db r p er ep h = record { proposals = ground arith; offers = ground arith }

accept_work-Consistent :
    (t : Moment) (i : ℕ) (db : Db)
    → Consistent db
    → (v : ProposalReport) (db' : Db) → accept_work t i db ≡ ok (v, db')
    → Consistent db'
accept_work-Consistent t i db c v db' h = elim (Option-cases (find_report i db)) [
  | inl e ↦ absurd (unfold accept_work in ground arith)
  | inr (r, er) ↦ elim (Option-cases (find_proposal r.proposal_id db)) [
    | inl e ↦ absurd (unfold accept_work in ground arith)
    | inr (p, ep) ↦
        SameOffers-Consistent (close_reported p db) db' (accept_work-ok t i db r p er ep h)
          (close_reported-Consistent r.proposal_id db p ep c)
  ]
]

pub accept-Consistent :
    (t : Moment) (i : ℕ) (db : Db) → Consistent db → Consistent (accept t i db).1
unfolding accept
accept-Consistent t i db c =
    request-keeps Consistent (accept_work t i) _ db c (accept_work-Consistent t i db c)

reject_work-ok :
    (t : Moment) (i : ℕ) (db : Db) {v : ProposalReport} {db' : Db}
    → reject_work t i db ≡ ok (v, db')
    → SameOffers db db'
unfolding reject_work
reject_work-ok t i db h = record { proposals = ground arith; offers = ground arith }

pub reject-Consistent :
    (t : Moment) (i : ℕ) (db : Db) → Consistent db → Consistent (reject t i db).1
unfolding reject
reject-Consistent t i db c =
    request-keeps Consistent (reject_work t i) _ db c
      (λ v db' h. SameOffers-Consistent db db' (reject_work-ok t i db h) c)
