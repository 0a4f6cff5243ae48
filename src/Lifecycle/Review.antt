-- ===== src/Lifecycle/Review.antt =====
-- What the moderation of a report decides (app/services/proposal/proposal_report_service.py).
use order_run_be.Base.{
  ℕ, ◌≡◌, ◌≢◌, sym, ◌∙◌, ap, inl, inr, ◌⊎◌, true, false, some, Memᴰ, arith, ok, err, Moment,
  Bool-cases, Option-cases, first-mem, ==_iff, find_by-update, ◌==◌, ◌∷◌, change, mem-update_where,
}
use order_run_be.Errors.{api, AppError}
use order_run_be.Models.Proposal
use order_run_be.Models.Proposal.{Proposal, ProposalStatus}
use order_run_be.Models.Offer.{Offer, OfferStatus}
use order_run_be.Models.Report.{ProposalReport, ProposalReportStatus}
use order_run_be.Db.{Db, find_proposal}
use order_run_be.Db.Sessions.{find_proposal-mem, answer-ok}
use order_run_be.Consistency.{Consistent, fits}
use order_run_be.Consistency.Moderation.{accept-Consistent}
use order_run_be.Reports.{
  find_report, accept_work, accept, reject_work, reject, close_reported, save_report, show_report,
  ProposalReportResponse, reportable_proposal_statuses,
}

reviewed-refused :
    (t : Moment) (i : ℕ) (db : Db) (r : ProposalReport)
    → find_report i db ≡ some r
    → r.status ≢ ProposalReportStatus.pending
    → (accept t i db ≡ (err (api AppError.proposal_report_not_reviewable), db))
      × (reject t i db ≡ (err (api AppError.proposal_report_not_reviewable), db))
unfolding accept accept_work reject reject_work
reviewed-refused t i db r e reviewed = (ground arith, ground arith)

find_saved :
    (i : ℕ) (r v : ProposalReport) (db : Db)
    → find_report i db ≡ some r
    → v.id ≡ r.id
    → find_report i (save_report v db) ≡ some v
find_saved i r v db h e =
    let hit = (first-mem (λ (x : ProposalReport). x.id == i) db.reports.rows h).1 in
    let key : v.id ≡ i = e ∙ (==_iff r.id i).0 hit in
    rw (← key) (find_by-update (λ (x : ProposalReport). x.id) v r db.reports.rows (rw (← key) at h))

accept_work-saves :
    (t : Moment) (i : ℕ) (db : Db) (r : ProposalReport) (p : Proposal) {v : ProposalReport}
    {db' : Db}
    → find_report i db ≡ some r
    → find_proposal r.proposal_id db ≡ some p
    → accept_work t i db ≡ ok (v, db')
    → (v.id ≡ r.id)
      × (v.status ≡ ProposalReportStatus.accepted)
      × (db' ≡ save_report v (close_reported p db))
unfolding accept_work
accept_work-saves t i db r p er ep h = ground arith

reject_work-saves :
    (t : Moment) (i : ℕ) (db : Db) (r : ProposalReport) {v : ProposalReport} {db' : Db}
    → find_report i db ≡ some r
    → reject_work t i db ≡ ok (v, db')
    → (v.id ≡ r.id) × (v.status ≡ ProposalReportStatus.rejected) × (db' ≡ save_report v db)
unfolding reject_work
reject_work-saves t i db r er h = ground arith

close_reported-reports : (p : Proposal) (db : Db) → (close_reported p db).reports ≡ db.reports
close_reported-reports p db = ground arith

accept_work-reviewed :
    (t : Moment) (i : ℕ) (db : Db) (v : ProposalReport) (db' : Db)
    → accept_work t i db ≡ ok (v, db')
    → (find_report i db' ≡ some v) × (v.status ≢ ProposalReportStatus.pending)
accept_work-reviewed t i db v db' h = elim (Option-cases (find_report i db)) [
  | inl e ↦ absurd (unfold accept_work in ground arith)
  | inr (r, er) ↦ elim (Option-cases (find_proposal r.proposal_id db)) [
    | inl e ↦ absurd (unfold accept_work in ground arith)
    | inr (p, ep) ↦
        let (key, status, written) = accept_work-saves t i db r p er ep h in
        (
          rw written
              (find_saved i r v (close_reported p db) (rw (close_reported-reports p db) er) key),
          λ e. cc (status, e),
        )
  ]
]

reject_work-reviewed :
    (t : Moment) (i : ℕ) (db : Db) (v : ProposalReport) (db' : Db)
    → reject_work t i db ≡ ok (v, db')
    → (find_report i db' ≡ some v) × (v.status ≢ ProposalReportStatus.pending)
reject_work-reviewed t i db v db' h = elim (Option-cases (find_report i db)) [
  | inl e ↦ absurd (unfold reject_work in ground arith)
  | inr (r, er) ↦
      let (key, status, written) = reject_work-saves t i db r er h in
      (rw written (find_saved i r v db er key), λ e. cc (status, e))
]

-- Once a report was accepted or rejected it can be neither accepted nor rejected: both raise
-- PROPOSAL_REPORT_NOT_REVIEWABLE and leave the database as it was.
pub review-once :
    (t t' : Moment) (i : ℕ) (db db' : Db) (a : ProposalReportResponse)
    → (accept t i db ≡ (ok a, db')) ⊎ (reject t i db ≡ (ok a, db'))
    → (accept t' i db' ≡ (err (api AppError.proposal_report_not_reviewable), db'))
      × (reject t' i db' ≡ (err (api AppError.proposal_report_not_reviewable), db'))
unfolding accept reject
review-once t t' i db db' a (inl h) =
    let (v, done) = answer-ok (accept_work t i) show_report db h in
    let (found, reviewed) = accept_work-reviewed t i db v db' done in
    reviewed-refused t' i db' v found reviewed
review-once t t' i db db' a (inr h) =
    let (v, done) = answer-ok (reject_work t i) show_report db h in
    let (found, reviewed) = reject_work-reviewed t i db v db' done in
    reviewed-refused t' i db' v found reviewed

accept-lem :
    (t : Moment) (i : ℕ) (db : Db) (r : ProposalReport) (p : Proposal)
    → find_report i db ≡ some r
    → find_proposal r.proposal_id db ≡ some p
    → r.status ≡ ProposalReportStatus.pending
    → Proposal.is_in (ProposalStatus.reported ∷ reportable_proposal_statuses) p.status ≡ true
    → ((accept t i db).1.proposals.rows ≡ (close_reported p db).proposals.rows)
      × ((accept t i db).1.offers.rows ≡ (close_reported p db).offers.rows)
unfolding accept accept_work
accept-lem t i db r p er ep pending allowed = (ground arith, ground arith)

already_reported :
    (s : ProposalStatus)
    → Proposal.is_in (ProposalStatus.reported ∷ reportable_proposal_statuses) s ≡ true
    → Proposal.is_in reportable_proposal_statuses s ≡ false
    → s ≡ ProposalStatus.reported
already_reported s h k = ground arith

reported_row :
    (p q : Proposal) {q' : Proposal}
    → q' ≡ change (λ x. x.id == p.id) (λ _. record p { status = ProposalStatus.reported }) q
    → q'.id ≡ p.id
    → q'.status ≡ ProposalStatus.reported
reported_row p q same e = ground arith

-- The proposal is then reported,
close_reported-status :
    (i : ℕ) (db : Db) (p q : Proposal)
    → Consistent db
    → find_proposal i db ≡ some p
    → Proposal.is_in (ProposalStatus.reported ∷ reportable_proposal_statuses) p.status ≡ true
    → Memᴰ q (close_reported p db).proposals.rows
    → q.id ≡ p.id
    → q.status ≡ ProposalStatus.reported
close_reported-status i db p q c ep allowed m e =
    elim (Bool-cases (Proposal.is_in reportable_proposal_statuses p.status)) [
      | inl public ↦
          let (q₀, m₀, e₀) =
            mem-update_where (λ (x : Proposal). x.id == p.id)
              (λ _. record p { status = ProposalStatus.reported }) db.proposals.rows
              (rw public at m) in
          reported_row p q₀ e₀ e
      | inr fixed ↦
          let same : q ≡ p = c.proposal_key q p (rw fixed at m) (find_proposal-mem i db ep).0 e in
          ap (λ (x : Proposal). x.status) same ∙ already_reported p.status allowed fixed
    ]

reported-fits :
    (s : OfferStatus)
    → fits ProposalStatus.reported s ≡ true
    → s ≡ OfferStatus.rejected ⊎ s ≡ OfferStatus.cancelled
reported-fits s h = ground arith

-- In a Consistent database, after the acceptance of a pending report on a stored proposal that is
-- posted, offered or already reported, the proposal is reported and each of its offers is rejected
-- or cancelled.
pub accept-closes :
    (t : Moment) (i : ℕ) (db : Db) (r : ProposalReport) (p : Proposal)
    → Consistent db
    → find_report i db ≡ some r
    → find_proposal r.proposal_id db ≡ some p
    → r.status ≡ ProposalReportStatus.pending
    → Proposal.is_in (ProposalStatus.reported ∷ reportable_proposal_statuses) p.status ≡ true
    → (q : Proposal) → Memᴰ q (accept t i db).1.proposals.rows
    → q.id ≡ p.id
    → (q.status ≡ ProposalStatus.reported)
      × ((o : Offer)
          → Memᴰ o (accept t i db).1.offers.rows
          → o.proposal_id ≡ p.id
          → o.status ≡ OfferStatus.rejected ⊎ o.status ≡ OfferStatus.cancelled)
accept-closes t i db r p c er ep pending allowed q mq e =
    let (tp, to) = accept-lem t i db r p er ep pending allowed in
    let reported = close_reported-status r.proposal_id db p q c ep allowed (rw tp at mq) e in
    let after = accept-Consistent t i db c in
    (
      reported,
      λ o mo of_p. reported-fits o.status (rw reported at (after.agrees q o mq mo (of_p ∙ sym e))),
    )
