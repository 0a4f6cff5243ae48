-- ===== src/Schemas/Errands.antt =====
-- The request bodies and queries on errands and notifications (app/schemas/proposal.py,
-- app/schemas/offer.py, app/schemas/proposal_report.py, app/schemas/dispute_evidence.py,
-- app/schemas/notification.py, and the query parameters of the routes).
use Prim.Native.String.{count}
use order_run_be.Base.{
  ℕ, Bool, true, String, List, [], ◌∷◌, Option, none, some, leb, ltb, ◌&&◌, if◌then◌else◌, Moment,
  ℤ, Result, ok, err,
}
use order_run_be.Proposals.Commands.{ProposalRequest}
use order_run_be.Inbox.{NotificationSendRequest}
use order_run_be.Schemas.Texts.{is_not_blank}

-- `ProposalRequest` as it is sent: the deadline with or without a time zone offset
pub record ProposalBody : Type 0 where
  pub title : String
  pub content : String
  pub deadline : Moment
  pub has_offset : Bool
  pub errand_fee : ℤ

-- `validate_not_blank` on a field with a `max_length`; the text is kept as it is.
abbrev pub is_filled : ℕ → String → Bool
is_filled limit value = leb (count value) limit && is_not_blank value

-- A validation error: the last part of its location, and its type
pub record FieldError : Type 0 where
  pub field : String
  pub kind : String

abbrev pub error_at : Bool → String → String → List FieldError → List FieldError
error_at valid field kind rest =
    if valid then rest else record { field = field; kind = kind } ∷ rest

-- The errors of the fields in their order
unfoldable pub proposal_errors : ProposalBody → List FieldError
unfolding is_not_blank
proposal_errors r = error_at (is_filled 50 r.title) "title" "value_error" (
    error_at (is_filled 500 r.content) "content" "value_error"
      (error_at r.has_offset "deadline" "invalid_datetime_offset" []))

abbrev pub accept_if : List FieldError → ProposalRequest → Result (List FieldError) ProposalRequest
accept_if [] r = ok r
accept_if (e ∷ es) r = err (e ∷ es)

unfoldable pub proposal_request : ProposalBody → Result (List FieldError) ProposalRequest
unfolding proposal_errors
proposal_request r = accept_if (proposal_errors r) (record {
  title = r.title;
  content = r.content;
  deadline = r.deadline;
  errand_fee = r.errand_fee;
})

-- `OfferCreate`
unfoldable pub offer_create : ℕ → Option ℕ
offer_create proposal_id = if ltb 0 proposal_id then some proposal_id else none

-- `ProposalReportCreateRequest`
pub record ReportBody : Type 0 where
  pub reason_question_id : ℕ
  pub detail_reason : Option String

abbrev pub is_detail : Option String → Bool
is_detail none = true
is_detail (some value) = is_filled 500 value

unfoldable pub report_request : ReportBody → Option ReportBody
unfolding is_not_blank
report_request r = if leb 1 r.reason_question_id && is_detail r.detail_reason then some r else none

-- `DisputeRequest`
pub record DisputeBody : Type 0 where
  pub survey_question_id : ℕ
  pub dispute_reason : String

unfoldable pub dispute_request : DisputeBody → Option DisputeBody
dispute_request r = if leb 1 r.survey_question_id then some r else none

-- `NotificationMarkReadRequest`
unfoldable pub mark_read_request : List ℕ → Option (List ℕ)
mark_read_request [] = none
mark_read_request (i ∷ is) = some (i ∷ is)

abbrev pub is_short : Option String → Bool
is_short none = true
is_short (some value) = leb (count value) 50

-- `NotificationSendRequest`
unfoldable pub send_request : NotificationSendRequest → Option NotificationSendRequest
send_request r =
    if leb 1 (count r.title)
      && (leb (count r.title) 255 && (leb 1 (count r.body) && is_short r.related_entity_type))
    then some r
    else none

-- `page: int = Query(first, ge=first)` and `size: int = Query(20, ge=1, le=100)`
abbrev pub is_page : ℕ → ℕ → ℕ → Bool
is_page lowest page size = leb lowest page && (leb 1 size && leb size 100)
