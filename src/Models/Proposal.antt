-- ===== src/Models/Proposal.antt =====
-- The proposal row and the methods of its class (app/models/proposal.py). A method that may raise
-- returns the changed row or the error. `now` is what the method's `utcnow_naive()` returns.
use order_run_be.Base.{
  ℕ, List, [], ◌∷◌, String, Bool, false, Option, none, some, ok, Result, raise_if, ◌>>=◌, ◌>>◌, leb,
  not, if◌then◌else◌, ◌==◌, ltb_ℤ, ℤ, UserId, Moment, ◌||◌,
}
use order_run_be.Errors.{Error, api, value_error, AppError}

-- `ProposalStatus`
pub data ProposalStatus : Type 0 where
  holding posted offered matched order_completed all_completed disputed resolved reported
        cancelled :
      ProposalStatus

-- The position of a member in the enumeration, and its `==`.
abbrev pub rank : ProposalStatus → ℕ
rank holding = 0
rank posted = 1
rank offered = 2
rank matched = 3
rank order_completed = 4
rank all_completed = 5
rank disputed = 6
rank resolved = 7
rank reported = 8
rank cancelled = 9

abbrev pub is : ProposalStatus → ProposalStatus → Bool
is a b = rank a == rank b

-- `status in statuses`
abbrev pub is_in : List ProposalStatus → ProposalStatus → Bool
is_in [] s = false
is_in (t ∷ ts) s = is s t || is_in ts s

-- The columns of `class Proposal`
pub record Proposal : Type 0 where
  pub id : ℕ
  pub orderer_id : UserId
  pub title : String
  pub content : String
  pub deadline : Moment
  pub errand_fee : ℤ
  pub status : ProposalStatus
  pub meeting_at : Moment
  pub item_price : ℕ
  pub deposit : ℕ
  pub created_at : Moment
  pub matched_at : Option Moment
  pub runner_confirmed_at : Option Moment
  pub orderer_confirmed_at : Option Moment
  pub disputed_at : Option Moment
  pub resolved_at : Option Moment

unfoldable pub can_receive_offers : Proposal → Bool
can_receive_offers p = is_in (posted ∷ offered ∷ []) p.status

unfoldable pub mark_as_offered : Proposal → Proposal
mark_as_offered p = if is p.status posted then record p { status = offered } else p

unfoldable pub can_confirm_runner_completion : Proposal → Bool
can_confirm_runner_completion p = is_in (matched ∷ order_completed ∷ []) p.status

unfoldable pub confirm_runner_completion : Moment → Proposal → Result Error Proposal
unfolding can_confirm_runner_completion
confirm_runner_completion now p = do
  raise_if (not (can_confirm_runner_completion p)) value_error
  ok (record p { runner_confirmed_at = some now })

unfoldable pub can_confirm_orderer_completion : Proposal → Bool
can_confirm_orderer_completion p = is p.status matched

unfoldable pub confirm_orderer_completion : Moment → Proposal → Result Error Proposal
unfolding can_confirm_orderer_completion
confirm_orderer_completion now p = do
  raise_if (not (can_confirm_orderer_completion p)) value_error
  ok (record p { status = order_completed; orderer_confirmed_at = some now })

unfoldable pub mark_all_completed : Proposal → Result Error Proposal
mark_all_completed p = do
  raise_if (not (is_in (order_completed ∷ matched ∷ []) p.status)) value_error
  ok (record p { status = all_completed })

unfoldable pub can_raise_dispute : Proposal → Bool
can_raise_dispute p = is_in (matched ∷ order_completed ∷ []) p.status

unfoldable pub raise_dispute : Moment → Proposal → Result Error Proposal
unfolding can_raise_dispute
raise_dispute now p = do
  raise_if (not (can_raise_dispute p)) value_error
  ok (record p { status = disputed; disputed_at = some now })

unfoldable pub can_resolve : Proposal → Bool
can_resolve p = is p.status disputed

unfoldable pub resolve : Moment → Proposal → Result Error Proposal
unfolding can_resolve
resolve now p = do
  raise_if (not (can_resolve p)) value_error
  ok (record p { status = resolved; resolved_at = some now })

unfoldable pub cancel : Proposal → Result Error Proposal
cancel p = do
  raise_if (not (is_in (holding ∷ posted ∷ offered ∷ []) p.status)) value_error
  ok (record p { status = cancelled })

-- `_validate_deadline`, on moments: the conversion to UTC keeps the moment.
unfoldable pub validate_deadline : Moment → Moment → Result Error Moment
validate_deadline now deadline = do
  raise_if (leb deadline now) (api AppError.proposal_deadline_invalid)
  ok deadline

unfoldable pub validate_errand_fee : ℤ → Result Error (Unit {0})
validate_errand_fee fee = raise_if (ltb_ℤ fee 1000) (api AppError.proposal_errand_fee_invalid)

-- `create_proposal`; the insert gives the id and the `created_at`.
unfoldable pub create_proposal :
    Moment → UserId → String → String → Moment → ℤ → Result Error (ℕ → Moment → Proposal)
unfolding validate_deadline validate_errand_fee
create_proposal now orderer_id title content deadline errand_fee = do
  validated_deadline ← validate_deadline now deadline
  validate_errand_fee errand_fee
  ok (λ id created_at. record {
    id = id;
    orderer_id = orderer_id;
    title = title;
    content = content;
    deadline = validated_deadline;
    errand_fee = errand_fee;
    status = holding;
    meeting_at = validated_deadline;
    item_price = 0;
    deposit = 0;
    created_at = created_at;
    matched_at = none;
    runner_confirmed_at = none;
    orderer_confirmed_at = none;
    disputed_at = none;
    resolved_at = none;
  })

unfoldable pub update_proposal :
    Moment → String → String → Moment → ℤ → Proposal → Result Error Proposal
unfolding validate_deadline validate_errand_fee
update_proposal now title content deadline errand_fee p = do
  validated_deadline ← validate_deadline now deadline
  validate_errand_fee errand_fee
  ok (record p {
    title = title;
    content = content;
    deadline = validated_deadline;
    errand_fee = errand_fee;
    meeting_at = validated_deadline;
    status = holding;
  })
