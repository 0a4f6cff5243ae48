-- ===== src/Models/Offer.antt =====
-- The offer row and the methods of its class (app/models/offer.py). A method that may raise
-- returns the changed row or the error. `now` is what the method's `utcnow_naive()` returns.
use order_run_be.Base.{
  ℕ, String, Bool, false, Option, some, List, [], ◌∷◌, ok, Result, raise_if, ◌>>◌, not, ◌==◌, ◌||◌,
  UserId, Moment,
}
use order_run_be.Errors.{Error, value_error}

-- `OfferStatus`
pub data OfferStatus : Type 0 where
  waiting accepted runner_completed all_completed disputed resolved rejected cancelled : OfferStatus

-- The position of a member in the enumeration, and its `==`.
abbrev pub rank : OfferStatus → ℕ
rank waiting = 0
rank accepted = 1
rank runner_completed = 2
rank all_completed = 3
rank disputed = 4
rank resolved = 5
rank rejected = 6
rank cancelled = 7

abbrev pub is : OfferStatus → OfferStatus → Bool
is a b = rank a == rank b

-- `status in statuses`
abbrev pub is_in : List OfferStatus → OfferStatus → Bool
is_in [] s = false
is_in (t ∷ ts) s = is s t || is_in ts s

-- The columns of `class Offer`
pub record Offer : Type 0 where
  pub id : ℕ
  pub proposal_id : ℕ
  pub runner_id : UserId
  pub status : OfferStatus
  pub open_chat_url : Option String
  pub created_at : Moment
  pub accepted_at : Option Moment
  pub runner_confirmed_at : Option Moment
  pub orderer_confirmed_at : Option Moment
  pub disputed_at : Option Moment
  pub resolved_at : Option Moment

unfoldable pub can_accept : Offer → Bool
can_accept o = is o.status waiting

unfoldable pub can_cancel : Offer → Bool
can_cancel o = is o.status waiting

unfoldable pub accept : Moment → Offer → Result Error Offer
unfolding can_accept
accept now o = do
  raise_if (not (can_accept o)) value_error
  ok (record o { status = accepted; accepted_at = some now })

unfoldable pub can_confirm_runner_completion : Offer → Bool
can_confirm_runner_completion o = is o.status accepted

unfoldable pub confirm_runner_completion : Moment → Offer → Result Error Offer
unfolding can_confirm_runner_completion
confirm_runner_completion now o = do
  raise_if (not (can_confirm_runner_completion o)) value_error
  ok (record o { status = runner_completed; runner_confirmed_at = some now })

unfoldable pub can_confirm_orderer_completion : Offer → Bool
can_confirm_orderer_completion o = is_in (accepted ∷ runner_completed ∷ []) o.status

unfoldable pub confirm_orderer_completion : Moment → Offer → Result Error Offer
unfolding can_confirm_orderer_completion
confirm_orderer_completion now o = do
  raise_if (not (can_confirm_orderer_completion o)) value_error
  ok (record o { orderer_confirmed_at = some now })

unfoldable pub mark_all_completed : Offer → Result Error Offer
mark_all_completed o = do
  raise_if (not (is_in (runner_completed ∷ accepted ∷ []) o.status)) value_error
  ok (record o { status = all_completed })

unfoldable pub can_raise_dispute : Offer → Bool
can_raise_dispute o = is_in (accepted ∷ runner_completed ∷ []) o.status

unfoldable pub raise_dispute : Moment → Offer → Result Error Offer
unfolding can_raise_dispute
raise_dispute now o = do
  raise_if (not (can_raise_dispute o)) value_error
  ok (record o { status = disputed; disputed_at = some now })

unfoldable pub can_resolve : Offer → Bool
can_resolve o = is o.status disputed

unfoldable pub resolve : Moment → Offer → Result Error Offer
unfolding can_resolve
resolve now o = do
  raise_if (not (can_resolve o)) value_error
  ok (record o { status = resolved; resolved_at = some now })

unfoldable pub reject : Offer → Result Error Offer
reject o = do raise_if (not (is o.status waiting)) value_error; ok (record o { status = rejected })

unfoldable pub cancel : Offer → Result Error Offer
unfolding can_cancel
cancel o = do raise_if (not (can_cancel o)) value_error; ok (record o { status = cancelled })
