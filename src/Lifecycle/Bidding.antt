-- ===== src/Lifecycle/Bidding.antt =====
-- A second offer of a runner (`OfferService.create`, app/services/offer/offer_service.py).
use order_run_be.Base.{
  ℕ, ◌≡◌, ◌≢◌, refl, true, some, arith, ok, err, UserId, Moment, first, mem-first, Option-cases,
  inl, inr,
}
use order_run_be.Errors.{api, AppError}
use order_run_be.Models.Proposal
use order_run_be.Models.Proposal.{Proposal}
use order_run_be.Models.Offer.{Offer}
use order_run_be.Db.{Db, find_proposal}
use order_run_be.Db.Sessions.{answer-ok, find_saved_proposal}
use order_run_be.Offers.Commands.{
  create_work, create, open_proposal_statuses, is_bid_of, new_offer, show_offer,
}
use order_run_be.Offers.Queries.{OfferResponse}
use order_run_be.Consistency.Bids.{create_work-ok, create_work-mem, event_tables, opened}

bid_of_self :
    (i : ℕ) (u : UserId) (o : Offer) → o.proposal_id ≡ i → o.runner_id ≡ u → is_bid_of i u o ≡ true
bid_of_self i u o e h = ground arith

create-lem :
    (t : Moment) (i : ℕ) (u : UserId) (db : Db) (p : Proposal) (o : Offer)
    → find_proposal i db ≡ some p
    → p.orderer_id ≢ u
    → Proposal.is_in open_proposal_statuses p.status ≡ true
    → first (is_bid_of i u) db.offers.rows ≡ some o
    → create t i u db ≡ (err (api AppError.duplicate_offer), db)
unfolding create create_work
create-lem t i u db p o ep other is_open h = ground arith

-- A runner who has just made an offer on a proposal gets DUPLICATE_OFFER for another one on it,
-- and the database stays as it was.
pub create-refuses_second :
    (t t' : Moment) (i : ℕ) (u : UserId) (db db' : Db) (r : OfferResponse)
    → create t i u db ≡ (ok r, db')
    → create t' i u db' ≡ (err (api AppError.duplicate_offer), db')
unfolding create
create-refuses_second t t' i u db db' r h =
    let (k, made) = answer-ok (create_work t i u) show_offer db h in
    elim (Option-cases (find_proposal i db)) [
      | inl e ↦ absurd (unfold create_work in ground arith)
      | inr (p, ep) ↦
          let (other, _, _, written) = create_work-ok t i u db p ep made in
          let kept = (event_tables t _ _ written).0 in
          let found : find_proposal i db' ≡ some (opened p) =
            rw kept (find_saved_proposal i p (opened p) db ep refl) in
          let (old, bid) =
            mem-first (is_bid_of i u) db'.offers.rows (create_work-mem t i u db k db' made).1
              (bid_of_self i u (new_offer i u t db.offers.next) refl refl) in
          create-lem t' i u db' (opened p) old found other refl bid
    ]
