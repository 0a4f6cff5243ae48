-- ===== src/Scenarios/Views.antt =====
-- The theorems on events, searches and pages at work on the small world.
use order_run_be.Base.{◌*◌, ◌+◌, ◌<◌, ℕ, List, [], ◌∷◌, ◌≡◌, refl, some, ◌⊎◌, true, Memᴰ, arith}
use order_run_be.Models.Proposal.{ProposalStatus}
use order_run_be.Models.Offer.{Offer, OfferStatus}
use order_run_be.Db.{Db}
use order_run_be.Lifecycle.Acceptance.{matched_at}
use order_run_be.Scenarios.{start, errand, bid}
use order_run_be.Scenarios.Tests.{offered, bidding_rows}
use order_run_be.Lifecycle.Visibility
use order_run_be.Models.Offer
use order_run_be.Proposals.Queries.{
  detail_of, search_proposals, public_matches, open_chat_offer_statuses,
}
use order_run_be.Pages.{total_pages, of}
use order_run_be.Pages.Cover
use order_run_be.Pages.Cover.{pages}
use order_run_be.Events.Bus.{Parties, offer_created}
use order_run_be.Events.Listener.{publish_event, register_all, no_handlers}
use order_run_be.Events.Dispatch
use order_run_be.Events.Dispatch.{dispatch, OnlyNotifies}
use order_run_be.Events.Recipients
use order_run_be.Events.Recipients.{Notifies}

abbrev event : Parties
event = record {
  offer_id = 1;
  proposal_id = 1;
  runner_id = 8;
  orderer_id = 7;
  proposal_title = "coffee";
}

searched : Memᴰ errand (search_proposals [] 0 10 offered).content
unfolding search_proposals public_matches of
searched = rw bidding_rows.0 (Memᴰ.head refl)

publish_event-Notifies_example : Notifies start (publish_event 5 (offer_created event) start)
publish_event-Notifies_example = Recipients.publish_event-Notifies 5 (offer_created event) start

publish_event-OnlyNotifies_example :
    OnlyNotifies start (publish_event 5 (offer_created event) start)
publish_event-OnlyNotifies_example =
    Dispatch.publish_event-OnlyNotifies 5 (offer_created event) start

publish_event-dispatch_example :
    publish_event 5 (offer_created event) start ≡ dispatch 5 (offer_created event) start
publish_event-dispatch_example = Dispatch.publish_event-dispatch 5 (offer_created event) start

register_all_idem_example : register_all (register_all no_handlers) 1 ≡ register_all no_handlers 1
register_all_idem_example = Dispatch.register_all_idem no_handlers 1

-- The matched errand with a chat link
abbrev chatting : Db
chatting = record start {
  offers = record {
    rows = record (bid 1 8 21) { status = OfferStatus.accepted; open_chat_url = some "chat" } ∷ [];
    next = 2;
  };
}

detail_of-chat_example :
    (o : Offer) × Memᴰ o chatting.offers.rows
    × (o.proposal_id ≡ 1)
    × (Offer.is_in open_chat_offer_statuses o.status ≡ true)
    × (o.open_chat_url ≡ some "chat")
    × ((bid 1 8 21).runner_id ≡ errand.orderer_id ⊎ (bid 1 8 21).runner_id ≡ o.runner_id)
unfolding detail_of
detail_of-chat_example = Visibility.detail_of-chat (matched_at 30 errand) 8 chatting "chat" refl

search_proposals-public_example :
    Memᴰ errand offered.proposals.rows
    × (errand.status ≡ ProposalStatus.posted ⊎ errand.status ≡ ProposalStatus.offered)
search_proposals-public_example = Visibility.search_proposals-public [] 0 10 offered errand searched

abbrev three : List ℕ
three = 5 ∷ 6 ∷ 7 ∷ []

pages-all_example : (pages 2 (total_pages 3 2) three ≡ three) × (total_pages 3 2 * 2 < 3 + 2)
pages-all_example = Cover.pages-all 2 three (omega arith)
