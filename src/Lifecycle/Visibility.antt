-- ===== src/Lifecycle/Visibility.antt =====
-- To whom the chat link and the proposals are shown.
use order_run_be.Base.{
  ℕ, String, ◌*◌, ◌≡◌, inl, inr, ◌⊎◌, true, some, List, Memᴰ, arith, UserId, Option-cases, first,
  first-mem, mem-where_all, mem-order_by, mem-take, mem-drop,
}
use order_run_be.Models.Proposal
use order_run_be.Models.Proposal.{Proposal, ProposalStatus}
use order_run_be.Models.Offer
use order_run_be.Models.Offer.{Offer, OfferStatus}
use order_run_be.Pages.{of}
use order_run_be.Db.{Db}
use order_run_be.Proposals.Queries.{
  detail_of, chat_link, offers_of, open_chat_offer_statuses, open_chat_proposal_statuses,
  latest_created, search_proposals, public_matches, earliest_deadline,
}

chat_link-parties :
    (p : Proposal) (u : UserId) (o : Offer) (url : String)
    → chat_link p u (some o) ≡ some url
    → (u ≡ p.orderer_id ⊎ u ≡ o.runner_id)
      × (Proposal.is_in open_chat_proposal_statuses p.status ≡ true)
      × (o.open_chat_url ≡ some url)
chat_link-parties p u o url h = ground arith

of_proposal :
    (i : ℕ) (db : Db) {o : Offer}
    → Memᴰ o (offers_of i db)
    → Memᴰ o db.offers.rows × (o.proposal_id ≡ i)
of_proposal i db {o} m =
    let (mo, t) = mem-where_all _ _ (mem-order_by latest_created _ m) in (mo, ground (arith, t))

-- If the details of a proposal show a chat link to a viewer, it is the link of a stored offer of
-- that proposal whose status is one of an accepted offer, and the viewer is the orderer or the
-- runner of that offer.
pub detail_of-chat :
    (p : Proposal) (u : UserId) (db : Db) (url : String)
    → (detail_of p u db).open_chat_url ≡ some url
    → (o : Offer) × Memᴰ o db.offers.rows
      × (o.proposal_id ≡ p.id)
      × (Offer.is_in open_chat_offer_statuses o.status ≡ true)
      × (o.open_chat_url ≡ some url)
      × (u ≡ p.orderer_id ⊎ u ≡ o.runner_id)
unfolding detail_of
detail_of-chat p u db url h =
    elim (Option-cases
      (first (λ o. Offer.is_in open_chat_offer_statuses o.status) (offers_of p.id db))) [
        | inl e ↦ absurd (cc (rw e at h))
        | inr (o, e) ↦
            let (m, chat) = first-mem _ (offers_of p.id db) e in
            let (mo, of_p) = of_proposal p.id db m in
            let (who, open_p, link) = chat_link-parties p u o url (rw e at h) in
            (o, mo, of_p, chat, link, who)
      ]

-- Every proposal on a page of the public search is stored and posted or offered, whatever statuses
-- the caller asks for.
pub search_proposals-public :
    (ss : List ProposalStatus) (page size : ℕ) (db : Db) (p : Proposal)
    → Memᴰ p (search_proposals ss page size db).content
    → Memᴰ p db.proposals.rows
      × (p.status ≡ ProposalStatus.posted ⊎ p.status ≡ ProposalStatus.offered)
unfolding search_proposals public_matches of
search_proposals-public ss page size db p m =
    let matched = mem-order_by earliest_deadline _ (mem-drop (page * size) _ (mem-take size _ m)) in
    let (m₁, t₁) = mem-where_all _ _ matched in
    let (m₂, t₂) = mem-where_all _ _ m₁ in (m₂, ground (arith, t₂))
