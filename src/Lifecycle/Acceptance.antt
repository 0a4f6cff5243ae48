-- ===== src/Lifecycle/Acceptance.antt =====
-- What the acceptance of an offer decides (`OfferService.accept`, app/services/offer/offer_service.py).
use order_run_be.Base.{
  ℕ, ◌≡◌, sym, inl, inr, ◌⊎◌, ◌≢◌, true, false, some, none, map, where_all, Memᴰ, arith, ok, UserId,
  Moment, Option-cases, ◌==◌, first, first-mem, ap, ◌∙◌, change, mem-update_where, count_where,
}
use order_run_be.Models.Proposal.{Proposal, ProposalStatus}
use order_run_be.Models.Offer.{Offer, OfferStatus}
use order_run_be.Db.{Db, find_proposal, find_offer, save_proposal, save_offer}
use order_run_be.Db.Sessions.{find_proposal-mem, find_offer-mem}
use order_run_be.Offers.Commands.{
  accept_work, accept, accept_response, is_rival, is_active_rival, reject_rivals,
}
use order_run_be.Events.Bus.{offer_accepted}
use order_run_be.Events.Listener.{publish_event}
use order_run_be.Events.Dispatch.{publish_event-OnlyNotifies}
use order_run_be.Consistency.{Consistent, fits}

-- The two rows as an acceptance at that moment leaves them
abbrev pub matched_at : Moment → Proposal → Proposal
matched_at t p = record p { status = ProposalStatus.matched; matched_at = some t }

abbrev pub accepted_at : Moment → Offer → Offer
accepted_at t o = record o { status = OfferStatus.accepted; accepted_at = some t }

waiting-offered :
    (s : ProposalStatus) → fits s OfferStatus.waiting ≡ true → s ≡ ProposalStatus.offered
waiting-offered s h = ground arith

offered_inactive :
    (i k : ℕ) (r : Offer)
    → is_active_rival i k r ≡ true
    → fits ProposalStatus.offered r.status ≡ false
offered_inactive i k r h = ground arith

-- While an offer waits, none of its proposal is in execution.
no_active_rival :
    (db : Db) {p : Proposal} (k : ℕ)
    → Consistent db
    → Memᴰ p db.proposals.rows
    → p.status ≡ ProposalStatus.offered
    → first (is_active_rival p.id k) db.offers.rows ≡ none
no_active_rival db {p} k c mp e =
    elim (Option-cases (first (is_active_rival p.id k) db.offers.rows)) [
      | inl h ↦ h
      | inr (r, h) ↦
          let (mr, t) = first-mem (is_active_rival p.id k) db.offers.rows h in
          let of_p : r.proposal_id ≡ p.id = ground (arith, t) in
          let fit = rw e at (c.agrees p r mp mr of_p) in
          absurd (ground (arith, offered_inactive p.id k r t, fit))
    ]

accept-lem :
    (t₁ t₂ : Moment) (i : ℕ) (u : UserId) (db : Db) (o : Offer) (p : Proposal)
    → find_offer i db ≡ some o
    → find_proposal o.proposal_id db ≡ some p
    → p.orderer_id ≡ u
    → o.status ≡ OfferStatus.waiting
    → p.status ≡ ProposalStatus.offered
    → first (is_active_rival p.id o.id) db.offers.rows ≡ none
    → (accept t₁ t₂ i u db).0
      ≡ ok (
          accept_response
            (matched_at t₁ p)
            (accepted_at t₁ o)
            (count_where (is_rival p.id o.id) db.offers.rows)
            (accept t₁ t₂ i u db).1)
unfolding accept accept_work
accept-lem t₁ t₂ i u db o p eo ep owner waiting offered free = ground arith

-- In a Consistent database the orderer's acceptance of a waiting offer of a stored proposal raises
-- nothing: it responds with the matched proposal, the accepted offer and the number of waiting
-- rivals.
pub accept-succeeds :
    (t₁ t₂ : Moment) (i : ℕ) (u : UserId) (db : Db) (o : Offer) (p : Proposal)
    → Consistent db
    → find_offer i db ≡ some o
    → find_proposal o.proposal_id db ≡ some p
    → p.orderer_id ≡ u
    → o.status ≡ OfferStatus.waiting
    → (accept t₁ t₂ i u db).0
      ≡ ok (
          accept_response
            (matched_at t₁ p)
            (accepted_at t₁ o)
            (count_where (is_rival p.id o.id) db.offers.rows)
            (accept t₁ t₂ i u db).1)
accept-succeeds t₁ t₂ i u db o p c eo ep owner waiting =
    let (mp, key) = find_proposal-mem o.proposal_id db ep in
    let fit = rw waiting at (c.agrees p o mp (find_offer-mem i db eo).0 (sym key)) in
    let offered = waiting-offered p.status fit in
    accept-lem t₁ t₂ i u db o p eo ep owner waiting offered (no_active_rival db o.id c mp offered)

abbrev pub rejected : Offer → Offer
rejected q = record q { status = OfferStatus.rejected }

-- What the acceptance makes of every offer
abbrev decided : Moment → Proposal → Offer → Offer → Offer
decided t p o r =
    change (is_rival p.id o.id) rejected (change (λ q. q.id == o.id) (λ _. accepted_at t o) r)

accept-offers :
    (t₁ t₂ : Moment) (i : ℕ) (u : UserId) (db : Db) (o : Offer) (p : Proposal)
    → find_offer i db ≡ some o
    → find_proposal o.proposal_id db ≡ some p
    → p.orderer_id ≡ u
    → o.status ≡ OfferStatus.waiting
    → p.status ≡ ProposalStatus.offered
    → first (is_active_rival p.id o.id) db.offers.rows ≡ none
    → (accept t₁ t₂ i u db).1
      ≡ publish_event t₂
          (offer_accepted (record {
            offer_id = o.id;
            proposal_id = p.id;
            accepted_runner_id = o.runner_id;
            rejected_runner_ids =
                map (λ r. r.runner_id) (where_all (is_rival p.id o.id) db.offers.rows);
            orderer_id = p.orderer_id;
            proposal_title = p.title;
          }))
          (reject_rivals p.id o.id
            (save_offer (accepted_at t₁ o) (save_proposal (matched_at t₁ p) db)))
unfolding accept accept_work
accept-offers t₁ t₂ i u db o p eo ep owner waiting offered free = ground arith

-- Under an offered proposal an offer waits or was cancelled, and is then decided.
decided_lem :
    (t : Moment) (p : Proposal) (o r : Offer) {r' : Offer}
    → r' ≡ decided t p o r
    → o.proposal_id ≡ p.id
    → r'.proposal_id ≡ p.id
    → (r.proposal_id ≡ p.id → fits ProposalStatus.offered r.status ≡ true)
    → (r'.id ≡ o.id) × (r'.status ≡ OfferStatus.accepted)
      ⊎ (r'.id ≢ o.id) × (r'.status ≡ OfferStatus.rejected ⊎ r'.status ≡ OfferStatus.cancelled)
decided_lem t p o r same key of_p fit = ground arith

-- In a Consistent database, after the orderer accepts a waiting offer of a stored proposal, every
-- offer of that proposal is the accepted one with status accepted, or another one with status
-- rejected or cancelled: none waits.
pub accept-decides :
    (t₁ t₂ : Moment) (i : ℕ) (u : UserId) (db : Db) (o : Offer) (p : Proposal)
    → Consistent db
    → find_offer i db ≡ some o
    → find_proposal o.proposal_id db ≡ some p
    → p.orderer_id ≡ u
    → o.status ≡ OfferStatus.waiting
    → (r : Offer) → Memᴰ r (accept t₁ t₂ i u db).1.offers.rows
    → r.proposal_id ≡ p.id
    → (r.id ≡ o.id) × (r.status ≡ OfferStatus.accepted)
      ⊎ (r.id ≢ o.id) × (r.status ≡ OfferStatus.rejected ⊎ r.status ≡ OfferStatus.cancelled)
accept-decides t₁ t₂ i u db o p c eo ep owner waiting r mr of_p =
    let (mp, key) = find_proposal-mem o.proposal_id db ep in
    let fit = rw waiting at (c.agrees p o mp (find_offer-mem i db eo).0 (sym key)) in
    let offered = waiting-offered p.status fit in
    let free = no_active_rival db o.id c mp offered in
    let written =
      accept-offers t₁ t₂ i u db o p eo ep owner waiting offered free
      ∙ (publish_event-OnlyNotifies t₂ _ _).eq in
    let inside = rw (ap (λ (d : Db). d.offers.rows) written) at mr in
    let (r₁, m₁, e₁) = mem-update_where (is_rival p.id o.id) rejected _ inside in
    let (r₀, m₀, e₀) =
      mem-update_where (λ (q : Offer). q.id == o.id) (λ _. accepted_at t₁ o) _ m₁ in
    decided_lem t₁ p o r₀ (e₁ ∙ ap (change (is_rival p.id o.id) rejected) e₀) (sym key) of_p
      (λ e. rw (← offered) (c.agrees p r₀ mp m₀ e))
