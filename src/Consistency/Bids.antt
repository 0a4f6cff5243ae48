-- ===== src/Consistency/Bids.antt =====
-- The commands on a waiting offer and the invariant: create, cancel, accept
-- (app/services/offer/offer_service.py).
use order_run_be.Base.{
  ℕ, ◌≡◌, ◌≢◌, refl, sym, inl, inr, true, false, some, none, List, Memᴰ, arith, ok, UserId, Moment,
  Option-cases, Bool-cases, ◌==◌, first, first-none, ap, map, where_all, ◌∙◌,
}
use mathlib.Core.List.Memᴰ
use mathlib.Core.List.{map-map}
use order_run_be.Models.Proposal
use order_run_be.Models.Proposal.{Proposal, ProposalStatus, mark_as_offered}
use order_run_be.Models.Offer
use order_run_be.Models.Offer.{Offer, OfferStatus}
use order_run_be.Events.Bus.{DomainEvent, offer_created, offer_accepted}
use order_run_be.Events.Listener.{publish_event}
use order_run_be.Events.Dispatch.{publish_event-OnlyNotifies}
use order_run_be.Db.{Db, find_proposal, find_offer, save_proposal, save_offer, add_row}
use order_run_be.Db.Sessions.{find_proposal-mem, find_offer-mem, request-keeps}
use order_run_be.Offers.Commands.{
  open_proposal_statuses, is_bid_of, new_offer, create_work, create, cancel, accept_work, accept,
  reject_rivals, is_rival,
}
use order_run_be.Consistency.{Consistent, IsConsistent, is_engaged, fits}
use order_run_be.Consistency.Rows.{put_proposal, put_self}
use order_run_be.Consistency.Opening.{status-IsConsistent}
use order_run_be.Consistency.Offering.{add_offer-IsConsistent}
use order_run_be.Consistency.Closing.{offer-IsConsistent}
use order_run_be.Consistency.Matching.{match-IsConsistent}

pub event_tables :
    (t : Moment) (e : DomainEvent) (mid : Db) {db' : Db}
    → db' ≡ publish_event t e mid
    → (db'.proposals ≡ mid.proposals) × (db'.offers ≡ mid.offers)
event_tables t e mid written =
    let h = (publish_event-OnlyNotifies t e mid).eq in
    (ap (λ (d : Db). d.proposals) (written ∙ h), ap (λ (d : Db). d.offers) (written ∙ h))

follows_offered :
    (p : Proposal) (s : OfferStatus)
    → fits p.status s ≡ true
    → Proposal.is_in open_proposal_statuses p.status ≡ true
    → fits ProposalStatus.offered s ≡ true
follows_offered p s h k = ground arith

-- The proposal as `create` leaves it
abbrev pub opened : Proposal → Proposal
opened p = record p { status = ProposalStatus.offered }

pub create_work-ok :
    (t : Moment) (i : ℕ) (u : UserId) (db : Db) (p : Proposal) {k : ℕ} {db' : Db}
    → find_proposal i db ≡ some p
    → create_work t i u db ≡ ok (k, db')
    → (p.orderer_id ≢ u)
      × (first (is_bid_of i u) db.offers.rows ≡ none)
      × (Proposal.is_in open_proposal_statuses p.status ≡ true)
      × (db'
          ≡ publish_event t
              (offer_created (record {
                offer_id = db.offers.next;
                proposal_id = p.id;
                runner_id = u;
                orderer_id = p.orderer_id;
                proposal_title = p.title;
              }))
              (record (save_proposal (opened p) db) {
                offers = add_row (new_offer i u t) db.offers;
              }))
unfolding create_work mark_as_offered
create_work-ok t i u db p ep h = ground arith

no_bid :
    (i : ℕ) (u : UserId) (os : List Offer) (r : Offer)
    → first (is_bid_of i u) os ≡ none
    → Memᴰ r os
    → r.proposal_id ≡ i
    → r.runner_id ≢ u
no_bid i u os r h m e same = ground (arith, first-none (is_bid_of i u) os h m)

create_work-key :
    (t : Moment) (i : ℕ) (u : UserId) (db : Db) (p : Proposal) {k : ℕ} {db' : Db}
    → find_proposal i db ≡ some p
    → create_work t i u db ≡ ok (k, db')
    → db.offers.next ≡ k
unfolding create_work mark_as_offered
create_work-key t i u db p ep h = ground arith

-- The offer that is made is stored under the key that is returned.
pub create_work-mem :
    (t : Moment) (i : ℕ) (u : UserId) (db : Db) (k : ℕ) (db' : Db)
    → create_work t i u db ≡ ok (k, db')
    → (db.offers.next ≡ k) × Memᴰ (new_offer i u t db.offers.next) db'.offers.rows
create_work-mem t i u db k db' h = elim (Option-cases (find_proposal i db)) [
  | inl e ↦ absurd (unfold create_work in ground arith)
  | inr (p, ep) ↦
      let (_, _, _, written) = create_work-ok t i u db p ep h in
      let (_, to) = event_tables t _ _ written in
      (create_work-key t i u db p ep h, rw to (Memᴰ.append_right db.offers.rows (Memᴰ.head refl)))
]

pub create_work-Consistent :
    (t : Moment) (i : ℕ) (u : UserId) (db : Db)
    → Consistent db
    → (k : ℕ) (db' : Db) → create_work t i u db ≡ ok (k, db')
    → Consistent db'
create_work-Consistent t i u db c k db' h = elim (Option-cases (find_proposal i db)) [
  | inl e ↦ absurd (unfold create_work in ground arith)
  | inr (p, ep) ↦
      let (other, free, is_open, written) = create_work-ok t i u db p ep h in
      let (mp, key) = find_proposal-mem i db ep in
      let offered : IsConsistent (map (put_proposal p (opened p)) db.proposals.rows) db.offers.rows
          db.proposals.next db.offers.next =
        status-IsConsistent c p (opened p) mp (refl, refl) refl
          (λ r m e f. follows_offered p r.status f is_open) in
      let here : Memᴰ (opened p) (map (put_proposal p (opened p)) db.proposals.rows) =
        Memᴰ.cast (sym (put_self p (opened p))) (Memᴰ.map (put_proposal p (opened p)) mp) in
      let (tp, to) = event_tables t _ _ written in
      rw (tp, to)
        (add_offer-IsConsistent offered (opened p) (new_offer i u t db.offers.next) here refl
          (sym key) (λ e. other (sym e)) (λ r mr er. no_bid i u db.offers.rows r free mr (er ∙ key))
          refl refl)
]

pub create-Consistent :
    (t : Moment) (i : ℕ) (u : UserId) (db : Db) → Consistent db → Consistent (create t i u db).1
unfolding create
create-Consistent t i u db c =
    request-keeps Consistent (create_work t i u) _ db c (create_work-Consistent t i u db c)

waiting_follows :
    (s : ProposalStatus) (u : OfferStatus)
    → Offer.is u OfferStatus.waiting ≡ true
    → fits s u ≡ true
    → fits s OfferStatus.cancelled ≡ true
waiting_follows s u h k = ground arith

waiting_idle : (u : OfferStatus) → Offer.is u OfferStatus.waiting ≡ true → is_engaged u ≡ false
waiting_idle u h = ground arith

pub cancel-Consistent :
    (i : ℕ) (u : UserId) (db : Db) → Consistent db → Consistent (cancel i u db).1
unfolding cancel
cancel-Consistent i u db c = elim (Option-cases (find_offer i db)) [
  | inl e ↦ rw e c
  | inr (o, e) ↦ elim (Bool-cases (o.runner_id == u)) [
    | inr stranger ↦ rw (e, stranger) c
    | inl mine ↦ elim (Bool-cases (Offer.is o.status OfferStatus.waiting)) [
      | inr over ↦ rw (e, mine, over) c
      | inl waiting ↦
          rw (e, mine, waiting)
            (offer-IsConsistent c o (record o { status = OfferStatus.cancelled })
              (find_offer-mem i db e).0 (refl, refl, refl) (waiting_idle o.status waiting) refl
              (λ s f. waiting_follows s o.status waiting f))
    ]
  ]
]

accept_work-ok :
    (t₁ t₂ : Moment) (i : ℕ) (u : UserId) (db : Db) (o : Offer) (p : Proposal)
    {v : Proposal × Offer × ℕ} {db' : Db}
    → find_offer i db ≡ some o
    → find_proposal o.proposal_id db ≡ some p
    → accept_work t₁ t₂ i u db ≡ ok (v, db')
    → (p.orderer_id ≡ u)
      × (p.status ≡ ProposalStatus.offered)
      × (o.status ≡ OfferStatus.waiting)
      × (v.0 ≡ record p { status = ProposalStatus.matched; matched_at = some t₁ })
      × (v.1 ≡ record o { status = OfferStatus.accepted; accepted_at = some t₁ })
unfolding accept_work
accept_work-ok t₁ t₂ i u db o p eo ep h = ground arith

accept_work-db :
    (t₁ t₂ : Moment) (i : ℕ) (u : UserId) (db : Db) (o : Offer) (p : Proposal)
    {v : Proposal × Offer × ℕ} {db' : Db}
    → find_offer i db ≡ some o
    → find_proposal o.proposal_id db ≡ some p
    → accept_work t₁ t₂ i u db ≡ ok (v, db')
    → db'
      ≡ publish_event t₂
          (offer_accepted (record {
            offer_id = o.id;
            proposal_id = p.id;
            accepted_runner_id = o.runner_id;
            rejected_runner_ids =
                map (λ r. r.runner_id) (where_all (is_rival p.id o.id) db.offers.rows);
            orderer_id = p.orderer_id;
            proposal_title = p.title;
          }))
          (reject_rivals p.id o.id (save_offer v.1 (save_proposal v.0 db)))
unfolding accept_work
accept_work-db t₁ t₂ i u db o p eo ep h = ground arith

accept_work-Consistent :
    (t₁ t₂ : Moment) (i : ℕ) (u : UserId) (db : Db)
    → Consistent db
    → (v : Proposal × Offer × ℕ) (db' : Db) → accept_work t₁ t₂ i u db ≡ ok (v, db')
    → Consistent db'
accept_work-Consistent t₁ t₂ i u db c v db' h = elim (Option-cases (find_offer i db)) [
  | inl e ↦ absurd (unfold accept_work in ground arith)
  | inr (o, eo) ↦ elim (Option-cases (find_proposal o.proposal_id db)) [
    | inl e ↦ absurd (unfold accept_work in ground arith)
    | inr (p, ep) ↦
        let (owner, is_open, waiting, vp, vo) = accept_work-ok t₁ t₂ i u db o p eo ep h in
        let written = accept_work-db t₁ t₂ i u db o p eo ep h in
        let (mp, key) = find_proposal-mem o.proposal_id db ep in
        let (tp, to) = event_tables t₂ _ _ written in
        rw (tp, to, vp, vo, map-map)
          (match-IsConsistent c p
            (record p { status = ProposalStatus.matched; matched_at = some t₁ }) o
            (record o { status = OfferStatus.accepted; accepted_at = some t₁ }) mp
            (find_offer-mem i db eo).0 (refl, refl) (refl, refl, refl) (sym key) is_open refl refl)
  ]
]

pub accept-Consistent :
    (t₁ t₂ : Moment) (i : ℕ) (u : UserId) (db : Db)
    → Consistent db
    → Consistent (accept t₁ t₂ i u db).1
unfolding accept
accept-Consistent t₁ t₂ i u db c =
    request-keeps Consistent (accept_work t₁ t₂ i u) _ db c (accept_work-Consistent t₁ t₂ i u db c)
