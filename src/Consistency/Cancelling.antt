-- ===== src/Consistency/Cancelling.antt =====
-- The loops that cancel the offers and the proposals of a user who withdraws
-- (app/services/user_auth/user_withdrawal_service.py).
use order_run_be.Base.{
  ℕ, ◌≡◌, ◌≢◌, refl, sym, ◌∙◌, ap, inl, inr, ◌⊎◌, true, false, List, [], ◌∷◌, map, Memᴰ, arith, ok,
  Result-cases, Bool-cases, ◌==◌, ==_iff,
}
use mathlib.Core.List.Memᴰ
use mathlib.Core.Path.{subst}
use order_run_be.Models.Proposal.{Proposal, ProposalStatus}
use order_run_be.Models.Offer
use order_run_be.Models.Offer.{Offer, OfferStatus}
use order_run_be.Db.{Db, save_offer}
use order_run_be.Withdrawal.{cancel_offers, cancelled_offer}
use order_run_be.Consistency.{Consistent, IsConsistent, is_engaged, fits}
use order_run_be.Consistency.Rows.{put_offer}
use order_run_be.Consistency.Closing.{offer-IsConsistent}

cancel_lem :
    (o : Offer) {o' : Offer}
    → Offer.cancel o ≡ ok o'
    → (Offer.is o.status OfferStatus.waiting ≡ true) × (o' ≡ cancelled_offer o)
unfolding Offer.cancel Offer.can_cancel
cancel_lem o h = ground arith

-- The row, or what the loop has made of it, is stored.
abbrev pub Held : Offer → List Offer → Type 0
Held o os = Memᴰ o os ⊎ Memᴰ (cancelled_offer o) os

idle : (u : OfferStatus) → Offer.is u OfferStatus.waiting ≡ true → is_engaged u ≡ false
idle u h = ground arith

follows :
    (s : ProposalStatus) (u : OfferStatus)
    → Offer.is u OfferStatus.waiting ≡ true
    → fits s u ≡ true
    → fits s OfferStatus.cancelled ≡ true
follows s u h k = ground arith

not_waiting : (o : Offer) → cancelled_offer o ≡ o → Offer.is o.status OfferStatus.waiting ≡ true → ⊥
not_waiting o e h = ground arith

abbrev cancel_row : Offer → Offer → Offer
cancel_row o = put_offer o (cancelled_offer o)

module _ {ps : List Proposal} {os : List Offer} {n m : ℕ} (old : IsConsistent ps os n m) (o : Offer)
    (waiting : Offer.is o.status OfferStatus.waiting ≡ true) (stored : Held o os) where
  cancel-IsConsistent : IsConsistent ps (map (cancel_row o) os) n m
  cancel-IsConsistent = elim stored [
    | inl ho ↦
        offer-IsConsistent old o (cancelled_offer o) ho (refl, refl, refl) (idle o.status waiting)
          refl (λ s f. follows s o.status waiting f)
    | inr hc ↦
        offer-IsConsistent old (cancelled_offer o) (cancelled_offer o) hc (refl, refl, refl) refl
          refl (λ s f. f)
  ]

  -- What is stored under the key of the row that is cancelled
  same_key : (r : Offer) → Memᴰ r os → r.id ≡ o.id → r ≡ o ⊎ r ≡ cancelled_offer o
  same_key r mr e = elim stored [
    | inl ho ↦ inl (old.offer_key r o mr ho e)
    | inr hc ↦ inr (old.offer_key r (cancelled_offer o) mr hc e)
  ]

  cancel-Held : (r : Offer) → Held r os → Held r (map (cancel_row o) os)
  cancel-Held r (inl mr) = elim (Bool-cases (r.id == o.id)) [
    | inr ne ↦ inl (Memᴰ.cast (sym (rw ne)) (Memᴰ.map (cancel_row o) mr))
    | inl e ↦
        let moved : cancel_row o r ≡ cancelled_offer o = rw e in
        elim (same_key r mr ((==_iff _ _).0 e)) [
          | inl h ↦ inr (Memᴰ.cast (ap cancelled_offer h ∙ sym moved) (Memᴰ.map (cancel_row o) mr))
          | inr h ↦ inl (Memᴰ.cast (h ∙ sym moved) (Memᴰ.map (cancel_row o) mr))
        ]
  ]
  cancel-Held r (inr mr) = elim (Bool-cases (r.id == o.id)) [
    | inr ne ↦ inr (Memᴰ.cast (sym (rw ne)) (Memᴰ.map (cancel_row o) mr))
    | inl e ↦
        let moved : cancel_row o (cancelled_offer r) ≡ cancelled_offer o = rw e in
        elim (same_key (cancelled_offer r) mr ((==_iff _ _).0 e)) [
          | inl h ↦ absurd (not_waiting o (ap cancelled_offer (sym h) ∙ h) waiting)
          | inr h ↦ inr (Memᴰ.cast (h ∙ sym moved) (Memᴰ.map (cancel_row o) mr))
        ]
  ]

-- A row that still waits afterwards was there before, under another key.
cancel-waits :
    (o x : Offer) (os : List Offer)
    → Memᴰ x (map (cancel_row o) os)
    → Offer.is x.status OfferStatus.waiting ≡ true
    → Memᴰ x os × (o.id ≢ x.id)
cancel-waits o x os mx waits =
    let (y, my, e) = Memᴰ.of_map (cancel_row o) os mx in
    elim (Bool-cases (y.id == o.id)) [
      | inl h ↦
          let moved : cancelled_offer o ≡ x = rw h at e in
          absurd (not_waiting x (ap cancelled_offer (sym moved) ∙ moved) waits)
      | inr h ↦
          let same : y ≡ x = rw h at e in
          (Memᴰ.cast (sym same) my, λ k. ground (arith, ap (λ (r : Offer). r.id) same))
    ]

-- What the loop over offers does.
pub record Cancels (rows : List Offer) (db db' : Db) : Type 0 where
  pub consistent : Consistent db'
  pub proposals : db'.proposals ≡ db.proposals
  pub holds : (r : Offer) → Held r db.offers.rows → Held r db'.offers.rows
  pub waits :
      (x : Offer)
      → Memᴰ x db'.offers.rows
      → Offer.is x.status OfferStatus.waiting ≡ true
      → Memᴰ x db.offers.rows × ((o : Offer) → Memᴰ o rows → o.id ≢ x.id)

pub cancel_offers-Cancels :
    (rows : List Offer) (db : Db)
    → Consistent db
    → ((o : Offer) → Memᴰ o rows → Held o db.offers.rows)
    → (v : Unit {0}) (db' : Db) → cancel_offers rows db ≡ ok (v, db')
    → Cancels rows db db'
cancel_offers-Cancels [] db c stored v db' h =
    let same : db ≡ db' = ground arith in
    subst (λ d. Cancels [] db d) same
      (record {
        consistent = c;
        proposals = refl;
        holds = λ r m. m;
        waits = λ x m w. (m, λ o mo. absurd (Memᴰ.not-nil mo));
      })
cancel_offers-Cancels (o ∷ rows) db c stored v db' h = elim (Result-cases (Offer.cancel o)) [
  | inr (e, bad) ↦ absurd (cc (rw bad at h))
  | inl (o', good) ↦
      let (waiting, made) = cancel_lem o good in
      let now = stored o (Memᴰ.head refl) in
      let rest : cancel_offers rows (save_offer (cancelled_offer o) db) ≡ ok (v, db') =
        rw (good, made) at h in
      let later =
        cancel_offers-Cancels rows (save_offer (cancelled_offer o) db)
          (cancel-IsConsistent c o waiting now)
          (λ r mr. cancel-Held c o waiting now r (stored r (Memᴰ.tail mr))) v db' rest in
      record {
        consistent = later.consistent;
        proposals = later.proposals;
        holds = λ r hr. later.holds r (cancel-Held c o waiting now r hr);
        waits = λ x mx w.
            let (mid, others) = later.waits x mx w in
            let (before, ne) = cancel-waits o x db.offers.rows mid w in
            (
              before,
              λ r mr. elim (Memᴰ.cases_cons mr) [
                | inl same ↦ λ k. ne (ap (λ (y : Offer). y.id) (sym same) ∙ k)
                | inr k ↦ others r k
              ],
            );
      }
]
