-- ===== src/Consistency/Advance.antt =====
-- What a command on a matched proposal does to the rows of the proposal and of its offer in
-- execution, and that the invariant survives it.
use order_run_be.Base.{
  ℕ, ◌≡◌, refl, sym, Bool, true, false, some, List, [], ◌∷◌, Memᴰ, arith, UserId, Moment, ◌==◌, ap,
  map, change, where_all, mem-order_by, mem-where_all, ◌∙◌,
}
use mathlib.Core.List.Memᴰ
use order_run_be.Models.Proposal.{Proposal}
use order_run_be.Models.Offer.{Offer}
use order_run_be.Events.Bus.{DomainEvent}
use order_run_be.Events.Listener.{publish_event}
use order_run_be.Db.{Db, save_proposal, save_offer}
use order_run_be.Proposals.Queries.{execution_offer, is_execution_offer, latest_accepted, head?}
use order_run_be.Proposals.Execution.{raise_level}
use order_run_be.Events.Dispatch.{publish_event-OnlyNotifies}
use order_run_be.Consistency.{Consistent, is_matched, is_engaged, fits}
use order_run_be.Consistency.Execution.{execution-IsConsistent}

-- How the rows of a proposal in execution and of its offer change together.
pub record Advances (p p' : Proposal) (o o' : Offer) : Type 0 where
  pub same_p : (p'.id ≡ p.id) × (p'.orderer_id ≡ p.orderer_id)
  pub same_o : (o'.id ≡ o.id) × (o'.proposal_id ≡ o.proposal_id) × (o'.runner_id ≡ o.runner_id)
  pub matched : is_matched p.status ≡ true
  pub matched' : is_matched p'.status ≡ true
  pub engaged : is_engaged o.status ≡ true
  pub engaged' : is_engaged o'.status ≡ true
  pub fit : fits p'.status o'.status ≡ true

-- What the session has written of the two rows.
pub record Persists (db db' : Db) (p' : Proposal) (o' : Offer) : Type 0 where
  pub proposals : db'.proposals ≡ (save_proposal p' db).proposals
  pub offers : db'.offers ≡ (save_offer o' db).offers

-- The two rows advance together, whatever else the session writes.
pub advance-Consistent :
    {db db' : Db} {p p' : Proposal} {o o' : Offer}
    → Consistent db
    → Memᴰ p db.proposals.rows
    → Memᴰ o db.offers.rows
    → o.proposal_id ≡ p.id
    → Advances p p' o o'
    → Persists db db' p' o'
    → Consistent db'
advance-Consistent {db} {db'} {p} {p'} {o} {o'} c hp ho e a w =
    let rows_p =
      ap (λ (k : ℕ). map (change (λ (q : Proposal). q.id == k) (λ _. p')) db.proposals.rows)
        a.same_p.0 in
    let rows_o =
      ap (λ (k : ℕ). map (change (λ (q : Offer). q.id == k) (λ _. o')) db.offers.rows) a.same_o.0 in
    rw (w.proposals, w.offers, rows_p, rows_o)
      (execution-IsConsistent c p p' o o' hp ho a.same_p a.same_o e a.matched a.matched' a.engaged
        a.engaged' a.fit)

-- A command has moved a stored proposal and its stored offer on.
pub record Moves (db db' : Db) (v : Proposal × Offer) : Type 0 where
  pub proposal : Proposal
  pub offer : Offer
  pub stored_p : Memᴰ proposal db.proposals.rows
  pub stored_o : Memᴰ offer db.offers.rows
  pub of_p : offer.proposal_id ≡ proposal.id
  pub steps : Advances proposal v.0 offer v.1
  pub kept : Persists db db' v.0 v.1

pub Moves-Consistent :
    {db db' : Db} {v : Proposal × Offer} → Consistent db → Moves db db' v → Consistent db'
Moves-Consistent c m = advance-Consistent c m.stored_p m.stored_o m.of_p m.steps m.kept

replaced-mem :
    {A : Type 0} (key : A → ℕ) (x x' : A) (xs : List A)
    → key x' ≡ key x
    → Memᴰ x xs
    → Memᴰ x' (map (change (λ y. key y == key x') (λ _. x')) xs)
replaced-mem key x x' xs e m =
    let hit : change (λ y. key y == key x') (λ _. x') x ≡ x' = ground (arith, e) in
    Memᴰ.cast (sym hit) (Memᴰ.map (change (λ y. key y == key x') (λ _. x')) m)

-- The two rows are stored as the command returns them.
pub Moves-mem :
    {db db' : Db} {v : Proposal × Offer}
    → Moves db db' v
    → Memᴰ v.0 db'.proposals.rows × Memᴰ v.1 db'.offers.rows
Moves-mem {db} {db'} {v} m =
    let p =
      replaced-mem (λ (q : Proposal). q.id) m.proposal v.0 db.proposals.rows m.steps.same_p.0
        m.stored_p in
    let o =
      replaced-mem (λ (q : Offer). q.id) m.offer v.1 db.offers.rows m.steps.same_o.0 m.stored_o in
    (rw m.kept.proposals p, rw m.kept.offers o)

-- The tables hold the two rows that a command returns, which have the keys of the two rows it found.
pub AreStored : Proposal → Offer → Proposal × Offer → Db → Type 0
AreStored p o v db' =
    (v.0.id ≡ p.id) × (v.1.id ≡ o.id) × Memᴰ v.0 db'.proposals.rows × Memᴰ v.1 db'.offers.rows

pub Moves-AreStored :
    (p : Proposal) (o : Offer) {db db' : Db} {v : Proposal × Offer}
    → Moves db db' v
    → (v.0.id ≡ p.id) × (v.1.id ≡ o.id)
    → AreStored p o v db'
unfolding AreStored
Moves-AreStored p o m keys = let (mp, mo) = Moves-mem m in (keys.0, keys.1, mp, mo)

-- The level of the runner is raised where the two confirmations have met.
abbrev pub level_if : Bool → UserId → Db → Db
level_if true u db = raise_level u db
level_if false u db = db

level_if-tables :
    (b : Bool) (u : UserId) (db : Db)
    → ((level_if b u db).proposals ≡ db.proposals) × ((level_if b u db).offers ≡ db.offers)
level_if-tables true u db = (refl, refl)
level_if-tables false u db = (refl, refl)

pub leveled_first :
    (b : Bool) (u : UserId) (db : Db) (p' : Proposal) (o' : Offer)
    → Persists db (save_offer o' (save_proposal p' (level_if b u db))) p' o'
leveled_first b u db p' o' =
    let (tp, to) = level_if-tables b u db in record { proposals = rw tp; offers = rw to }

-- Publishing an event leaves what was written.
pub Persists-publish :
    {db mid db' : Db} {p' : Proposal} {o' : Offer} (t : Moment) (e : DomainEvent)
    → Persists db mid p' o'
    → db' ≡ publish_event t e mid
    → Persists db db' p' o'
Persists-publish {mid} t e w same =
    let written = (publish_event-OnlyNotifies t e mid).eq in
    record {
      proposals = ap (λ (d : Db). d.proposals) (same ∙ written) ∙ w.proposals;
      offers = ap (λ (d : Db). d.offers) (same ∙ written) ∙ w.offers;
    }

pub head?-mem : {A : Type 0} (xs : List A) {x : A} → head? xs ≡ some x → Memᴰ x xs
head?-mem [] h = absurd (cc)
head?-mem (y ∷ xs) {x} h = let e : y ≡ x = cc in Memᴰ.head (sym e)

pub execution_offer-mem :
    (i : ℕ) (db : Db) {o : Offer}
    → execution_offer i db ≡ some o
    → Memᴰ o db.offers.rows × (o.proposal_id ≡ i)
unfolding execution_offer
execution_offer-mem i db {o} h =
    let inside =
      mem-order_by latest_accepted (where_all (is_execution_offer i) db.offers.rows)
        (head?-mem _ h) in
    let (m, t) = mem-where_all (is_execution_offer i) db.offers.rows inside in
    (m, ground (arith, t))

executed_engaged : (i : ℕ) (o : Offer) → is_execution_offer i o ≡ true → is_engaged o.status ≡ true
executed_engaged i o h = ground arith

pub execution_offer-engaged :
    (i : ℕ) (db : Db) {o : Offer} → execution_offer i db ≡ some o → is_engaged o.status ≡ true
unfolding execution_offer
execution_offer-engaged i db {o} h =
    let inside =
      mem-order_by latest_accepted (where_all (is_execution_offer i) db.offers.rows)
        (head?-mem _ h) in
    executed_engaged i o (mem-where_all (is_execution_offer i) db.offers.rows inside).1
