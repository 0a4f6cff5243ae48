-- ===== src/Db.antt =====
-- The database that the services share, and what a request does to it (app/core/database.py).
-- A service works in a session. What it wrote is kept by `commit`; a raise before the commit ends
-- the session, and the database is as it was. The session does not flush before a query
-- (`autoflush=False`); a definition whose queries could tell says which state they read.
pub mod Sessions
use order_run_be.Base.{
  ℕ, suc, Bool, true, false, List, [], ◌∷◌, ◌++◌, Option, none, some, Result, ok, err, UserId, ◌==◌,
  first, update_where,
}
use order_run_be.Errors.{Error, api, AppError}
use order_run_be.Models.User.{User, AuthPhoneVerification, UserFcmToken}
use order_run_be.Models.Proposal.{Proposal}
use order_run_be.Models.Offer.{Offer}
use order_run_be.Models.Notification.{Notification}
use order_run_be.Models.Dispute.{DisputeSurveyQuestion, DisputeEvidence}
use order_run_be.Models.Report.{ProposalReportReasonQuestion, ProposalReport}
use order_run_be.Models.Account.{SettlementAccount, TermsAgreement}

-- A table with an auto-increment key: `next` is the key of the next row.
pub record Table (A : Type 0) : Type 0 where
  pub rows : List A
  pub next : ℕ

-- `db.add(row)`: the row takes the next key.
abbrev pub add_row : {A : Type 0} → (ℕ → A) → Table A → Table A
add_row make t = record { rows = t.rows ++ make t.next ∷ []; next = suc t.next }

abbrev pub set_rows : {A : Type 0} → List A → Table A → Table A
set_rows rs t = record { rows = rs; next = t.next }

pub record Db : Type 0 where
  pub users : List User
  pub proposals : Table Proposal
  pub offers : Table Offer
  pub evidences : Table DisputeEvidence
  pub survey_questions : List DisputeSurveyQuestion
  pub reports : Table ProposalReport
  pub reason_questions : List ProposalReportReasonQuestion
  pub notifications : Table Notification
  pub verifications : Table AuthPhoneVerification
  pub fcm_tokens : List UserFcmToken
  pub settlement_accounts : List SettlementAccount
  pub terms_agreements : List TermsAgreement

abbrev pub empty_db : Db
empty_db = record {
  users = [];
  proposals = record { rows = []; next = 1 };
  offers = record { rows = []; next = 1 };
  evidences = record { rows = []; next = 1 };
  survey_questions = [];
  reports = record { rows = []; next = 1 };
  reason_questions = [];
  notifications = record { rows = []; next = 1 };
  verifications = record { rows = []; next = 1 };
  fcm_tokens = [];
  settlement_accounts = [];
  terms_agreements = [];
}

-- The work of a session up to its commit.
abbrev pub Tx : Type 0 → Type 0
Tx A = Db → Result Error (A × Db)

abbrev pub continue : {A B : Type 0} → Result Error (A × Db) → (A → Tx B) → Result Error (B × Db)
continue (ok (a, db)) f = f a db
continue (err e) f = err e

infixl 5 ◌>>=◌ ◌>>◌
abbrev pub ◌>>=◌ : {A B : Type 0} → Tx A → (A → Tx B) → Tx B
◌>>=◌ m f db = continue (m db) f

abbrev pub ◌>>◌ : {A B : Type 0} → Tx A → Tx B → Tx B
m >> k = m >>= λ _. k

abbrev pub pure : {A : Type 0} → A → Tx A
pure a db = ok (a, db)

abbrev pub gets : {A : Type 0} → (Db → A) → Tx A
gets f db = ok (f db, db)

abbrev pub modify : (Db → Db) → Tx (Unit {0})
modify f db = ok (tt, f db)

abbrev pub lift : {A : Type 0} → Result Error A → Tx A
lift (ok a) db = ok (a, db)
lift (err e) db = err e

-- `if c: raise api_error(e)`
abbrev pub raise_when : Bool → AppError → Tx (Unit {0})
raise_when true e db = err (api e)
raise_when false e db = ok (tt, db)

-- `x = query.first()`, `if x is None: raise api_error(e)`
abbrev pub expect : {A : Type 0} → Option A → AppError → Tx A
expect none e db = err (api e)
expect (some a) e db = ok (a, db)

abbrev pub found : {A : Type 0} → (Db → Option A) → AppError → Tx A
found search_for e db = expect (search_for db) e db

-- A request: its result and the database after it.
abbrev pub Request : Type 0 → Type 0
Request A = Db → Result Error A × Db

-- `db.commit()` at the end of the session's work.
abbrev pub finish : {A : Type 0} → Db → Result Error (A × Db) → Result Error A × Db
finish db (ok (a, db')) = (ok a, db')
finish db (err e) = (err e, db)

abbrev pub commit : {A : Type 0} → Tx A → Request A
commit work db = finish db (work db)

-- A request that only reads.
abbrev pub query : {A : Type 0} → (Db → Result Error A) → Request A
query f db = (f db, db)

-- The response that is made from what was committed.
abbrev pub respond_with :
    {A B : Type 0} → (A → Db → Result Error B) → Result Error A × Db → Result Error B × Db
respond_with respond (ok a, db) = (respond a db, db)
respond_with respond (err e, db) = (err e, db)

abbrev pub answer : {A B : Type 0} → Request A → (A → Db → Result Error B) → Request B
answer work respond db = respond_with respond (work db)

abbrev pub find_proposal : ℕ → Db → Option Proposal
find_proposal i db = first (λ p. p.id == i) db.proposals.rows

abbrev pub find_offer : ℕ → Db → Option Offer
find_offer i db = first (λ o. o.id == i) db.offers.rows

abbrev pub find_user : UserId → Db → Option User
find_user i db = first (λ u. u.id == i) db.users

-- The session writes a changed row back under its key.
abbrev pub save_proposal : Proposal → Db → Db
save_proposal p db = record db {
  proposals = set_rows (update_where (λ q. q.id == p.id) (λ _. p) db.proposals.rows) db.proposals;
}

abbrev pub save_offer : Offer → Db → Db
save_offer o db = record db {
  offers = set_rows (update_where (λ q. q.id == o.id) (λ _. o) db.offers.rows) db.offers;
}
