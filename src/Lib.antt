-- ===== src/Lib.antt =====
-- The errand market of OrderRun: a verification library beside the backend under app/.
--
-- Users post errands (proposals), runners offer to do them, the orderer accepts one offer, both
-- confirm the meeting or one of them raises a dispute, and an administrator resolves disputes and
-- moderates reports. The services (app/services) are static methods over one database session; they
-- change entity rows through the methods of the entities (app/models), publish events on an
-- in-process bus (app/events), and a listener (app/listeners) writes notifications in the same
-- session.
--
-- Files and the code that they model:
-- Base and its children: Boolean tests, results of code that may raise, queries over lists of rows,
-- ordering and paging, Python's integers as far as they are compared.
-- Errors: app/core/errors.py.
-- Models: the entities of app/models, one file each; a status enum is a data type, a row is a
-- record, a method that assigns to self is a function to the changed row, a ValueError is an error.
-- Db: the tables and the session. A session's work (Tx) takes the database to a result and the
-- changed database, or raises; commit keeps the change, a raise before it leaves the database as it
-- was. An entity that the session changed is written back by its key before the commit.
-- Events: the bus, the listener and what both do together (Dispatch, Recipients).
-- Pages, Profiles: PageResponse.of of app/schemas/common.py, the names and levels in responses.
-- Proposals, Offers: app/services/proposal/proposal_service.py and
-- app/services/offer/offer_service.py, each in Queries, Commands (up to the match) and Execution
-- (from the match on). A command is its work up to the commit and the response made after it.
-- Disputes, Reports: app/services/dispute, app/services/proposal/proposal_report_service.py.
-- Phone: app/core/phone.py and the number that app/services/sms_service.py uses.
-- Security: app/core/security.py, over a JWT library as a parameter.
-- Auth: app/services/user_auth, the verification of phones, sign-up, login, refresh and the
-- profile. A verification that counts a failed attempt commits the count before it raises, so its
-- raise leaves a changed database.
-- Inbox, Settlement, Terms: app/services/notification/notification_service.py,
-- app/services/settlement/settlement_service.py and app/services/terms/terms_service.py.
-- Delivery: app/services/fcm_service.py, with the Firebase library as a parameter; Worker is
-- app/services/notification_worker.py, Direct and Notices are
-- app/services/notification/notification_dispatcher.py. An exception of the service is the result
-- none: what was not committed is lost. Quiet and Drain are about a worker that no exception ends,
-- Stuck about the library as it is documented. Outbox is what the worker promises of one message,
-- Orderly the invariant of the table, Kept what a session's work keeps of it.
-- Schemas: the request bodies of app/schemas, a function from what is sent to what the service gets.
-- Api: app/core/exceptions.py and the routes of app/api/v1. A request brings a Visit: its token, the
-- readings of the clock in their order, what is drawn at random, and the run of the worker in the
-- background. Calls has every request as data, and the scheduled job of app/main.py; Reach and
-- Sound tie the services together. Refused and Undone say what a
-- failure leaves; Late is about the services that respond after their commit.
-- Withdrawal: app/services/user_auth/user_withdrawal_service.py.
-- Commands: the sixteen commands as data, with what each raises and leaves behind.
-- Consistency: the invariant that ties proposals and offers, a lemma for each kind of step, and what
-- the responses after a commit find (Replies).
-- Lifecycle: what the commands achieve and refuse.
-- Scenarios: a small world, runs on it, and the theorems at work on it.
--
-- Conventions. A moment is a number of microseconds; each utcnow_naive() of a call is an argument,
-- so nothing is assumed of the clock. User ids, which the program only compares, are numbers.
-- Phone and account numbers, which it takes apart, are lists of code points. Keys are given by the
-- tables and grow without a bound. Loops of the source run over lists of rows and are structural
-- recursions. The one fuel is that of the digits in an amount with commas (Delivery/Wording); its
-- start, the amount itself, is shown to be enough there. A run of the worker is one function from
-- keys of notifications to moments. One request runs at a time: the code takes no row locks, and
-- what two interleaved sessions do is not modelled. A unique constraint that the code relies on is
-- the test that the insert makes.
--
-- Not modelled: the text and the sending of SMS, the columns updated_at, the text of error details
-- and the timestamps of responses, bodies that are not of the declared keys and types, the message
-- of mark_notifications_read (it repeats the count), the health routes, and the start of Firebase
-- (app/core/firebase.py), whose outcome is a parameter. The decimal text of a number in the data of
-- a message is kept as the number, and the values of the data that a request sends are narrowed to
-- texts and numbers. The sum that a proposal pays is unbounded, where the column is a 32-bit
-- Integer. The OverflowError of a deadline at the ends of the calendar is left out: a moment in any
-- zone is the one in UTC. A token keeps its expiry in microseconds, where the library cuts it to
-- seconds, and its type is one of the two that the program writes. The digits of an account number are those of Unicode 15.
pub mod Base
pub mod Errors
pub mod Models
pub mod Db
pub mod Events
pub mod Disputes
pub mod Delivery
pub mod Pages
pub mod Profiles
pub mod Proposals
pub mod Offers
pub mod Reports
pub mod Consistency
pub mod Commands
pub mod Phone
pub mod Inbox
pub mod Withdrawal
pub mod Terms
pub mod Settlement
pub mod Security
pub mod Auth
pub mod Lifecycle
pub mod Schemas
pub mod Api
pub mod Scenarios
