-- ===== src/Lib.antt =====
-- Kaasb, a marketplace for freelancers: the backend's money, orders, accounts and messages.
--
-- The program is a FastAPI service over PostgreSQL. An endpoint opens one session for a request
-- (backend/app/core/database.py), calls a service of backend/app/services, and the session commits
-- at the end or rolls back on an exception. Here a service method is an `Action`: it takes the
-- tables and answers with a value and the new tables, or with an error that drops all its writes.
--
-- Common: list, option and Boolean helpers, and the update of the rows that have an id.
-- Db (backend/app/models, core/exceptions.py, core/database.py): Db/Status has the
--   enumerations, Db/Rows the rows, Db/Session the tables, the exceptions, the queries
--   (`find_one` is `scalar_one_or_none`), the inserts with their constraints and the writes;
--   Db/Inversion says what a returned action did.
-- Payment (services/payment_service.py): Payment/Settings holds the settings and the gateways,
--   Fees `_calculate_fees`, Fund `setup_payment_account` and `fund_escrow`, Confirm
--   `confirm_qi_card_payment` and `handle_qi_card_payment_failed`, Release the three releases,
--   Refund the two refunds, Payout `request_payout`, `mark_payout_paid` and
--   `get_payment_summary`, Calls the requests as one type and a history of them. A long method is
--   cut at its queries: each part that starts after one is a definition of its own. Callbacks,
--   Opening, Releasing and Solvency hold proofs, Ledger the ledger's invariant; Kept, Keeping and
--   Histories are what a history does to the single rows, Unpaid what follows for the escrows of
--   milestones and for payouts; Samples and Tests are concrete runs.
--   A sum that SQL answers is zero or a `Decimal`: where the source makes a zero a float, or adds
--   floats to stored amounts, the operators raise `TypeError` as they do there (`mixes`,
--   `is_mixed_total`). Sums are otherwise exact.
--
-- Approval (services/payout_approval_service.py): Approval/Review has `request_release`, `approve`
--   and `reject`, Calls a history of them; Totals and Threshold hold the proofs on the total of the
--   last 24 hours, Decisions and FourEyes those on who decides, and how often.
--
-- Orders (services/catalog_service.py, services/dispute_service.py, tasks/marketplace_tasks.py):
--   Orders/Place has `place_order`, Work the steps from requirements to completion, Disputes those
--   of a dispute, Threads the platform's message about one (without the admin's note), Tasks the
--   two timed tasks, Calls what can happen to a placed order and its history. Machine states the
--   status machine; Progress, Disputing, Resolving and Paying show that the operations follow it,
--   Runs that histories do; Frozen, Completing and Late hold the proofs on the money of an order.
--
-- Contracts (services/contract_service.py): Contracts/Milestones has the operations on milestones,
--   Review `review_milestone`, which pays them; Money and Edits hold the proofs.
-- Auth (services/auth_service.py, core/security.py): Auth/Tokens has the tokens and their issue,
--   Login the login by password, Social that by Google or Facebook, Sessions the exchange and the
--   ends of refresh tokens, Recovery the mail links and the codes by phone, Calls a history of them.
--   Lockout, Ending, Grace and Names hold the proofs.
-- Messages (services/message_service.py, message_filter_service.py): Messages/Filter has what the
--   filter finds and what follows, Sending `send_message` and the conversation's cache, Starting who
--   may write to whom and `contact_support`, Threads the reading and the support tickets, Calls a
--   history of them. Violations, Gates, Announcing, Openings and Escalation hold the proofs on the
--   counts of violations, Counting, Reading, Counters, Posting, Beginning and Unread those on the
--   counters of messages, Bypass those on the two ways to a thread.
-- Jobs (services/job_service.py, proposal_service.py, contract_service.py): Jobs/Postings posts and
--   closes a job, Proposals is what a freelancer does with a proposal, Responding the client's answer
--   with `create_contract_from_proposal`, Calls a history of them. Single, Acceptance, Accepting,
--   Requests and Runs hold the proofs on accepted proposals, Contracting those on the contract, Bids
--   those on the limit of a bid.
-- Utils (services/base.py, utils/phone.py): Utils/Paging has the pages of a list, Phone the form of
--   the phone numbers.
-- Breaker (utils/circuit_breaker.py): Breaker/Circuit has the circuit breaker and the steps of its
--   callers, Bounds and Opening the proofs.
--
-- Amounts of IQD are in ten-thousandths, as the columns `Numeric(12, 4)` hold them, and are
-- unbounded; a percentage is in hundredths of a percent. Ids and times are numbers; a fresh
-- `uuid4` is the next unused one. A history is a sequence of whole requests: the row locks
-- (`FOR UPDATE`) and the advisory lock of a payout make the requests on one row follow each other.
-- The one loop without a bound, the search for a free username, has fuel for one try more than
-- there are users. A history of orders starts after their placement, and leaves the automatic
-- completion out; one of jobs leaves out the admin's change of a job's status, which may reopen a
-- job, and its deletion.
--
-- Parameters: the settings, the HMAC of an order id, and the gateways' clients (`Gateway`), whose
-- calls fail or answer; password hashing, JWTs and their keys (`Security`), what Google and Facebook
-- say (`SocialAnswer`), lower case and the classes of letters (`Alphabet`), and the regular
-- expressions and URL parser of the filter (`Patterns`). Not modelled: the registration, whose
-- fields are sanitised first, searches and lists but for their pages, the rate limits, the delivery
-- of notifications over mail and WebSocket, logging and metrics, texts shown to users, currencies
-- (always IQD), the routing of HTTP requests and their validation but for the bounds of payouts,
-- bids and edited milestones, and the frontend.
pub mod Common
pub mod Db
pub mod Payment
pub mod Approval
pub mod Orders
pub mod Breaker
pub mod Contracts
pub mod Auth
pub mod Messages
pub mod Jobs
pub mod Utils
