-- ===== src/Lib.antt =====
-- The fulfilment back end of the repository: the operations that decide about money, contracts and
-- work, as functions on tables, with the theorems that make them correct.
--
-- Parts and files (paths from the repository's root):
-- - Cases: the rows that several parts share (`CaseRecord`, `CaseFinancialProfile` and `AssetPackage` of
--   backend/app/models.py).
-- - Repayment: backend/app/repayment_plans.py. Rows holds the tables, Context the queries, Terms the
--   checks `_normalize_schedule` and `_validate_terms`, Proposal `create_plan_proposal`, Decision
--   `decide_plan`, Sync `_sync_plan_state`, Lookup and Allocation `allocate_recovery_to_plan`, View
--   `plan_view` and `repayment_overview`.
-- - Jobs: the durable queue. Rows holds the tables, Queue `enqueue_job` of backend/app/jobs.py and the
--   leases of backend/app/job_queue.py, Recovery `recover_stale_jobs`, Execution the end of
--   `execute_claimed_job`, Routes the routes `cancel_job` and `retry_job` of backend/app/main.py. Lease,
--   Fencing and Attempts hold proofs.
-- - Ledger: backend/app/financial_ledger.py. Rows holds the tables, Terms what a receipt is booked at,
--   Reconcile `_reconcile_receipt` and `match_payment_receipt`, Signature the configuration and the
--   check of a webhook, Webhook and Delivery `accept_payment_webhook`, Summary `financial_summary` and
--   the metrics, Commission `record_commission_event`, Candidates `payment_match_candidates`, ReviewRows
--   and Review the proposal and the decision on a receipt that was held. Refundable, Refunds, Delivered,
--   Duplicates, Balance, Rates, Reviewed and Signed hold proofs, over what Booked takes apart.
-- - Dialogue: backend/app/loan_dialogue.py, a state machine. Promises and Turns hold proofs.
-- - Protection: backend/app/protection_workflow.py. Rows holds the tables and the categories, Workflow
--   the opening of an incident, Resolution the proposal and the review, Safety proofs.
-- - Policy: backend/app/policy_workflow.py. Rows holds the tables, Workflow the creation and the review
--   of a proposal, Machine and Publishing the abstract machine of a package's policy and that each
--   operation is a step of it, Runs sequences of requests.
-- - Membership: backend/app/membership_governance.py (Governance), backend/app/entitlements.py and
--   backend/app/usage_metering.py (Quota). Administrators, Seats and Usage hold proofs.
-- - Services: the rows `ServiceConfig` and `IntegrationState`, which Contact and Gate share.
-- - Contact: backend/app/contact_orchestration.py (Channels, Attempts) and backend/app/telephony.py
--   (Telephony). Limits, Daily and Runs are about the daily limit, Progress about the events of calls.
-- - Gate: backend/app/domain.py (Services, Preflight) and the routes of backend/app/main.py that save,
--   test and enable services (Integration). Readiness, Opening and Selection hold proofs.
-- - Material: backend/app/customer_materials.py (Csv the reading of a table, Store the rest) and
--   backend/app/material_versions.py (Versions). Table, Recovered and Chain hold proofs.
-- - Base: what the parts share: lists of rows, Boolean tests, texts, integers, results, time.
-- The parts meet in the tables: a review of a plan writes the case and its profile, and an allocation
-- moves the plan and the case with the money; a receipt that is booked calls the allocation. A change
-- of a member asks for the capacity of the plan; an attempt to contact and the preflight of an
-- activity read the services, and the preflight reads what Policy published, what Protection blocked
-- and the rules of Ledger.
--
-- How the code is read:
-- - An operation is a function from its arguments and the tables to a result and the tables. `now` is
--   `utcnow()`. An error returns a code and no tables, since the session is closed without a commit.
-- - A query is a search of a list of rows, in the order of the table where the query gives none; an
--   update writes every row that its condition finds. Row locks have no counterpart: an operation sees
--   the tables at one moment. Where the code itself works without a lock, as in a claim of a job, the
--   query and the update are separate functions, and the theorems are about the update alone.
-- - Keys, tenants, actors and hashes are only compared and are numbers. `new_id` draws random keys; the
--   model numbers them, so that no key is given twice. Texts that are trimmed or change case are lists
--   of code points, with the white space and letters of ASCII.
-- - Times are microseconds and dates days since 0001-01-01. Money is a whole number of cents: a natural
--   number where the code never goes below zero, an integer where a refund does.
-- - The loops are over lists and are structural recursion, so that no fuel is needed.
-- - hashlib, hmac, base64, AES-GCM and the CSV reader are parameters, functions of the text or of the
--   evidence that they are given, as are Python's rounding of a budget, the first moment of a month, the
--   store of secrets and the answers of services.
-- - A sequence of requests is a list of operations; one that raises leaves the tables as they were.
--
-- Not modelled: the report on incidents, the report on a material and its links, conflicts that the
-- database raises on commit, the threads and processes of a worker, the handlers of the kinds of job,
-- the routes and wire schemas, calls of external services (models, telephones, connectors), the voice
-- laboratory, and the web application.
pub mod Base
pub mod Cases
pub mod Repayment
pub mod Jobs
pub mod Ledger
pub mod Dialogue
pub mod Protection
pub mod Policy
pub mod Membership
pub mod Services
pub mod Contact
pub mod Gate
pub mod Material
