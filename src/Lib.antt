-- ===== src/Lib.antt =====
-- Verification of the SmartPig backend: the money flows of its NestJS services, as functions on the
-- tables that they read and write.
--
-- The program. A client deposits into a DeFindex vault (src/deposits), withdraws from one
-- (src/withdrawals), converts an asset first (src/conversions), or sends a gift (src/gifts). A
-- deposit passes the vault registry and the disclosures (src/vault-registry) and the education gate
-- (src/vault-eligibility); the orchestrator (src/defindex) builds the transaction, and submits what
-- the client signed. Jobs (src/jobs) expire, purge, confirm, fund and refund the rows in the
-- background. Lessons (src/learning) earn experience (src/experience), which unlocks vaults. The client
-- polls a projection of the rows (src/defindex/transaction-state.ts). An account is deleted
-- (src/account-deletion) once no money of it is left: its Stellar account is closed, its rows are
-- erased, and a job finishes the deletion at the two partners, BlindPay and Privy.
-- Another job sends the outbox of push notifications (src/notifications).
--
-- The files.
--   Common            tables as lists of rows (findUnique, findFirst, updateMany, count), texts, and
--                     the monad of the handlers: an answer or an exception, and the tables after it
--   Schema            the rows of prisma/schema.prisma, and `Db`, the tables together
--   Environment       configuration and clock; Services: the parameters of the next paragraph
--   TransactionState  src/defindex/transaction-state.ts
--   FailureClassifier src/defindex/failure-classifier.ts
--   AssetAmount       src/defindex/asset-amount.ts
--   AssetRegistry     src/config/asset-registry.ts; getAsset and getFundingAsset of
--                     src/wallets/stellar.service.ts; StellarChain: the parameters of the network
--   Quotes            src/conversions/quote.service.ts, path-mapper.ts
--   Trustlines        src/wallets/trustlines.service.ts
--   VaultRegistry     src/vault-registry/vault-registry.service.ts (the two assertions)
--   VaultEligibility  src/vault-eligibility/vault-eligibility.service.ts: evaluate and its callers;
--                     Policies: upsertPolicy and the refresh of the unlocks
--   Disclosures       src/vault-registry/disclosure.service.ts, disclosure.guard.service.ts
--   Conversions       src/conversions/conversions.service.ts (listPending, getConsumable,
--                     attachDeposit); Creation, Submission: its createConversion and
--                     submitConversion; Recovery: src/jobs/conversion-recovery.job.ts; Lifecycle:
--                     the machine of a conversion's states, and every operation on its rows
--   Intents           Rows: the Prisma calls; Guard: the refusals of submitSignedXdr; Orchestrator:
--                     src/defindex/defindex.orchestrator.ts; Deposits, Withdrawals: the handlers of
--                     src/deposits/deposits.service.ts and src/withdrawals/withdrawals.service.ts;
--                     Deposits/Planning:
--                     deposits with the conversion service wired in; History: the detail and list
--                     routes; Jobs: src/jobs/expired-intents.job.ts and
--                     src/jobs/reconciliation.job.ts
--   Gifts             Rows, Service: src/gifts/gifts.service.ts; Jobs: src/jobs/gift-expiry.job.ts
--                     and src/jobs/gift-reconciliation.job.ts; Steps: the claims and the jobs on one
--                     gift, interleaved, with Moves and Lock
--   Experience        src/experience/experience-level.ts (Curve) and
--                     src/experience/experience-ledger.service.ts (Ledger, Rewards); Daily:
--                     claimDailyReward of src/experience/experience.service.ts
--   Learning          src/learning/learning.service.ts (submitAnswer; Position: markContent)
--   AccountDeletion   Rows: the tables; Eligibility, Scrub: src/account-deletion/eligibility.service.ts
--                     and scrub.service.ts; Requests: src/account-deletion/account-deletion.service.ts;
--                     Cleanup: src/jobs/account-deletion-cleanup.job.ts. The rest is proofs
--   Notifications     Target: src/notifications/push-target.ts; Rows, Dispatch:
--                     src/jobs/push-dispatch.job.ts. The rest is proofs
--   Examples          concrete rows, and the theorems applied to them
-- A component's theorems are in its children, which are named for what they are about.
--
-- The correspondence. A handler is a function from the tables to its answer and the tables after it;
-- a throw keeps what was written before it, as without a transaction in the source, and a
-- `$transaction` is one write. Identifiers, keys and the secret codes of gifts are only compared, so
-- they are numbers. Instants are milliseconds, and a request reads the clock once. Adding hours or
-- days to a date is the addition of their milliseconds (no daylight saving). A new row stands before
-- the others, and a list route answers in the order of the table. A request and a
-- round of a job run without another in between; the claims of a gift are interleaved in Gifts/Steps. Recursion is
-- structural everywhere, so no fuel is used. The deletion of an account keeps its own tables: of those
-- whose rows it only deletes, the owners of the rows; `deleted:` and the identifier of a row, which it
-- writes into unique columns, is a constructor. Reads that the source starts side by side are made in
-- the order of the text. An update sets `updatedAt`, a bulk update too.
--
-- The parameters. decimal.js, the DeFindex client, the Stellar client and, for a deposit, the call of
-- `createConversion` are fields of `Services`; Planning fills the last with the conversion service.
-- Trustlines and conversions take Horizon, the Stellar SDK and the registry as `StellarChain`. What is
-- assumed of them stands as a hypothesis: `IsExact` and `PrintsExactly` (products and quotients with
-- powers of ten, `toNumber` and `toFixed` are exact within the default precision), `IsOrder` (the
-- comparison of decimals) and `KeepsDeposits` (a conversion writes no deposit). Horizon
-- and the random source, for gifts, are `GiftChain` and `GiftLedger`; the floating-point curve of the
-- levels is `curve`, and the calendar of the daily reward `date_key` and `next_midnight`; the curve is
-- assumed increasing up to level fifty where that matters (`IsIncreasing`). The balances that an
-- account has left and decimal.js are `Balances`, the closure on the chain and the two partners
-- `DeletionServices`, which may answer differently in each round of the job; `IsDistinct` says that
-- an identifier is a primary key. The request to Expo and the chunks of its client are `ExpoClient`.
--
-- Not modelled: logging; notifications but for their dispatch, and of it the texts, the reading of
-- the JSON column and the flag that keeps the rounds of one instance apart; the JSON context of
-- acknowledgments; listings that only read; the built-in lists and the JSON override of the registry;
-- administration of disclosures; the profile of experience, ramps, portfolio, wallet activation; the
-- lists of residuals and the warnings of the eligibility for deletion; controllers, validation
-- decorators and configuration, which are framework glue; the clients of third-party services.
pub mod Common
pub mod TransactionState
pub mod Schema
pub mod Environment
pub mod AssetRegistry
pub mod StellarChain
pub mod Quotes
pub mod Trustlines
pub mod Learning
pub mod VaultRegistry
pub mod VaultEligibility
pub mod Disclosures
pub mod FailureClassifier
pub mod AssetAmount
pub mod Services
pub mod Intents
pub mod Conversions
pub mod Gifts
pub mod Experience
pub mod AccountDeletion
pub mod Notifications
pub mod Examples
