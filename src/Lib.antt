-- ===== src/Lib.antt =====
-- Vela: the backend of a payment agent for the Stellar network (backend/).
--
-- Agent models backend/agent.ts. Agent.Queue is the admission of tasks: the concurrency limit, the
-- queue and draining, as steps of a state machine over submissions and settlings. Agent.Execute is
-- `executeTask`: the dispatch to a tool, the middleware, the audit log and what is reported, with
-- the tools as functions of the state that they share. Agent.Guard is `assertWithinSpendingLimit`,
-- over the tracker of Spending, Agent.Sequence `runSequence` and Agent.Sanitize `sanitizePayload`.
-- Spending (with Persistence) models backend/spending_tracker.ts and the spending table of
-- backend/persistence.ts: the tracker is a record, each method a function to its result and the
-- tracker that it leaves. Nonce models backend/nonce_store.ts: the interface `INonceStore` as a
-- record of operations and the laws that its clients rely on, and both classes that implement it.
-- X402 models backend/tools/X402PaymentTool.ts over any such store: `respond` and `verify`.
-- Soroban models backend/tools/SorobanInvokeTool.ts: the total of the simulated transfers, the spending
-- gate over the tracker of Spending, the order of the guards and the polling.
-- FeeBump models backend/tools/FeeBumpTool.ts, and Xdr backend/types/xdr.ts.
-- Payment models backend/tools/StellarPaymentTool.ts, Payment.Batch
-- backend/tools/BatchPaymentTool.ts, Payment.Path backend/tools/PathPaymentTool.ts, Payment.Swap
-- backend/tools/SwapTool.ts and Payment.MultiSig backend/tools/MultiSigPaymentTool.ts; Payment.Submit is
-- the submission that the first and the third share.
-- Results models the table of results of backend/persistence.ts, and Server the routes and handlers of
-- backend/server.ts, over Results, Spending and Errors.Handler.
-- Listener models backend/tools/ContractEventListener.ts: the timer, `stop` and the polls are its steps.
-- Watcher models backend/tools/ContractStorageWatcherTool.ts in the same way.
-- Webhook models backend/webhook.ts over the backoff of Network.
-- Errors models backend/errors.ts, with the values of type `unknown` in Values, and Errors.Handler
-- models backend/middleware/error_handler.ts. Network models the backoff of backend/network.ts: its
-- operations are functions of the backoff state, and the timers and callers are events. Retry
-- models `withRetry` of backend/rpc_client.ts, and Rpc the rest of that file.
--
-- Time is an argument, one for each reading of the clock, in milliseconds; a cutoff `now - ttl`
-- stops at 0, before which no time lies. Amounts are integers that count units of 10⁻⁷, so sums are
-- exact where the program adds floating point numbers. Exceptions are values next to the state
-- that they leave. SQLite, the Stellar SDK, `parseFloat`, the network and the clock are parameters.
-- Logging and durations are left out. All recursion is structural, and the loop of
-- `withRetry` and that of the webhook run on the number of attempts that are left. Only the digits of
-- a number (Soroban.Decimal) are written on fuel, which is the number itself, and so enough.
-- The other tools and the entry point are not modelled.
mod Prelude
pub mod Agent
pub mod Errors
pub mod FeeBump
pub mod Listener
pub mod Network
pub mod Nonce
pub mod Payment
pub mod Persistence
pub mod Results
pub mod Retry
pub mod Rpc
pub mod Server
pub mod Soroban
pub mod Spending
pub mod Values
pub mod Watcher
pub mod Webhook
pub mod X402
pub mod Xdr
