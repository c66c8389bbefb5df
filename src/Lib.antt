-- ===== src/Lib.antt =====
-- stellar-router: on-chain contracts for routing calls on Stellar, modelled contract by contract.
--
-- Prelude (Prelude.antt, Prelude/) holds numbers with Boolean tests, lists of identifiers, storage maps,
-- machine words and byte strings. Common (contracts/router-common/src/lib.rs) holds addresses, the
-- outcome of a call, the host's part of a call and the administrator macros.
--
-- How a contract is modelled. The instance storage is a record with a field for each kind of storage
-- key, `none` or a map without an entry where nothing is stored; the published events follow. A call is
-- a function of the host's environment (the ledger's time and the addresses that authorized the call),
-- the storage and the call's arguments. It ends in a value and the new storage, in an error of the
-- contract's error type, or in a panic (`require_auth` that fails, `expect` on nothing, an overflow
-- under the overflow checks of the release profile); the host rolls the storage and the events of the
-- last two back, so these carry no storage. The time to live of the storage entries, which every entry
-- point extends, is the host's and no call can observe it: it is left out. Addresses are numbers, since
-- they are only compared and stored.
--
-- Timelock (contracts/router-timelock/src/lib.rs). Timelock.antt: `DataKey`, `Op`, errors, events.
-- Timelock/Deps.antt: the private helpers (`load_deps`, `check_dependency_depth`,
-- `has_blocked_dependency`, the indexes). Timelock/Calls.antt: `initialize`, `queue`, `cancel`,
-- `execute`, `update_description`, `set_min_delay`, `transfer_admin`. Timelock/Cleanup.antt:
-- `cleanup_expired`, each loop a recursion on the index that it walks. Timelock/Status.antt: the
-- queries. The recursions over dependencies count down the depths that are left, nine from the depth 0
-- with `MAX_DEPENDENCY_DEPTH` 8. The digest and the serialization of values are the host's: a record
-- `Crypto` that the calls take, with the absence of collisions as a hypothesis where it is needed. The
-- proofs: Timelock/Invariant.antt and Preserve.antt (well-formedness), Outcomes.antt (when calls
-- succeed), Executing.antt and Queueing.antt (what they leave), Sweeping.antt, Reclaim.antt and Live.antt (cleanup), Lifecycle.antt and Refinement.antt (the
-- life of an identifier), History.antt (histories of calls), Once.antt, Digest.antt and
-- ExecutedOnce.antt (single execution), Depth.antt, StatusLaws.antt and Queries.antt (queries).
--
-- Middleware (contracts/router-middleware/src). Middleware.antt: `DataKey`, configurations, errors,
-- events. Middleware/RateLimit.antt (rate_limit.rs and `prune_stale_rate_limits`),
-- Middleware/CircuitBreaker.antt (circuit_breaker.rs) and Middleware/CallLog.antt (call_log.rs and the
-- queries of the log) have the hooks' parts, Middleware/Calls.antt the entry points that change the
-- storage, `pre_call` and `post_call` first, and Middleware/Views.antt the other queries. Route names are
-- numbers, and a stored map of rate limits is an association list. The proofs: Ring.antt, Push.antt and
-- Readers.antt (the ring buffer of the call log), Window.antt, Admission.antt, Strategy.antt
-- and Quota.antt (`pre_call` against the limit in a window), Breaker.antt (the
-- circuit breaker as a state machine), Override.antt (a caller's own limit), Invariant.antt,
-- Configure.antt, Hooks.antt, PreCall.antt, Append.antt and PostCall.antt (well-formedness), History.antt
-- (histories of calls) and Remembers.antt (the call log through `post_call`). Common/Holds.antt carries
-- what holds of a call's value through its steps.
--
-- Registry (contracts/router-registry/src/lib.rs). Registry.antt: `DataKey`, `ContractEntry`, errors,
-- events. Registry/Entries.antt: `validate_registration`, `write_entry`, `deprecate_one`.
-- Registry/Constraint.antt: the parsing of version constraints, over the bytes of their texts.
-- Registry/Lookup.antt: `get_latest`, `get_latest_with_constraint` and the other queries.
-- Registry/Calls.antt and Registry/Bulk.antt: the entry points that change the storage. Whether another
-- contract answers the health probe of `register_with_check` is a parameter. The proofs: Invariant.antt
-- and Write.antt (well-formedness), Writes.antt, Tracks.antt, BatchWrites.antt and Valid.antt (each call
-- as elementary writes, and what these keep), History.antt (histories of calls), InOrder.antt (fail-fast
-- batches), Scan.antt and Latest.antt (the latest entry), RoundTrip.antt (constraints printed and
-- read), Retire.antt (deprecation of all versions). Common/Batch.antt has the results of batches.
--
-- Access (contracts/router-access/src/lib.rs). Access.antt: `DataKey`, errors, events. Access/Roles.antt:
-- the private checks, the walks over parents as recursions on the roles left to look at, 16 from
-- `MAX_HIERARCHY_DEPTH`. Access/Grants.antt: the bookkeeping of grants. Access/Calls.antt and
-- Access/Views.antt: the entry points. The proofs: Hierarchy.antt and Parents.antt (parents of roles),
-- Members.antt (lists of members), Invariant.antt, Keeps.antt and History.antt (well-formedness over
-- histories), Transfer.antt (grants that move), Expiry.antt (grants that end) and Counts.antt (the blacklist and the counts).
--
-- Quote (contracts/router-quote/src/lib.rs). Quote.antt: `DataKey`, requests and quotes, and the integers
-- of their amounts. Quote/Fees.antt: the calls that set fees, and the fee that applies. Quote/Quotes.antt:
-- `get_quote`, `get_quotes`, `get_best_quote` and `get_quotes_sorted`. The proofs: Invariant.antt (stored
-- fees), Price.antt (quotes after any history) and Best.antt (the best quote).
--
-- Not modelled: `grant_role`, `grant_role_batch` and `grant_role_internal` of router-access, since the
-- body of the last is two versions merged into text that does not parse, so that the histories of
-- Access start from any well-formed storage; the aliases at the end of router-middleware's lib.rs,
-- which define `get_circuit_breaker_state`, `get_route_config`, `get_global_enabled` and
-- `get_total_calls` a second time by functions that are not there, so that the model takes the first
-- definitions; the contracts without a part above; api-server and metrics, which are input and output
-- around an RPC node; the tests and the test support.
pub mod Prelude
pub mod Common
pub mod Timelock
pub mod Middleware
pub mod Registry
pub mod Access
pub mod Quote
