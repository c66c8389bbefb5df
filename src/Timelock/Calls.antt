-- ===== src/Timelock/Calls.antt =====
-- The calls of contracts/router-timelock/src/lib.rs that change the storage, but for the cleanup.
use stellar_router.Prelude.{
  ℕ, ◌++◌, String, true, false, ◌&&◌, not, some, List, [], ◌∷◌, ltb, leb, ◌==◌, is_some, unwrap_or,
  length, insert,
}
use stellar_router.Prelude.Words.{checked_add_u64, to_be_bytes}
use stellar_router.Common.{
  Address, Env, Crypto, ok, ◌>>=◌, ◌>>◌, fail_if, ok_or, expect, try_for_each, require_auth,
  require_admin,
}
use stellar_router.Timelock
use stellar_router.Timelock.{
  Op, OpId, TimelockError, Call, op_queued, op_cancelled, op_executed, op_description_updated,
  min_delay_updated, admin_transferred, publish, max_grace_period_seconds,
}
use stellar_router.Timelock.Deps.{
  pending, check_dependency_depth, require_dependencies_executed, add_to_pending_ops,
  remove_from_pending_ops, add_to_finalized_ops,
}

abbrev State : Type 0
State = Timelock.Timelock

-- `require_auth` followed by `require_admin_simple!`, as most calls begin.
unfoldable pub authorize : Env → State → Address → Call (Unit {0})
authorize env s caller = do
  require_auth env caller
  require_admin s.admin caller TimelockError.not_initialized TimelockError.unauthorized

unfoldable pub initialize : State → Address → ℕ → ℕ → Call State
initialize s admin min_delay max_pending_ops = do
  fail_if (is_some s.admin) TimelockError.already_initialized
  fail_if (min_delay == 0) TimelockError.delay_too_short
  ok (record s {
    admin = some admin;
    min_delay = some min_delay;
    max_pending_ops = some max_pending_ops;
  })

-- The digest that names an operation.
unfoldable pub derive_op_id : Crypto → String → Address → ℕ → OpId
derive_op_id crypto description target eta =
    crypto.sha256 (crypto.string_xdr description ++ (crypto.address_xdr target ++ to_be_bytes eta))

-- The checks of `queue` on one dependency.
unfoldable pub check_dependency : State → OpId → OpId → Call (Unit {0})
check_dependency s op_id dep = do
  fail_if (dep == op_id) TimelockError.circular_dependency
  fail_if (not (is_some (s.ops dep))) TimelockError.not_found
  check_dependency_depth s dep 0

abbrev store_deps : State → OpId → List OpId → State
store_deps s op_id [] = s
store_deps s op_id (d ∷ ds) = record s { deps = insert s.deps op_id (d ∷ ds) }

-- What `queue` writes once its checks have passed.
unfoldable pub enqueue : State → OpId → List OpId → Op → State
unfolding add_to_pending_ops
enqueue s op_id deps op =
    publish
      (add_to_pending_ops (store_deps (record s { ops = insert s.ops op_id op }) op_id deps) op_id)
      (op_queued op_id op.target op.eta op.grace_period_seconds)

-- The operation that `queue` stores.
abbrev pub new_op : Address → String → Address → ℕ → ℕ → Op
new_op proposer description target eta grace = record {
  proposer = proposer;
  description = description;
  target = target;
  eta = eta;
  grace_period_seconds = grace;
  executed = false;
  cancelled = false;
}

unfoldable pub queue :
    Crypto → Env → State → Address → String → Address → ℕ → ℕ → List OpId → Call (OpId × State)
unfolding authorize enqueue
queue crypto env s proposer description target delay grace deps = do
  authorize env s proposer
  min_delay ← ok_or s.min_delay TimelockError.not_initialized
  fail_if (ltb delay min_delay) TimelockError.delay_too_short
  fail_if (ltb max_grace_period_seconds grace) TimelockError.grace_period_too_long
  let max_pending = unwrap_or s.max_pending_ops 0
  fail_if (ltb 0 max_pending && leb max_pending (length (pending s))) TimelockError.queue_full
  eta ← ok_or (checked_add_u64 env.timestamp delay) TimelockError.delay_too_long
  let op_id = derive_op_id crypto description target eta
  fail_if (is_some (s.ops op_id)) TimelockError.already_queued
  try_for_each (check_dependency s op_id) deps
  ok (op_id, enqueue s op_id deps (new_op proposer description target eta grace))

unfoldable pub require_op_pending : Op → Call (Unit {0})
require_op_pending op = do
  fail_if op.cancelled TimelockError.cancelled
  fail_if op.executed TimelockError.already_executed

-- The move of an operation from the pending to the finalized index, by `cancel` and `execute`.
unfoldable pub finalize : State → OpId → Op → State
unfolding remove_from_pending_ops add_to_finalized_ops
finalize s op_id op =
    add_to_finalized_ops (remove_from_pending_ops (record s { ops = insert s.ops op_id op }) op_id)
      op_id

unfoldable pub cancel : Env → State → Address → OpId → Call State
unfolding authorize require_op_pending finalize
cancel env s caller op_id = do
  authorize env s caller
  op ← ok_or (s.ops op_id) TimelockError.not_found
  require_op_pending op
  ok (publish (finalize s op_id (record op { cancelled = true })) (op_cancelled op_id))

unfoldable pub execute : Env → State → Address → OpId → Call State
unfolding authorize finalize
execute env s caller op_id = do
  authorize env s caller
  op ← ok_or (s.ops op_id) TimelockError.not_found
  fail_if op.cancelled TimelockError.cancelled
  fail_if op.executed TimelockError.already_executed
  fail_if (ltb env.timestamp op.eta) TimelockError.not_ready
  expiry ← ok_or (checked_add_u64 op.eta op.grace_period_seconds) TimelockError.expiry_overflow
  fail_if (ltb expiry env.timestamp) TimelockError.expired
  require_dependencies_executed s op_id
  ok (publish (finalize s op_id (record op { executed = true })) (op_executed op_id op.target))

unfoldable pub update_description : Env → State → Address → OpId → String → Call State
unfolding authorize
update_description env s caller op_id text = do
  authorize env s caller
  op ← ok_or (s.ops op_id) TimelockError.not_found
  fail_if op.executed TimelockError.already_executed
  fail_if op.cancelled TimelockError.cancelled
  ok (
      publish (record s { ops = insert s.ops op_id (record op { description = text }) })
        (op_description_updated op_id text))

unfoldable pub set_min_delay : Env → State → Address → ℕ → Call State
unfolding authorize
set_min_delay env s caller new_min_delay = do
  authorize env s caller
  fail_if (new_min_delay == 0) TimelockError.delay_too_short
  old_min_delay ← expect s.min_delay
  ok (
      publish (record s { min_delay = some new_min_delay })
        (min_delay_updated old_min_delay new_min_delay))

-- With the macro `admin_transfer_complete!`.
unfoldable pub transfer_admin : Env → State → Address → Address → Call State
unfolding authorize
transfer_admin env s current new_admin = do
  authorize env s current
  ok (publish (record s { admin = some new_admin }) (admin_transferred current new_admin))
