-- ===== src/Timelock/Deps.antt =====
-- The helpers of contracts/router-timelock/src/lib.rs that read the dependencies of an operation, and
-- those that keep the indexes of pending and finalized operations.
--
-- The recursions go down from `depth` to the limit: `levels` counts the depths that are left, so zero
-- levels are the source's test `depth > MAX_DEPENDENCY_DEPTH`.
use stellar_router.Prelude.{
  ℕ, zero, suc, ◌+◌, ◌-◌, Bool, true, false, not, ◌&&◌, ◌||◌, Option, none, some, List, [], ◌∷◌,
  ◌++◌, ltb, unwrap_or, any, without, remove,
}
use stellar_router.Prelude.Words.{checked_add_u64}
use stellar_router.Common.{Env, err, try_for_each, fail_if}
use stellar_router.Timelock.{
  Timelock, Op, OpId, Call, dependency_too_deep, dependency_not_executed, max_dependency_depth,
}

unfoldable pub load_deps : Timelock → OpId → List OpId
load_deps s id = unwrap_or (s.deps id) []

unfoldable pub check_levels : ℕ → Timelock → OpId → Call (Unit {0})
unfolding load_deps
check_levels zero s id = err dependency_too_deep
check_levels (suc levels) s id = try_for_each (check_levels levels s) (load_deps s id)

unfoldable pub check_dependency_depth : Timelock → OpId → ℕ → Call (Unit {0})
unfolding check_levels
check_dependency_depth s id depth = check_levels (max_dependency_depth + 1 - depth) s id

abbrev pub is_executed : Option Op → Bool
is_executed none = false
is_executed (some op) = op.executed

unfoldable pub require_dependencies_executed : Timelock → OpId → Call (Unit {0})
unfolding load_deps
require_dependencies_executed s id =
    try_for_each (λ dep. fail_if (not (is_executed (s.ops dep))) dependency_not_executed)
      (load_deps s id)

-- `checked_add(..).is_none_or(|expiry| now > expiry)`
abbrev pub is_past : Option ℕ → ℕ → Bool
is_past none now = true
is_past (some expiry) now = ltb expiry now

unfoldable pub is_expired : Op → ℕ → Bool
is_expired op now = is_past (checked_add_u64 op.eta op.grace_period_seconds) now

-- The match on a dependency in `has_blocked_dependency_at_depth`; `rest` is the recursive call.
unfoldable pub blocks : ℕ → Bool → Option Op → Bool
unfolding is_expired
blocks now rest none = true
blocks now rest (some op) =
    op.cancelled || (not op.executed && is_expired op now) || (not op.executed && rest)

unfoldable pub blocked_levels : ℕ → ℕ → Timelock → OpId → Bool
unfolding load_deps blocks
blocked_levels now zero s id = true
blocked_levels now (suc levels) s id =
    any (λ dep. blocks now (blocked_levels now levels s dep) (s.ops dep)) (load_deps s id)

unfoldable pub has_blocked_dependency_at_depth : Env → Timelock → OpId → ℕ → Bool
unfolding blocked_levels
has_blocked_dependency_at_depth env s id depth =
    blocked_levels env.timestamp (max_dependency_depth + 1 - depth) s id

unfoldable pub has_blocked_dependency : Env → Timelock → OpId → Bool
unfolding has_blocked_dependency_at_depth
has_blocked_dependency env s id = has_blocked_dependency_at_depth env s id 0

abbrev pub pending : Timelock → List OpId
pending s = unwrap_or s.pending_ops []

abbrev pub finalized : Timelock → List OpId
finalized s = unwrap_or s.finalized_ops []

unfoldable pub add_to_pending_ops : Timelock → OpId → Timelock
add_to_pending_ops s id = record s { pending_ops = some (pending s ++ id ∷ []) }

unfoldable pub remove_from_pending_ops : Timelock → OpId → Timelock
remove_from_pending_ops s id = record s { pending_ops = some (without id (pending s)) }

unfoldable pub add_to_finalized_ops : Timelock → OpId → Timelock
add_to_finalized_ops s id = record s { finalized_ops = some (finalized s ++ id ∷ []) }

unfoldable pub remove_op_storage : Timelock → OpId → Timelock
remove_op_storage s id = record s { ops = remove s.ops id; deps = remove s.deps id }
