-- ===== src/Timelock/Status.antt =====
-- The queries of contracts/router-timelock/src/lib.rs.
use stellar_router.Prelude.{
  ℕ, ◌+◌, ◌++◌, Bool, false, ◌&&◌, not, Option, none, some, List, [], ◌∷◌, ltb, leb, unwrap_or,
  if◌then◌else◌,
}
use stellar_router.Prelude.Words.{checked_add_u64}
use stellar_router.Common.{Address, Env, ok_or}
use stellar_router.Timelock
use stellar_router.Timelock.{
  Op, OpId, OperationStatus, Call, TimelockError, queued, ready, executed, cancelled, expired,
  blocked,
}
use stellar_router.Timelock.Deps.{pending, is_past, has_blocked_dependency}

abbrev State : Type 0
State = Timelock.Timelock

unfoldable pub get_op : State → OpId → Option Op
get_op s id = s.ops id

unfoldable pub get_dependencies : State → OpId → List OpId
get_dependencies s id = unwrap_or (s.deps id) []

-- `checked_add(..).is_some_and(|expiry| now <= expiry)`
abbrev pub is_within : Option ℕ → ℕ → Bool
is_within none now = false
is_within (some expiry) now = leb now expiry

abbrev pub expiry_of : Op → Option ℕ
expiry_of op = checked_add_u64 op.eta op.grace_period_seconds

unfoldable pub status_of : Env → State → OpId → Op → OperationStatus
status_of env s id op =
    if op.cancelled
    then cancelled
    else if op.executed
    then executed
    else if is_past (expiry_of op) env.timestamp
    then expired
    else if has_blocked_dependency env s id
    then blocked
    else if leb op.eta env.timestamp
    then ready
    else queued

unfoldable pub get_operation_status : Env → State → OpId → Option OperationStatus
unfolding status_of
get_operation_status env s id = elim (s.ops id) [
  | none ↦ none
  | some op ↦ some (status_of env s id op)
]

abbrev pub is_live : Op → ℕ → Bool
is_live op now = not op.executed && not op.cancelled && is_within (expiry_of op) now

abbrev pub push_live : ℕ → List Op → Option Op → List Op
push_live now result none = result
push_live now result (some op) = if is_live op now then result ++ op ∷ [] else result

unfoldable pub collect_live : ℕ → State → List OpId → List Op → List Op
collect_live now s [] result = result
collect_live now s (id ∷ ids) result = collect_live now s ids (push_live now result (s.ops id))

unfoldable pub get_pending_operations : Env → State → List Op
unfolding collect_live
get_pending_operations env s = collect_live env.timestamp s (pending s) []

-- The match on the status asked for in `get_operation_count_by_status`, which `get_operations_by_status`
-- has in a copy of its own, `matches`.
unfoldable pub counts : Env → State → OperationStatus → OpId → Op → Bool
counts env s cancelled id op = op.cancelled
counts env s executed id op = op.executed
counts env s expired id op =
    not op.executed && not op.cancelled && is_past (expiry_of op) env.timestamp
counts env s ready id op =
    not op.executed
    && not op.cancelled
    && leb op.eta env.timestamp
    && is_within (expiry_of op) env.timestamp
    && not (has_blocked_dependency env s id)
counts env s queued id op =
    not op.executed
    && not op.cancelled
    && ltb env.timestamp op.eta
    && not (has_blocked_dependency env s id)
counts env s blocked id op =
    not op.executed
    && not op.cancelled
    && is_within (expiry_of op) env.timestamp
    && has_blocked_dependency env s id

abbrev pub count_match : Env → State → OperationStatus → OpId → ℕ → Option Op → ℕ
count_match env s status id count none = count
count_match env s status id count (some op) = if counts env s status id op then count + 1 else count

unfoldable pub count_matches : Env → State → OperationStatus → List OpId → ℕ → ℕ
count_matches env s status [] count = count
count_matches env s status (id ∷ ids) count =
    count_matches env s status ids (count_match env s status id count (s.ops id))

unfoldable pub get_operation_count_by_status : Env → State → OperationStatus → ℕ
unfolding count_matches
get_operation_count_by_status env s status = count_matches env s status (pending s) 0

-- The match on the status asked for in `get_operations_by_status`.
unfoldable pub matches : Env → State → OperationStatus → OpId → Op → Bool
matches env s cancelled id op = op.cancelled
matches env s executed id op = op.executed
matches env s expired id op =
    not op.executed && not op.cancelled && is_past (expiry_of op) env.timestamp
matches env s ready id op =
    not op.executed
    && not op.cancelled
    && leb op.eta env.timestamp
    && is_within (expiry_of op) env.timestamp
    && not (has_blocked_dependency env s id)
matches env s queued id op =
    not op.executed
    && not op.cancelled
    && ltb env.timestamp op.eta
    && not (has_blocked_dependency env s id)
matches env s blocked id op =
    not op.executed
    && not op.cancelled
    && is_within (expiry_of op) env.timestamp
    && has_blocked_dependency env s id

abbrev pub push_match :
    Env → State → OperationStatus → OpId → List (OpId × Op) → Option Op → List (OpId × Op)
push_match env s status id result none = result
push_match env s status id result (some op) =
    if matches env s status id op then result ++ (id, op) ∷ [] else result

unfoldable pub collect_matches :
    Env → State → OperationStatus → List OpId → List (OpId × Op) → List (OpId × Op)
collect_matches env s status [] result = result
collect_matches env s status (id ∷ ids) result =
    collect_matches env s status ids (push_match env s status id result (s.ops id))

unfoldable pub get_operations_by_status : Env → State → OperationStatus → List (OpId × Op)
unfolding collect_matches
get_operations_by_status env s status = collect_matches env s status (pending s) []

unfoldable pub get_max_pending_ops : State → ℕ
get_max_pending_ops s = unwrap_or s.max_pending_ops 0

unfoldable pub min_delay : State → Call ℕ
min_delay s = ok_or s.min_delay TimelockError.not_initialized

unfoldable pub admin : State → Call Address
admin s = ok_or s.admin TimelockError.not_initialized
