-- ===== src/Timelock/StatusLaws.antt =====
-- The status queries of router-timelock against `execute`, and against one another.
use stellar_router.Prelude.{
  ℕ, ◌+◌, ◌≤◌, ◌<◌, Bool, true, false, ◌&&◌, Option, none, some, List, [], ◌∷◌, ◌≡◌, refl, ◌↔◌, inl,
  inr, arith, any, All, Option-cases,
}
use stellar_router.Prelude.Words.{u64_mod}
use stellar_router.Common.{Address, Env, ok, IsAdmin}
use stellar_router.Timelock
use stellar_router.Timelock.{
  OpId, Op, OperationStatus, queued, ready, executed, cancelled, expired, blocked,
}
use stellar_router.Timelock.Deps.{
  load_deps, is_executed, blocks, blocked_levels, has_blocked_dependency,
}
use stellar_router.Timelock.Calls.{execute}
use stellar_router.Timelock.Status.{get_operation_status, status_of, matches}
use stellar_router.Timelock.Invariant.{IsValid, Indexed}
use stellar_router.Timelock.Outcomes.{Executes, Executed, execute-Executes, Executes-execute}

abbrev State : Type 0
State = Timelock.Timelock

-- An executed dependency of a well-formed storage does not block.
executed_not_blocking :
    (now : ℕ) (rest p f : Bool) (o : Option Op)
    → Indexed p f o
    → is_executed o ≡ true
    → blocks now rest o ≡ false
unfolding blocks
executed_not_blocking now rest p f none v h = cc
executed_not_blocking now rest p f (some op) v h = ground arith

Executed-All :
    (s : State) (now levels : ℕ) (ids : List OpId)
    → IsValid s
    → All (Executed s) ids
    → any (λ d. blocks now (blocked_levels now levels s d) (s.ops d)) ids ≡ false
Executed-All s now levels [] v h = refl
Executed-All s now levels (i ∷ ids) v h = ground (
  arith,
  executed_not_blocking now (blocked_levels now levels s i) _ _ (s.ops i) (v.indexed i) h.0,
  Executed-All s now levels ids v h.1,
)

-- With every dependency executed nothing blocks the operation.
Executed-not_blocked :
    (env : Env) (s : State) (id : OpId)
    → IsValid s
    → All (Executed s) (load_deps s id)
    → has_blocked_dependency env s id ≡ false
unfolding has_blocked_dependency
Executed-not_blocked env s id v h = Executed-All s env.timestamp 8 (load_deps s id) v h

-- The conditions that the status `Ready` and the dependencies put on an operation.
ready_inv :
    (env : Env) (s : State) (id : OpId)
    → get_operation_status env s id ≡ some ready
    → (op : Op) × (s.ops id ≡ some op)
      × (op.executed ≡ false)
      × (op.cancelled ≡ false)
      × (op.eta ≤ env.timestamp)
      × (env.timestamp ≤ op.eta + op.grace_period_seconds)
      × (op.eta + op.grace_period_seconds < u64_mod)
unfolding get_operation_status
ready_inv env s id h = elim (Option-cases (s.ops id)) [
  | inl e ↦ absurd (ground arith)
  | inr (op, e) ↦ (op, e, ground arith, ground arith, ground arith, ground arith, ground arith)
]

Executes-ready :
    (env : Env) (s : State) (caller : Address) (id : OpId) (t : State)
    → IsValid s
    → Executes env s caller id t
    → get_operation_status env s id ≡ some ready
unfolding get_operation_status
Executes-ready env s caller id t v x = ground (
  arith,
  x.stored,
  x.not_early,
  x.not_late,
  x.fits,
  Executed-not_blocked env s id v x.dependencies,
)

-- On a well-formed storage an authorized call of `execute` by the administrator succeeds exactly when
-- the operation's status is `Ready` and each of its recorded dependencies was executed.
pub execute_ready_iff :
    (env : Env) (s : State) (caller : Address) (id : OpId)
    → IsValid s
    → IsAdmin env s.admin caller
    → ((t : State) × (execute env s caller id ≡ ok t))
      ↔ ((get_operation_status env s id ≡ some ready) × All (Executed s) (load_deps s id))
execute_ready_iff env s caller id v a = (forth, back)
  where
    forth :
        (t : State) × (execute env s caller id ≡ ok t)
        → (get_operation_status env s id ≡ some ready) × All (Executed s) (load_deps s id)
    forth (t, h) =
        let x = execute-Executes env s caller id t h in
        (Executes-ready env s caller id t v x, x.dependencies)

    back :
        (get_operation_status env s id ≡ some ready) × All (Executed s) (load_deps s id)
        → (t : State) × (execute env s caller id ≡ ok t)
    back (h, deps) =
        let (op, stored, e, c, early, late, fits) = ready_inv env s id h in
        (
          _,
          Executes-execute env s caller id _ (record {
            by_admin = a;
            op = op;
            stored = stored;
            not_executed = e;
            not_cancelled = c;
            not_early = early;
            not_late = late;
            fits = fits;
            dependencies = deps;
            result = refl;
          }),
        )

-- The two queries by status and `get_operation_status` agree on an operation that is not both executed
-- and cancelled and whose grace period ends within 64 bits.
pub matches_iff :
    (env : Env) (s : State) (status : OperationStatus) (id : OpId) (op : Op)
    → (op.executed && op.cancelled) ≡ false
    → op.eta + op.grace_period_seconds < u64_mod
    → (matches env s status id op ≡ true) ↔ (status_of env s id op ≡ status)
unfolding matches status_of
matches_iff env s cancelled id op once fits = ground arith
matches_iff env s executed id op once fits = ground arith
matches_iff env s expired id op once fits = ground arith
matches_iff env s ready id op once fits = ground arith
matches_iff env s queued id op once fits = ground arith
matches_iff env s blocked id op once fits = ground arith
