-- ===== src/Timelock/Executing.antt =====
-- When `execute` of router-timelock succeeds, and the whole storage that it leaves, written out without
-- the helpers of the code.
use stellar_router.Prelude.{
  ◌+◌, ◌≤◌, ◌<◌, true, false, ◌++◌, some, List, [], ◌∷◌, ◌≡◌, ◌↔◌, inl, inr, arith, unwrap_or, All,
  insert, without, Option-cases,
}
use stellar_router.Prelude.Words.{u64_mod}
use stellar_router.Common.{Address, Env, ok, IsAdmin}
use stellar_router.Timelock
use stellar_router.Timelock.{Op, OpId, op_executed}
use stellar_router.Timelock.Deps.{load_deps, remove_from_pending_ops, add_to_finalized_ops}
use stellar_router.Timelock.Calls.{execute, finalize}
use stellar_router.Timelock.Outcomes.{Executed, execute-Executes, Executes-execute}

abbrev State : Type 0
State = Timelock.Timelock

-- An operation is stored under an identifier, and it has been executed.
pub record IsDone (s : State) (id : OpId) : Type 0 where
  pub op : Op
  pub stored : s.ops id ≡ some op
  pub was_executed : op.executed ≡ true

-- A call of `execute` that succeeds: what it needs, and the storage that it leaves.
pub record ExecuteEffect (env : Env) (s : State) (caller : Address) (id : OpId) (t : State)
    : Type 0 where
  pub by_admin : IsAdmin env s.admin caller
  pub op : Op
  pub stored : s.ops id ≡ some op
  pub not_executed : op.executed ≡ false
  pub not_cancelled : op.cancelled ≡ false
  pub not_early : op.eta ≤ env.timestamp
  pub not_late : env.timestamp ≤ op.eta + op.grace_period_seconds
  pub fits : op.eta + op.grace_period_seconds < u64_mod
  pub dependencies : All (IsDone s) (unwrap_or (s.deps id) [])
  pub result : t ≡ record s {
    ops = insert s.ops id (record op { executed = true });
    pending_ops = some (without id (unwrap_or s.pending_ops []));
    finalized_ops = some (unwrap_or s.finalized_ops [] ++ id ∷ []);
    events = s.events ++ op_executed id op.target ∷ [];
  }

Executed-IsDone : (s : State) (id : OpId) → Executed s id → IsDone s id
Executed-IsDone s id h = elim (Option-cases (s.ops id)) [
  | inl e ↦ absurd (ground arith)
  | inr (op, e) ↦ record { op = op; stored = e; was_executed = ground arith }
]

Executed-All : (s : State) (ids : List OpId) → All (Executed s) ids → All (IsDone s) ids
Executed-All s [] h = tt
Executed-All s (d ∷ ids) h = (Executed-IsDone s d h.0, Executed-All s ids h.1)

IsDone-All : (s : State) (ids : List OpId) → All (IsDone s) ids → All (Executed s) ids
IsDone-All s [] h = tt
IsDone-All s (d ∷ ids) h = (rw h.0.stored h.0.was_executed, IsDone-All s ids h.1)

-- A call of `execute` succeeds exactly when the administrator authorized it, the operation is stored
-- and neither executed nor cancelled, the time lies between its eta and the end of its grace period,
-- that end fits in 64 bits, and each recorded dependency is stored and was executed. The storage is
-- then as before but for this: the operation is marked as executed, its identifier is dropped from the
-- pending index and added to the end of the finalized index, and `op_executed` is published.
pub execute_iff :
    (env : Env) (s : State) (caller : Address) (id : OpId) (t : State)
    → (execute env s caller id ≡ ok t) ↔ ExecuteEffect env s caller id t
unfolding finalize remove_from_pending_ops add_to_finalized_ops load_deps
execute_iff env s caller id t = (
  λ h.
      let x = execute-Executes env s caller id t h in
      record {
        by_admin = x.by_admin;
        op = x.op;
        stored = x.stored;
        not_executed = x.not_executed;
        not_cancelled = x.not_cancelled;
        not_early = x.not_early;
        not_late = x.not_late;
        fits = x.fits;
        dependencies = Executed-All s _ x.dependencies;
        result = x.result;
      },
  λ x. Executes-execute env s caller id t (record {
    by_admin = x.by_admin;
    op = x.op;
    stored = x.stored;
    not_executed = x.not_executed;
    not_cancelled = x.not_cancelled;
    not_early = x.not_early;
    not_late = x.not_late;
    fits = x.fits;
    dependencies = IsDone-All s _ x.dependencies;
    result = x.result;
  }),
)
