-- ===== src/Timelock/Outcomes.antt =====
-- When the calls of router-timelock succeed, and what they then write: each call is inverted into the
-- checks that it made.
use stellar_router.Prelude.{
  ℕ, ◌+◌, ◌≤◌, ◌<◌, String, true, false, not, none, some, List, [], ◌∷◌, ◌≡◌, refl, inl, inr, arith,
  length, unwrap_or, Option-cases, All,
}
use stellar_router.Prelude.Words.{u64_mod}
use stellar_router.Common.{Address, Env, Crypto, ok, IsAdmin, try_for_each, fail_if}
use stellar_router.Timelock
use stellar_router.Timelock.{
  Op, OpId, Call, TimelockError, publish, max_grace_period_seconds, op_cancelled, op_executed,
}
use stellar_router.Timelock.Deps.{pending, is_executed, require_dependencies_executed, load_deps}
use stellar_router.Timelock.Calls.{
  authorize, enqueue, finalize, cancel, execute, queue, derive_op_id, check_dependency, new_op,
}

abbrev State : Type 0
State = Timelock.Timelock

authorize-IsAdmin :
    (env : Env) (s : State) (caller : Address)
    → authorize env s caller ≡ ok tt
    → IsAdmin env s.admin caller
unfolding authorize
authorize-IsAdmin env s caller h = ground arith

pub IsAdmin-authorize :
    (env : Env) (s : State) (caller : Address)
    → IsAdmin env s.admin caller
    → authorize env s caller ≡ ok tt
unfolding authorize
IsAdmin-authorize env s caller h = ground arith

-- A cancellation that succeeds found a pending operation.
pub record Cancels (env : Env) (s : State) (caller : Address) (id : OpId) (t : State) : Type 0 where
  pub by_admin : IsAdmin env s.admin caller
  pub op : Op
  pub stored : s.ops id ≡ some op
  pub not_executed : op.executed ≡ false
  pub not_cancelled : op.cancelled ≡ false
  pub result : t ≡ publish (finalize s id (record op { cancelled = true })) (op_cancelled id)

pub cancel-Cancels :
    (env : Env) (s : State) (caller : Address) (id : OpId) (t : State)
    → cancel env s caller id ≡ ok t
    → Cancels env s caller id t
unfolding cancel
cancel-Cancels env s caller id t h = elim (Option-cases (s.ops id)) [
  | inl e ↦ absurd (ground arith)
  | inr (op, e) ↦ record {
    by_admin = ground arith;
    op = op;
    stored = e;
    not_executed = ground arith;
    not_cancelled = ground arith;
    result = ground arith;
  }
]

-- Each dependency recorded for the operation is stored, and has been executed.
abbrev pub Executed : State → OpId → Type 0
Executed s dep = is_executed (s.ops dep) ≡ true

pub record Executes (env : Env) (s : State) (caller : Address) (id : OpId) (t : State)
    : Type 0 where
  pub by_admin : IsAdmin env s.admin caller
  pub op : Op
  pub stored : s.ops id ≡ some op
  pub not_executed : op.executed ≡ false
  pub not_cancelled : op.cancelled ≡ false
  pub not_early : op.eta ≤ env.timestamp
  pub not_late : env.timestamp ≤ op.eta + op.grace_period_seconds
  pub fits : op.eta + op.grace_period_seconds < u64_mod
  pub dependencies : All (Executed s) (load_deps s id)
  pub result :
      t ≡ publish (finalize s id (record op { executed = true })) (op_executed id op.target)

dependencies-All :
    (s : State) (ids : List OpId)
    → try_for_each
        (λ dep. fail_if (not (is_executed (s.ops dep))) TimelockError.dependency_not_executed)
        ids
      ≡ ok tt
    → All (Executed s) ids
dependencies-All s [] h = tt
dependencies-All s (d ∷ ids) h = ground (arith, dependencies-All s ids)

All-dependencies :
    (s : State) (ids : List OpId)
    → All (Executed s) ids
    → try_for_each
        (λ dep. fail_if (not (is_executed (s.ops dep))) TimelockError.dependency_not_executed)
        ids
      ≡ ok tt
All-dependencies s [] h = refl
All-dependencies s (d ∷ ids) h = ground (arith, All-dependencies s ids h.1)

pub require_dependencies_executed-All :
    (s : State) (id : OpId)
    → require_dependencies_executed s id ≡ ok tt
    → All (Executed s) (load_deps s id)
unfolding require_dependencies_executed
require_dependencies_executed-All s id h = dependencies-All s (load_deps s id) h

pub execute-Executes :
    (env : Env) (s : State) (caller : Address) (id : OpId) (t : State)
    → execute env s caller id ≡ ok t
    → Executes env s caller id t
unfolding execute
execute-Executes env s caller id t h = elim (Option-cases (s.ops id)) [
  | inl e ↦ absurd (ground arith)
  | inr (op, e) ↦ record {
    by_admin = ground arith;
    op = op;
    stored = e;
    not_executed = ground arith;
    not_cancelled = ground arith;
    not_early = ground arith;
    not_late = ground arith;
    fits = ground arith;
    dependencies = ground (arith, require_dependencies_executed-All s id);
    result = ground arith;
  }
]

All-require_dependencies_executed :
    (s : State) (id : OpId)
    → All (Executed s) (load_deps s id)
    → require_dependencies_executed s id ≡ ok tt
unfolding require_dependencies_executed
All-require_dependencies_executed s id h = All-dependencies s (load_deps s id) h

pub Executes-execute :
    (env : Env) (s : State) (caller : Address) (id : OpId) (t : State)
    → Executes env s caller id t
    → execute env s caller id ≡ ok t
unfolding execute
Executes-execute env s caller id t h =
    ground (arith, All-require_dependencies_executed s id h.dependencies)

-- What a call of `queue` that succeeds has checked, and what it stores.
pub record Queues (crypto : Crypto) (env : Env) (s : State) (proposer : Address)
    (description : String) (target : Address) (delay grace : ℕ) (deps : List OpId) (id : OpId)
    (t : State) : Type 0 where
  pub by_admin : IsAdmin env s.admin proposer
  pub minimum : ℕ
  pub stored_minimum : s.min_delay ≡ some minimum
  pub long_enough : minimum ≤ delay
  pub short_grace : grace ≤ max_grace_period_seconds
  pub room : 0 < unwrap_or s.max_pending_ops 0 → length (pending s) < unwrap_or s.max_pending_ops 0
  pub fits : env.timestamp + delay < u64_mod
  pub named : id ≡ derive_op_id crypto description target (env.timestamp + delay)
  pub fresh : s.ops id ≡ none
  pub checked : try_for_each (check_dependency s id) deps ≡ ok tt
  pub result :
      t ≡ enqueue s id deps (new_op proposer description target (env.timestamp + delay) grace)

pub queue-Queues :
    (crypto : Crypto) (env : Env) (s : State) (proposer : Address) (description : String)
    (target : Address) (delay grace : ℕ) (deps : List OpId) (id : OpId) (t : State)
    → queue crypto env s proposer description target delay grace deps ≡ ok (id, t)
    → Queues crypto env s proposer description target delay grace deps id t
unfolding queue
queue-Queues crypto env s proposer description target delay grace deps id t h =
    elim (Option-cases s.min_delay) [
      | inl e ↦ absurd (ground arith)
      | inr (m, e) ↦ record {
        by_admin = ground arith;
        minimum = m;
        stored_minimum = e;
        long_enough = ground arith;
        short_grace = ground arith;
        room = λ p. ground arith;
        fits = ground arith;
        named = ground arith;
        fresh = ground arith;
        checked = ground arith;
        result = ground arith;
      }
    ]

pub Queues-queue :
    (crypto : Crypto) (env : Env) (s : State) (proposer : Address) (description : String)
    (target : Address) (delay grace : ℕ) (deps : List OpId) (id : OpId) (t : State)
    → Queues crypto env s proposer description target delay grace deps id t
    → queue crypto env s proposer description target delay grace deps ≡ ok (id, t)
unfolding queue
Queues-queue crypto env s proposer description target delay grace deps id t h =
    ground (arith, h.room)
