-- ===== src/Timelock/Queueing.antt =====
-- When `queue` of router-timelock succeeds, and the whole storage that it leaves, written out without
-- the helpers of the code.
use stellar_router.Prelude.{
  ℕ, ◌+◌, ◌≤◌, ◌<◌, String, false, ◌++◌, some, none, List, [], ◌∷◌, ◌≡◌, ◌↔◌, refl, sym, ap, ◌∙◌,
  inl, inr, arith, length, unwrap_or, ◌==◌, All, Map, insert, Option-cases,
}
use stellar_router.Prelude.Words.{u64_mod, to_be_bytes}
use stellar_router.Common.{Address, Env, Crypto, ok, IsAdmin, try_for_each}
use stellar_router.Timelock
use stellar_router.Timelock.{Op, OpId, max_grace_period_seconds, op_queued}
use stellar_router.Timelock.Calls.{queue, enqueue, derive_op_id, check_dependency}
use stellar_router.Timelock.Depth.{Chain, check_dependency_depth_iff}
use stellar_router.Timelock.Outcomes.{Queues, queue-Queues, Queues-queue}

abbrev State : Type 0
State = Timelock.Timelock

-- What `queue` asks of a dependency of `id`: it is another operation, it is stored, and no path of nine
-- dependencies begins at it.
pub record IsDependency (s : State) (id d : OpId) : Type 0 where
  pub other : (d == id) ≡ false
  pub op : Op
  pub stored : s.ops d ≡ some op
  pub shallow : ¬ Chain s 9 d

-- The recorded dependencies after an operation with some dependencies; an empty list is not recorded.
abbrev pub recorded : Map (List OpId) → OpId → List OpId → Map (List OpId)
recorded deps id [] = deps
recorded deps id (d ∷ ds) = insert deps id (d ∷ ds)

-- A call of `queue` that succeeds: what it needs, and the storage that it leaves.
pub record QueueEffect (crypto : Crypto) (env : Env) (s : State) (proposer : Address)
    (description : String) (target : Address) (delay grace : ℕ) (deps : List OpId) (id : OpId)
    (t : State) : Type 0 where
  pub by_admin : IsAdmin env s.admin proposer
  pub minimum : ℕ
  pub stored_minimum : s.min_delay ≡ some minimum
  pub long_enough : minimum ≤ delay
  pub short_grace : grace ≤ max_grace_period_seconds
  pub room :
      0 < unwrap_or s.max_pending_ops 0
      → length (unwrap_or s.pending_ops []) < unwrap_or s.max_pending_ops 0
  pub fits : env.timestamp + delay < u64_mod
  pub named :
      id
      ≡ crypto.sha256 (
          crypto.string_xdr description
          ++ (crypto.address_xdr target ++ to_be_bytes (env.timestamp + delay)))
  pub fresh : s.ops id ≡ none
  pub dependencies : All (IsDependency s id) deps
  pub op : Op
  pub queued : op ≡ record {
    proposer = proposer;
    description = description;
    target = target;
    eta = env.timestamp + delay;
    grace_period_seconds = grace;
    executed = false;
    cancelled = false;
  }
  pub result : t ≡ record s {
    ops = insert s.ops id op;
    deps = recorded s.deps id deps;
    pending_ops = some (unwrap_or s.pending_ops [] ++ id ∷ []);
    events = s.events ++ op_queued id target (env.timestamp + delay) grace ∷ [];
  }

check_dependency-IsDependency :
    (s : State) (id d : OpId) → check_dependency s id d ≡ ok tt → IsDependency s id d
unfolding check_dependency
check_dependency-IsDependency s id d h = elim (Option-cases (s.ops d)) [
  | inl e ↦ absurd (ground arith)
  | inr (op, e) ↦ record {
    other = ground arith;
    op = op;
    stored = e;
    shallow = (check_dependency_depth_iff s d).0.0 (ground arith);
  }
]

IsDependency-check_dependency :
    (s : State) (id d : OpId) → IsDependency s id d → check_dependency s id d ≡ ok tt
unfolding check_dependency
IsDependency-check_dependency s id d h =
    rw (h.other, h.stored) ((check_dependency_depth_iff s d).0.1 h.shallow)

checks-All :
    (s : State) (id : OpId) (ds : List OpId)
    → try_for_each (check_dependency s id) ds ≡ ok tt
    → All (IsDependency s id) ds
checks-All s id [] h = tt
checks-All s id (d ∷ ds) h =
    (check_dependency-IsDependency s id d (ground arith), checks-All s id ds (ground arith))

All-checks :
    (s : State) (id : OpId) (ds : List OpId)
    → All (IsDependency s id) ds
    → try_for_each (check_dependency s id) ds ≡ ok tt
All-checks s id [] h = refl
All-checks s id (d ∷ ds) h = rw (IsDependency-check_dependency s id d h.0) (All-checks s id ds h.1)

enqueue_lem :
    (s : State) (id : OpId) (deps : List OpId) (op : Op)
    → enqueue s id deps op ≡ record s {
      ops = insert s.ops id op;
      deps = recorded s.deps id deps;
      pending_ops = some (unwrap_or s.pending_ops [] ++ id ∷ []);
      events = s.events ++ op_queued id op.target op.eta op.grace_period_seconds ∷ [];
    }
unfolding enqueue
enqueue_lem s id [] op = refl
enqueue_lem s id (d ∷ ds) op = refl

Queues-QueueEffect :
    (crypto : Crypto) (env : Env) (s : State) (proposer : Address) (description : String)
    (target : Address) (delay grace : ℕ) (deps : List OpId) (id : OpId) (t : State)
    → Queues crypto env s proposer description target delay grace deps id t
    → QueueEffect crypto env s proposer description target delay grace deps id t
unfolding derive_op_id
Queues-QueueEffect crypto env s proposer description target delay grace deps id t x = record {
  by_admin = x.by_admin;
  minimum = x.minimum;
  stored_minimum = x.stored_minimum;
  long_enough = x.long_enough;
  short_grace = x.short_grace;
  room = x.room;
  fits = x.fits;
  named = x.named;
  fresh = x.fresh;
  dependencies = checks-All s id deps x.checked;
  op = _;
  queued = refl;
  result = x.result ∙ enqueue_lem s id deps _;
}

QueueEffect-Queues :
    (crypto : Crypto) (env : Env) (s : State) (proposer : Address) (description : String)
    (target : Address) (delay grace : ℕ) (deps : List OpId) (id : OpId) (t : State)
    → QueueEffect crypto env s proposer description target delay grace deps id t
    → Queues crypto env s proposer description target delay grace deps id t
unfolding derive_op_id
QueueEffect-Queues crypto env s proposer description target delay grace deps id t x = record {
  by_admin = x.by_admin;
  minimum = x.minimum;
  stored_minimum = x.stored_minimum;
  long_enough = x.long_enough;
  short_grace = x.short_grace;
  room = x.room;
  fits = x.fits;
  named = x.named;
  fresh = x.fresh;
  checked = All-checks s id deps x.dependencies;
  result =
      x.result
      ∙ ap
          (λ (o : Op). record s {
            ops = insert s.ops id o;
            deps = recorded s.deps id deps;
            pending_ops = some (unwrap_or s.pending_ops [] ++ id ∷ []);
            events = s.events ++ op_queued id target (env.timestamp + delay) grace ∷ [];
          })
          x.queued
      ∙ sym (enqueue_lem s id deps _);
}

-- A call of `queue` succeeds exactly when the administrator authorized it, the delay is at least the
-- stored minimum, the grace period is at most 30 days, the pending index has room under a positive
-- cap, the eta, the time and the delay together, fits in 64 bits, the returned identifier is the digest
-- of the description, the target and the eta, no operation is stored under it, and each dependency is
-- another operation, stored, at which no path of nine dependencies begins. The storage is then as before
-- but for this: the operation is stored, neither executed nor cancelled, a list of dependencies that is
-- not empty is recorded for it, its identifier is added to the end of the pending index, and
-- `op_queued` is published.
pub queue_iff :
    (crypto : Crypto) (env : Env) (s : State) (proposer : Address) (description : String)
    (target : Address) (delay grace : ℕ) (deps : List OpId) (id : OpId) (t : State)
    → (queue crypto env s proposer description target delay grace deps ≡ ok (id, t))
      ↔ QueueEffect crypto env s proposer description target delay grace deps id t
queue_iff crypto env s proposer description target delay grace deps id t = (
  λ h.
      Queues-QueueEffect crypto env s proposer description target delay grace deps id t
        (queue-Queues crypto env s proposer description target delay grace deps id t h),
  λ x.
      Queues-queue crypto env s proposer description target delay grace deps id t
        (QueueEffect-Queues crypto env s proposer description target delay grace deps id t x),
)
