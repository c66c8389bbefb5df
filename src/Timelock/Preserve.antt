-- ===== src/Timelock/Preserve.antt =====
-- Each call of router-timelock that succeeds keeps the storage well formed.
use mathlib.Core.Path.{subst}
use stellar_router.Prelude.{
  ℕ, String, true, Option, none, some, List, [], ◌≡◌, refl, sym, inl, inr, arith, Option-cases,
  insert, ◌<◌,
}
use stellar_router.Common.{Address, Env, Crypto, ok}
use stellar_router.Timelock
use stellar_router.Timelock.{
  OpId, Op, publish, op_cancelled, op_executed, op_description_updated, min_delay_updated,
  admin_transferred,
}
use stellar_router.Timelock.Deps.{pending}
use stellar_router.Timelock.Calls.{
  initialize, queue, cancel, execute, update_description, set_min_delay, transfer_admin,
}
use stellar_router.Timelock.Invariant.{
  IsValid, Configured, finalize-IsValid, enqueue-IsValid, publish-IsValid,
}
use stellar_router.Timelock.Outcomes.{cancel-Cancels, execute-Executes, queue-Queues}

abbrev State : Type 0
State = Timelock.Timelock

-- Before its initialization a well-formed storage has no operation pending.
unconfigured :
    (a : Option Address) (d : Option ℕ) (ids : List OpId) → a ≡ none → Configured a d ids → ids ≡ []
unconfigured none none ids e h = h
unconfigured none (some d) ids e h = absurd h
unconfigured (some a) d ids e h = cc

initialized-IsValid :
    (s : State) (admin : Address) (d cap : ℕ)
    → IsValid s
    → s.admin ≡ none
    → 0 < d
    → IsValid (record s { admin = some admin; min_delay = some d; max_pending_ops = some cap })
initialized-IsValid s admin d cap v e p = record {
  indexed = v.indexed;
  deps_stored = v.deps_stored;
  pending_distinct = v.pending_distinct;
  finalized_distinct = v.finalized_distinct;
  configured = p;
  within_cap = rw (unconfigured s.admin s.min_delay (pending s) e v.configured) (λ h. omega arith);
}

pub initialize-IsValid :
    (s : State) (admin : Address) (min_delay max_pending_ops : ℕ) (t : State)
    → IsValid s
    → initialize s admin min_delay max_pending_ops ≡ ok t
    → IsValid t
unfolding initialize
initialize-IsValid s admin min_delay max_pending_ops t v h =
    let e : t ≡ record s {
      admin = some admin;
      min_delay = some min_delay;
      max_pending_ops = some max_pending_ops;
    } =
      ground arith in
    subst IsValid (sym e)
      (initialized-IsValid s admin min_delay max_pending_ops v (ground arith) (ground arith))

pub cancel-IsValid :
    (env : Env) (s : State) (caller : Address) (id : OpId) (t : State)
    → IsValid s
    → cancel env s caller id ≡ ok t
    → IsValid t
cancel-IsValid env s caller id t v h =
    let c = cancel-Cancels env s caller id t h in
    subst IsValid (sym c.result) (
      publish-IsValid _ (op_cancelled id) (
        finalize-IsValid s id c.op (record (c.op) { cancelled = true }) v c.stored c.not_executed
          c.not_cancelled (rw c.not_executed) (rw c.not_executed) refl refl))

pub execute-IsValid :
    (env : Env) (s : State) (caller : Address) (id : OpId) (t : State)
    → IsValid s
    → execute env s caller id ≡ ok t
    → IsValid t
execute-IsValid env s caller id t v h =
    let c = execute-Executes env s caller id t h in
    subst IsValid (sym c.result) (
      publish-IsValid _ (op_executed id c.op.target) (
        finalize-IsValid s id c.op (record (c.op) { executed = true }) v c.stored c.not_executed
          c.not_cancelled refl c.not_cancelled refl refl))

pub queue-IsValid :
    (crypto : Crypto) (env : Env) (s : State) (proposer : Address) (description : String)
    (target : Address) (delay grace : ℕ) (deps : List OpId) (id : OpId) (t : State)
    → IsValid s
    → queue crypto env s proposer description target delay grace deps ≡ ok (id, t)
    → IsValid t
queue-IsValid crypto env s proposer description target delay grace deps id t v h =
    let q = queue-Queues crypto env s proposer description target delay grace deps id t h in
    subst IsValid (sym q.result) (
      enqueue-IsValid s id deps _ proposer v q.by_admin.stored_admin q.fresh refl refl q.fits
        q.short_grace q.room)

redescribed-IsValid :
    (s : State) (id : OpId) (op : Op) (text : String)
    → IsValid s
    → s.ops id ≡ some op
    → IsValid (record s { ops = insert s.ops id (record op { description = text }) })
redescribed-IsValid s id op text v e = record {
  indexed = λ j. ground (arith, v.indexed j);
  deps_stored = λ j h. ground (arith, v.deps_stored j);
  pending_distinct = v.pending_distinct;
  finalized_distinct = v.finalized_distinct;
  configured = v.configured;
  within_cap = v.within_cap;
}

pub update_description-IsValid :
    (env : Env) (s : State) (caller : Address) (id : OpId) (text : String) (t : State)
    → IsValid s
    → update_description env s caller id text ≡ ok t
    → IsValid t
unfolding update_description
update_description-IsValid env s caller id text t v h = elim (Option-cases (s.ops id)) [
  | inl e ↦ absurd (ground arith)
  | inr (op, e) ↦
      let w : t
          ≡ publish (record s { ops = insert s.ops id (record op { description = text }) })
              (op_description_updated id text) =
        ground arith in
      subst IsValid (sym w) (publish-IsValid _ _ (redescribed-IsValid s id op text v e))
]

reconfigured :
    (a : Option Address) (d : Option ℕ) (ids : List OpId) (caller new_admin : Address)
    (new_delay : ℕ)
    → a ≡ some caller
    → Configured a d ids
    → 0 < new_delay
    → Configured a (some new_delay) ids × Configured (some new_admin) d ids
reconfigured none d ids caller new_admin n e h p = cc
reconfigured (some a) none ids caller new_admin n e h p = absurd h
reconfigured (some a) (some d) ids caller new_admin n e h p = (p, h)

pub set_min_delay-IsValid :
    (env : Env) (s : State) (caller : Address) (d : ℕ) (t : State)
    → IsValid s
    → set_min_delay env s caller d ≡ ok t
    → IsValid t
unfolding set_min_delay
set_min_delay-IsValid env s caller d t v h = elim (Option-cases s.min_delay) [
  | inl e ↦ absurd (ground arith)
  | inr (old, e) ↦
      let w : t ≡ publish (record s { min_delay = some d }) (min_delay_updated old d) =
        ground arith in
      subst IsValid (sym w) (
        publish-IsValid _ _ (record {
          indexed = v.indexed;
          deps_stored = v.deps_stored;
          pending_distinct = v.pending_distinct;
          finalized_distinct = v.finalized_distinct;
          configured =
              (reconfigured s.admin s.min_delay (pending s) caller caller d (ground arith)
                v.configured (ground arith)).0;
          within_cap = v.within_cap;
        }))
]

pub transfer_admin-IsValid :
    (env : Env) (s : State) (current new_admin : Address) (t : State)
    → IsValid s
    → transfer_admin env s current new_admin ≡ ok t
    → IsValid t
unfolding transfer_admin
transfer_admin-IsValid env s current new_admin t v h =
    let w : t
        ≡ publish (record s { admin = some new_admin }) (admin_transferred current new_admin) =
      ground arith in
    subst IsValid (sym w) (
      publish-IsValid _ _ (record {
        indexed = v.indexed;
        deps_stored = v.deps_stored;
        pending_distinct = v.pending_distinct;
        finalized_distinct = v.finalized_distinct;
        configured =
            (reconfigured s.admin s.min_delay (pending s) current new_admin 1 (ground arith)
              v.configured (omega arith)).1;
        within_cap = v.within_cap;
      }))
