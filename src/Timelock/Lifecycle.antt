-- ===== src/Timelock/Lifecycle.antt =====
-- The life of one operation identifier of router-timelock as an abstract machine, which every call of
-- the contract refines.
use stellar_router.Prelude.{
  ℕ, ◌+◌, ◌≤◌, ◌<◌, String, true, false, Option, none, some, List, [], ◌∷◌, ◌≡◌, refl, sym, ap, ◌∙◌,
  ◌||◌, inl, inr, arith, Option-cases, Bool-cases, ◌==◌, ==→eq, insert, if◌then◌else◌,
}
use mathlib.Core.Path.{subst}
use stellar_router.Prelude.Words.{u64_mod}
use stellar_router.Common.{Address, Env, Crypto, ok}
use stellar_router.Timelock
use stellar_router.Timelock.{OpId, Op}
use stellar_router.Timelock.Deps.{is_expired}
use stellar_router.Timelock.Calls
use stellar_router.Timelock.Calls.{new_op, derive_op_id, enqueue, finalize}
use stellar_router.Timelock.Cleanup
use stellar_router.Timelock.Invariant.{IsValid, Configured}
use stellar_router.Timelock.Reclaim.{cleanup_expired-CleansUp}
use stellar_router.Timelock.Outcomes.{queue-Queues, cancel-Cancels, execute-Executes}

abbrev State : Type 0
State = Timelock.Timelock

-- Where an identifier stands. `waiting` has the eta and the grace period.
pub data Phase : Type 0 where
  absent done revoked : Phase
  waiting : ℕ → ℕ → Phase

pub phase_of : Op → Phase
phase_of op =
    if op.cancelled
    then revoked
    else if op.executed
    then done
    else waiting op.eta op.grace_period_seconds

pub phase : Option Op → Phase
unfolding phase_of
phase none = absent
phase (some op) = phase_of op

-- What one call at the time `now` may do to the identifier `id`.
pub data Move (crypto : Crypto) (now : ℕ) (id : OpId) : Phase → Phase → Type 0 where
  rest : (p : Phase) → Move crypto now id p p
  enter :
      (description : String) (target : Address) (eta grace : ℕ)
      → now < eta
      → id ≡ derive_op_id crypto description target eta
      → Move crypto now id absent (waiting eta grace)
  perform :
      (eta grace : ℕ) → eta ≤ now → now ≤ eta + grace → Move crypto now id (waiting eta grace) done
  revoke : (eta grace : ℕ) → Move crypto now id (waiting eta grace) revoked
  expire :
      (eta grace : ℕ)
      → (eta + grace < u64_mod → eta + grace < now)
      → Move crypto now id (waiting eta grace) absent
  forget_done : Move crypto now id done absent
  forget_revoked : Move crypto now id revoked absent

-- An identifier that a call does not write rests.
pub Move-same :
    (crypto : Crypto) (now : ℕ) (id : OpId) {p q : Phase} → p ≡ q → Move crypto now id p q
Move-same crypto now id {p} e = subst (Move crypto now id p) e (rest p)

pub ops-enqueue :
    (s : State) (id : OpId) (deps : List OpId) (op : Op) (j : OpId)
    → (enqueue s id deps op).ops j ≡ insert s.ops id op j
unfolding enqueue
ops-enqueue s id [] op j = refl
ops-enqueue s id (d ∷ ds) op j = refl

pub ops-finalize :
    (s : State) (id : OpId) (op : Op) (j : OpId) → (finalize s id op).ops j ≡ insert s.ops id op j
unfolding finalize
ops-finalize s id op j = refl

-- A call that writes one identifier moves that one, and the others rest.
Move-insert :
    (crypto : Crypto) (now : ℕ) (s t : State) (id : OpId) (op : Op)
    → ((j : OpId) → t.ops j ≡ insert s.ops id op j)
    → Move crypto now id (phase (s.ops id)) (phase (some op))
    → (j : OpId) → Move crypto now j (phase (s.ops j)) (phase (t.ops j))
Move-insert crypto now s t id op writes m j = elim (Bool-cases (j == id)) [
  | inl e ↦
      rw (writes j, e)
        (subst (λ i. Move crypto now i (phase (s.ops i)) (phase (some op))) (sym (==→eq j id e)) m)
  | inr e ↦ rw (writes j, e) (rest (phase (s.ops j)))
]

pub positive_delay :
    (a : Option Address) (d : Option ℕ) (ids : List OpId) (m : ℕ)
    → d ≡ some m
    → Configured a d ids
    → 0 < m
positive_delay none none ids m e h = cc
positive_delay none (some d) ids m e h = absurd h
positive_delay (some a) none ids m e h = absurd h
positive_delay (some a) (some d) ids m e h = ground arith

pub queue-Move :
    (crypto : Crypto) (env : Env) (s : State) (proposer : Address) (text : String)
    (target : Address) (delay grace : ℕ) (deps : List OpId) (id : OpId) (t : State) (j : OpId)
    → IsValid s
    → Calls.queue crypto env s proposer text target delay grace deps ≡ ok (id, t)
    → Move crypto env.timestamp j (phase (s.ops j)) (phase (t.ops j))
unfolding phase
queue-Move crypto env s proposer text target delay grace deps id t j v h =
    let q = queue-Queues crypto env s proposer text target delay grace deps id t h in
    let op = new_op proposer text target (env.timestamp + delay) grace in
    Move-insert crypto env.timestamp s t id op
      (λ i. ap (λ (u : State). u.ops i) q.result ∙ ops-enqueue s id deps op i)
      (rw q.fresh (
        enter text target (env.timestamp + delay) grace
          (omega (
            arith,
            positive_delay s.admin s.min_delay _ q.minimum q.stored_minimum v.configured,
            q.long_enough,
          ))
          q.named))
      j

phase_waiting :
    (op : Op)
    → op.executed ≡ false
    → op.cancelled ≡ false
    → phase (some op) ≡ waiting op.eta op.grace_period_seconds
unfolding phase
phase_waiting op e c = ground arith

pub cancel-Move :
    (crypto : Crypto) (env : Env) (s : State) (caller : Address) (id : OpId) (t : State) (j : OpId)
    → Calls.cancel env s caller id ≡ ok t
    → Move crypto env.timestamp j (phase (s.ops j)) (phase (t.ops j))
unfolding phase
cancel-Move crypto env s caller id t j h =
    let c = cancel-Cancels env s caller id t h in
    let op = record (c.op) { cancelled = true } in
    Move-insert crypto env.timestamp s t id op
      (λ i. ap (λ (u : State). u.ops i) c.result ∙ ops-finalize s id op i)
      (rw (c.stored, phase_waiting c.op c.not_executed c.not_cancelled)
        (revoke c.op.eta c.op.grace_period_seconds))
      j

phase_done : (op : Op) → op.executed ≡ true → op.cancelled ≡ false → phase (some op) ≡ done
unfolding phase
phase_done op e c = ground arith

pub execute-Move :
    (crypto : Crypto) (env : Env) (s : State) (caller : Address) (id : OpId) (t : State) (j : OpId)
    → Calls.execute env s caller id ≡ ok t
    → Move crypto env.timestamp j (phase (s.ops j)) (phase (t.ops j))
execute-Move crypto env s caller id t j h =
    let c = execute-Executes env s caller id t h in
    let op = record (c.op) { executed = true } in
    Move-insert crypto env.timestamp s t id op
      (λ i. ap (λ (u : State). u.ops i) c.result ∙ ops-finalize s id op i)
      (rw
        (
          c.stored,
          phase_waiting c.op c.not_executed c.not_cancelled,
          phase_done op refl c.not_cancelled,
        )
        (perform c.op.eta c.op.grace_period_seconds c.not_early c.not_late))
      j

pub redescribe-Move :
    (crypto : Crypto) (env : Env) (s : State) (caller : Address) (id : OpId) (text : String)
    (t : State) (j : OpId)
    → Calls.update_description env s caller id text ≡ ok t
    → Move crypto env.timestamp j (phase (s.ops j)) (phase (t.ops j))
unfolding Calls.update_description phase
redescribe-Move crypto env s caller id text t j h = elim (Option-cases (s.ops id)) [
  | inl e ↦ absurd (ground arith)
  | inr (op, e) ↦
      let op' = record op { description = text } in
      Move-insert crypto env.timestamp s t id op' (λ i. ground arith)
        (rw e (Move-same crypto env.timestamp id refl)) j
]

-- Anything but a pending operation within its grace period may go.
gone-Move :
    (crypto : Crypto) (now : ℕ) (j : OpId) (op : Op)
    → (op.executed || op.cancelled || is_expired op now) ≡ true
    → Move crypto now j (phase (some op)) absent
unfolding phase is_expired
gone-Move crypto now j op h = elim (Bool-cases op.cancelled) [
  | inl c ↦ rw c forget_revoked
  | inr c ↦ elim (Bool-cases op.executed) [
    | inl e ↦ rw (c, e) forget_done
    | inr e ↦ rw (c, e) (expire op.eta op.grace_period_seconds (λ p. ground arith))
  ]
]

pub cleanup-Move :
    (crypto : Crypto) (env : Env) (s : State) (caller : Address) (limit n : ℕ) (t : State)
    (j : OpId)
    → IsValid s
    → Cleanup.cleanup_expired env s caller limit ≡ ok (n, t)
    → Move crypto env.timestamp j (phase (s.ops j)) (phase (t.ops j))
unfolding phase
cleanup-Move crypto env s caller limit n t j v h =
    let c = cleanup_expired-CleansUp env s caller limit n t v h in
    elim (Option-cases (s.ops j)) [
      | inl e ↦ rw (e, c.absent j e) (rest absent)
      | inr (op, e) ↦ elim (c.fate j op e) [
        | inl left ↦ Move-same crypto env.timestamp j (ap phase (sym left.0))
        | inr (gone, may) ↦ rw (e, gone.0) (gone-Move crypto env.timestamp j op may.0)
      ]
    ]

pub initialize-ops :
    (s : State) (admin : Address) (d cap : ℕ) (t : State) (j : OpId)
    → Calls.initialize s admin d cap ≡ ok t
    → s.ops j ≡ t.ops j
unfolding Calls.initialize
initialize-ops s admin d cap t j h = ground arith

pub set_min_delay-ops :
    (env : Env) (s : State) (caller : Address) (d : ℕ) (t : State) (j : OpId)
    → Calls.set_min_delay env s caller d ≡ ok t
    → s.ops j ≡ t.ops j
unfolding Calls.set_min_delay
set_min_delay-ops env s caller d t j h = ground arith

pub transfer_admin-ops :
    (env : Env) (s : State) (a b : Address) (t : State) (j : OpId)
    → Calls.transfer_admin env s a b ≡ ok t
    → s.ops j ≡ t.ops j
unfolding Calls.transfer_admin
transfer_admin-ops env s a b t j h = ground arith
