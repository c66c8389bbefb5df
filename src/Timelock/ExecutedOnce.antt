-- ===== src/Timelock/ExecutedOnce.antt =====
-- No operation of router-timelock is executed twice, over any history at times that do not go back.
use stellar_router.Prelude.{
  ℕ, ◌≤◌, ◌++◌, String, true, List, [], ◌∷◌, ◌≡◌, refl, sym, ap, ◌∙◌, inl, inr, arith, Option-cases,
  IsDistinct,
}
use stellar_router.Common.{Address, Env, Crypto, ok}
use stellar_router.Timelock
use stellar_router.Timelock.{OpId, Op, op_cancelled, op_description_updated, ops_cleaned, deployed}
use stellar_router.Timelock.Calls
use stellar_router.Timelock.Calls.{finalize}
use stellar_router.Timelock.Cleanup
use stellar_router.Timelock.Invariant.{IsValid, deployed-IsValid}
use stellar_router.Timelock.Reclaim.{cleanup_expired-CleansUp, CleansUp}
use stellar_router.Timelock.Outcomes.{Cancels, cancel-Cancels}
use stellar_router.Timelock.History.{
  Request, initialize, queue, cancel, execute, update_description, cleanup_expired, set_min_delay,
  transfer_admin, step, run, same, second, settle-elim, step-IsValid,
}
use stellar_router.Timelock.Lifecycle.{
  ops-finalize, initialize-ops, set_min_delay-ops, transfer_admin-ops,
}
use stellar_router.Timelock.Digest.{IsCollisionFree, IsCollisionFree-SeparatesEta}
use stellar_router.Timelock.Once.{
  executed_ids, SeparatesEta, Tame, Tracked, quiet-Tracked, insert-Tame, execute-Tracked,
  queue-Tracked, quiet_append, events-finalize,
}

abbrev State : Type 0
State = Timelock.Timelock

-- The times of a history do not go back.
abbrev pub Ordered : ℕ → List (Env × Request) → Type 0
Ordered now [] = Unit
Ordered now ((env, r) ∷ rs) = (now ≤ env.timestamp) × Ordered env.timestamp rs

same-Tame : (s t : State) (j : OpId) → s.ops j ≡ t.ops j → Tame s t j
same-Tame s t j e o h = (o, e ∙ h, refl, λ x. x)

still :
    {crypto : Crypto} {now now' : ℕ} {s : State}
    → Tracked crypto now s
    → now ≤ now'
    → Tracked crypto now' s
still {crypto} {now} {now'} {s} k le =
    quiet-Tracked crypto now now' s s le k (λ j. same-Tame s s j refl) refl

cancel-Tracked :
    (crypto : Crypto) (env : Env) (now : ℕ) (s : State) (caller : Address) (id : OpId) (t : State)
    → now ≤ env.timestamp
    → Tracked crypto now s
    → Calls.cancel env s caller id ≡ ok t
    → Tracked crypto env.timestamp t
cancel-Tracked crypto env now s caller id t later k h =
    quiet-Tracked crypto now env.timestamp s t later k
      (insert-Tame s t id c.op op c.stored
        (λ j. ap (λ (u : State). u.ops j) c.result ∙ ops-finalize s id op j) refl (λ e. e))
      (ap (λ (u : State). executed_ids u.events) c.result
        ∙ (ap (λ es. executed_ids (es ++ op_cancelled id ∷ [])) (events-finalize s id op)
            ∙ quiet_append s.events (op_cancelled id) refl))
  where
    c : Cancels env s caller id t
    c = cancel-Cancels env s caller id t h

    op : Op
    op = record (c.op) { cancelled = true }

redescribe-Tracked :
    (crypto : Crypto) (env : Env) (now : ℕ) (s : State) (caller : Address) (id : OpId)
    (text : String) (t : State)
    → now ≤ env.timestamp
    → Tracked crypto now s
    → Calls.update_description env s caller id text ≡ ok t
    → Tracked crypto env.timestamp t
unfolding Calls.update_description
redescribe-Tracked crypto env now s caller id text t later k h = elim (Option-cases (s.ops id)) [
  | inl e ↦ absurd (ground arith)
  | inr (op, e) ↦
      quiet-Tracked crypto now env.timestamp s t later k
        (insert-Tame s t id op (record op { description = text }) e (λ j. ground arith) refl
          (λ x. x))
        (ground (arith, quiet_append s.events (op_description_updated id text) refl))
]

cleanup-Tracked :
    (crypto : Crypto) (env : Env) (now : ℕ) (s : State) (caller : Address) (limit n : ℕ) (t : State)
    → IsValid s
    → now ≤ env.timestamp
    → Tracked crypto now s
    → Cleanup.cleanup_expired env s caller limit ≡ ok (n, t)
    → Tracked crypto env.timestamp t
cleanup-Tracked crypto env now s caller limit n t v later k h =
    quiet-Tracked crypto now env.timestamp s t later k tame
      (ground (arith, c.published, quiet_append s.events (ops_cleaned n) refl))
  where
    c : CleansUp env.timestamp limit s n t
    c = cleanup_expired-CleansUp env s caller limit n t v h

    tame : (j : OpId) → Tame s t j
    tame j o e = elim (Option-cases (s.ops j)) [
      | inl z ↦ cc (c.absent j z, e)
      | inr (op, z) ↦ elim (c.fate j op z) [
        | inl left ↦ same-Tame s t j (sym left.0) o e
        | inr (gone, may) ↦ cc (gone.0, e)
      ]
    ]

initialize-Tracked :
    (crypto : Crypto) (now now' : ℕ) (s : State) (admin : Address) (d cap : ℕ) (t : State)
    → now ≤ now'
    → Tracked crypto now s
    → Calls.initialize s admin d cap ≡ ok t
    → Tracked crypto now' t
unfolding Calls.initialize
initialize-Tracked crypto now now' s admin d cap t later k h =
    quiet-Tracked crypto now now' s t later k
      (λ j. same-Tame s t j (initialize-ops s admin d cap t j h)) (ground arith)

set_min_delay-Tracked :
    (crypto : Crypto) (env : Env) (now : ℕ) (s : State) (caller : Address) (d : ℕ) (t : State)
    → now ≤ env.timestamp
    → Tracked crypto now s
    → Calls.set_min_delay env s caller d ≡ ok t
    → Tracked crypto env.timestamp t
unfolding Calls.set_min_delay
set_min_delay-Tracked crypto env now s caller d t later k h = elim (Option-cases s.min_delay) [
  | inl e ↦ absurd (ground arith)
  | inr (old, e) ↦
      quiet-Tracked crypto now env.timestamp s t later k
        (λ j. same-Tame s t j (set_min_delay-ops env s caller d t j h))
        (ground (arith, quiet_append s.events (Timelock.min_delay_updated old d) refl))
]

transfer_admin-Tracked :
    (crypto : Crypto) (env : Env) (now : ℕ) (s : State) (a b : Address) (t : State)
    → now ≤ env.timestamp
    → Tracked crypto now s
    → Calls.transfer_admin env s a b ≡ ok t
    → Tracked crypto env.timestamp t
unfolding Calls.transfer_admin
transfer_admin-Tracked crypto env now s a b t later k h =
    quiet-Tracked crypto now env.timestamp s t later k
      (λ j. same-Tame s t j (transfer_admin-ops env s a b t j h))
      (ground (arith, quiet_append s.events (Timelock.admin_transferred a b) refl))

module _ (crypto : Crypto) (separates : SeparatesEta crypto) where
  step-Tracked :
      (env : Env) (now : ℕ) (r : Request) (s : State)
      → now ≤ env.timestamp
      → IsValid s
      → Tracked crypto now s
      → Tracked crypto env.timestamp (step crypto env r s)
  unfolding step
  step-Tracked env now (initialize admin d cap) s le v k =
      settle-elim (Tracked crypto env.timestamp) same s _ (still k le)
        (λ t h. initialize-Tracked crypto now env.timestamp s admin d cap t le k h)
  step-Tracked env now (queue proposer text target delay grace deps) s le v k =
      settle-elim (Tracked crypto env.timestamp) second s _ (still k le) (λ r h.
        queue-Tracked crypto env now s proposer text target delay grace deps r.0 r.1 v le k h)
  step-Tracked env now (cancel caller id) s le v k =
      settle-elim (Tracked crypto env.timestamp) same s _ (still k le)
        (λ t h. cancel-Tracked crypto env now s caller id t le k h)
  step-Tracked env now (execute caller id) s le v k =
      settle-elim (Tracked crypto env.timestamp) same s _ (still k le)
        (λ t h. execute-Tracked crypto env now s caller id t separates v le k h)
  step-Tracked env now (update_description caller id text) s le v k =
      settle-elim (Tracked crypto env.timestamp) same s _ (still k le)
        (λ t h. redescribe-Tracked crypto env now s caller id text t le k h)
  step-Tracked env now (cleanup_expired caller limit) s le v k =
      settle-elim (Tracked crypto env.timestamp) second s _ (still k le)
        (λ r h. cleanup-Tracked crypto env now s caller limit r.0 r.1 v le k h)
  step-Tracked env now (set_min_delay caller d) s le v k =
      settle-elim (Tracked crypto env.timestamp) same s _ (still k le)
        (λ t h. set_min_delay-Tracked crypto env now s caller d t le k h)
  step-Tracked env now (transfer_admin a b) s le v k =
      settle-elim (Tracked crypto env.timestamp) same s _ (still k le)
        (λ t h. transfer_admin-Tracked crypto env now s a b t le k h)

  run-Tracked :
      (rs : List (Env × Request)) (now : ℕ) (s : State)
      → Ordered now rs
      → IsValid s
      → Tracked crypto now s
      → IsDistinct (executed_ids (run crypto rs s).events)
  unfolding run
  run-Tracked [] now s o v k = k.distinct
  run-Tracked ((env, r) ∷ rs) now s o v k =
      run-Tracked rs env.timestamp (step crypto env r s) o.1 (step-IsValid crypto env r s v)
        (step-Tracked env now r s o.0 v k)

deployed-Tracked : (crypto : Crypto) → Tracked crypto 0 deployed
deployed-Tracked crypto = record { named = λ id op e. cc; spent = λ id m. cc; distinct = tt }

-- Over any history of a new contract, at times that do not go back, no identifier is reported as
-- executed twice, provided that the hash has no collisions: also when an executed operation is cleaned up
-- and queued again.
pub executed_once :
    (crypto : Crypto) (rs : List (Env × Request))
    → IsCollisionFree crypto
    → Ordered 0 rs
    → IsDistinct (executed_ids (run crypto rs deployed).events)
executed_once crypto rs free o =
    run-Tracked crypto (IsCollisionFree-SeparatesEta crypto free) rs 0 deployed o deployed-IsValid
      (deployed-Tracked crypto)
