-- ===== src/Timelock/History.antt =====
-- Histories of router-timelock: a call at a time, an error or a panic leaves the storage as it was.
use stellar_router.Prelude.{ℕ, String, List, [], ◌∷◌, ◌≡◌, refl}
use stellar_router.Common.{Address, Env, Crypto, ok, err, panic}
use stellar_router.Timelock
use stellar_router.Timelock.{OpId, Op, Call, deployed}
use stellar_router.Timelock.Calls
use stellar_router.Timelock.Calls.{derive_op_id, enqueue, finalize}
use stellar_router.Timelock.Cleanup
use stellar_router.Timelock.Invariant.{IsValid, deployed-IsValid}
use stellar_router.Timelock.Preserve.{
  initialize-IsValid, queue-IsValid, cancel-IsValid, execute-IsValid, update_description-IsValid,
  set_min_delay-IsValid, transfer_admin-IsValid,
}
use stellar_router.Timelock.Reclaim.{cleanup_expired-IsValid}

abbrev State : Type 0
State = Timelock.Timelock

-- The calls that change the storage, with their arguments.
pub data Request : Type 0 where
  initialize : Address → ℕ → ℕ → Request
  queue : Address → String → Address → ℕ → ℕ → List OpId → Request
  cancel execute : Address → OpId → Request
  update_description : Address → OpId → String → Request
  cleanup_expired : Address → ℕ → Request
  set_min_delay : Address → ℕ → Request
  transfer_admin : Address → Address → Request

-- The storage after a call: the host rolls a failed call back.
abbrev pub settle : {A : Type 0} → (A → State) → State → Call A → State
settle f s (ok a) = f a
settle f s (err e) = s
settle f s panic = s

abbrev pub same : State → State
same t = t

abbrev pub second : {A : Type 0} → A × State → State
second r = r.1

unfoldable pub step : Crypto → Env → Request → State → State
step crypto env (initialize admin d cap) s = settle same s (Calls.initialize s admin d cap)
step crypto env (queue proposer text target delay grace deps) s =
    settle second s (Calls.queue crypto env s proposer text target delay grace deps)
step crypto env (cancel caller id) s = settle same s (Calls.cancel env s caller id)
step crypto env (execute caller id) s = settle same s (Calls.execute env s caller id)
step crypto env (update_description caller id text) s =
    settle same s (Calls.update_description env s caller id text)
step crypto env (cleanup_expired caller limit) s =
    settle second s (Cleanup.cleanup_expired env s caller limit)
step crypto env (set_min_delay caller d) s = settle same s (Calls.set_min_delay env s caller d)
step crypto env (transfer_admin current new_admin) s =
    settle same s (Calls.transfer_admin env s current new_admin)

unfoldable pub run : Crypto → List (Env × Request) → State → State
unfolding step
run crypto [] s = s
run crypto ((env, r) ∷ rs) s = run crypto rs (step crypto env r s)

-- To prove a property of the settled storage, prove it of the old one and of a success.
pub settle-elim {κ} :
    {A : Type 0} (P : State → Type κ) (f : A → State) (s : State) (m : Call A)
    → P s
    → ((a : A) → m ≡ ok a → P (f a))
    → P (settle f s m)
settle-elim P f s (ok a) h k = k a refl
settle-elim P f s (err e) h k = h
settle-elim P f s panic h k = h

-- Every call, at any time and by anyone, keeps the storage well formed.
pub step-IsValid :
    (crypto : Crypto) (env : Env) (r : Request) (s : State)
    → IsValid s
    → IsValid (step crypto env r s)
unfolding step
step-IsValid crypto env (initialize admin d cap) s v =
    settle-elim IsValid same s _ v (λ t h. initialize-IsValid s admin d cap t v h)
step-IsValid crypto env (queue proposer text target delay grace deps) s v =
    settle-elim IsValid second s _ v
      (λ r h. queue-IsValid crypto env s proposer text target delay grace deps r.0 r.1 v h)
step-IsValid crypto env (cancel caller id) s v =
    settle-elim IsValid same s _ v (λ t h. cancel-IsValid env s caller id t v h)
step-IsValid crypto env (execute caller id) s v =
    settle-elim IsValid same s _ v (λ t h. execute-IsValid env s caller id t v h)
step-IsValid crypto env (update_description caller id text) s v =
    settle-elim IsValid same s _ v (λ t h. update_description-IsValid env s caller id text t v h)
step-IsValid crypto env (cleanup_expired caller limit) s v =
    settle-elim IsValid second s _ v (λ r h. cleanup_expired-IsValid env s caller limit r.0 r.1 v h)
step-IsValid crypto env (set_min_delay caller d) s v =
    settle-elim IsValid same s _ v (λ t h. set_min_delay-IsValid env s caller d t v h)
step-IsValid crypto env (transfer_admin current new_admin) s v =
    settle-elim IsValid same s _ v (λ t h. transfer_admin-IsValid env s current new_admin t v h)

pub run-IsValid :
    (crypto : Crypto) (rs : List (Env × Request)) (s : State)
    → IsValid s
    → IsValid (run crypto rs s)
unfolding run
run-IsValid crypto [] s v = v
run-IsValid crypto ((env, r) ∷ rs) s v =
    run-IsValid crypto rs (step crypto env r s) (step-IsValid crypto env r s v)

-- After any history of a new contract the storage is well formed: the pending index holds exactly the
-- operations that are neither executed nor cancelled, the finalized index the others, each once, no
-- operation is both, the etas fit in 64 bits, the grace periods are within 30 days, no dependencies
-- are left without their operation, and a positive cap bounds the pending index.
pub run-deployed-IsValid :
    (crypto : Crypto) (rs : List (Env × Request)) → IsValid (run crypto rs deployed)
run-deployed-IsValid crypto rs = run-IsValid crypto rs deployed deployed-IsValid
