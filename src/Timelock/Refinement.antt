-- ===== src/Timelock/Refinement.antt =====
-- Every call of router-timelock refines the abstract machine of Timelock/Lifecycle.antt.
use stellar_router.Prelude.{ap}
use stellar_router.Common.{Env, Crypto}
use stellar_router.Timelock
use stellar_router.Timelock.{OpId}
use stellar_router.Timelock.Invariant.{IsValid}
use stellar_router.Timelock.History.{
  Request, initialize, queue, cancel, execute, update_description, cleanup_expired, set_min_delay,
  transfer_admin, step, same, second, settle-elim,
}
use stellar_router.Timelock.Lifecycle.{
  phase, Move, rest, Move-same, queue-Move, cancel-Move, execute-Move, redescribe-Move,
  cleanup-Move, initialize-ops, set_min_delay-ops, transfer_admin-ops,
}

abbrev State : Type 0
State = Timelock.Timelock

-- What a call does to the identifier `j`.
abbrev pub MovesTo : Crypto → Env → OpId → State → State → Type 0
MovesTo crypto env j s t = Move crypto env.timestamp j (phase (s.ops j)) (phase (t.ops j))

-- Every call on a well-formed storage moves each identifier as the abstract machine allows: only
-- `queue` lets an identifier enter, under the digest of its parameters and with an eta that lies in the
-- future; only a waiting operation is performed, from its eta to the end of its grace period, or
-- revoked; and a waiting identifier becomes absent only when its grace period has passed or its end
-- does not fit in 64 bits.
pub step-Move :
    (crypto : Crypto) (env : Env) (r : Request) (s : State) (j : OpId)
    → IsValid s
    → MovesTo crypto env j s (step crypto env r s)
unfolding step
step-Move crypto env (initialize admin d cap) s j v =
    settle-elim (MovesTo crypto env j s) same s _ (rest _)
      (λ t h. Move-same crypto env.timestamp j (ap phase (initialize-ops s admin d cap t j h)))
step-Move crypto env (queue proposer text target delay grace deps) s j v =
    settle-elim (MovesTo crypto env j s) second s _ (rest _)
      (λ r h. queue-Move crypto env s proposer text target delay grace deps r.0 r.1 j v h)
step-Move crypto env (cancel caller id) s j v =
    settle-elim (MovesTo crypto env j s) same s _ (rest _)
      (λ t h. cancel-Move crypto env s caller id t j h)
step-Move crypto env (execute caller id) s j v =
    settle-elim (MovesTo crypto env j s) same s _ (rest _)
      (λ t h. execute-Move crypto env s caller id t j h)
step-Move crypto env (update_description caller id text) s j v =
    settle-elim (MovesTo crypto env j s) same s _ (rest _)
      (λ t h. redescribe-Move crypto env s caller id text t j h)
step-Move crypto env (cleanup_expired caller limit) s j v =
    settle-elim (MovesTo crypto env j s) second s _ (rest _)
      (λ r h. cleanup-Move crypto env s caller limit r.0 r.1 j v h)
step-Move crypto env (set_min_delay caller d) s j v =
    settle-elim (MovesTo crypto env j s) same s _ (rest _)
      (λ t h. Move-same crypto env.timestamp j (ap phase (set_min_delay-ops env s caller d t j h)))
step-Move crypto env (transfer_admin current new_admin) s j v =
    settle-elim (MovesTo crypto env j s) same s _ (rest _) (λ t h.
      Move-same crypto env.timestamp j
        (ap phase (transfer_admin-ops env s current new_admin t j h)))
