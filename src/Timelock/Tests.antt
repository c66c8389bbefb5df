-- ===== src/Timelock/Tests.antt =====
-- Runs of router-timelock on concrete storages, and its theorems at such inputs.
use stellar_router.Prelude.{
  ℕ, zero, suc, ◌+◌, ◌*◌, ◌<◌, true, none, some, List, [], ◌∷◌, ◌≡◌, refl, ap, ◌↔◌, arith, contains,
  length, IsDistinct, insert, empty, All, ltb, ◌==◌, if◌then◌else◌,
}
use stellar_router.Prelude.Words.{u64_mod, u64_max}
use stellar_router.Common.{Env, Crypto, ok, err, IsAdmin}
use stellar_router.Timelock
use stellar_router.Timelock.{
  Op, OpId, deployed, op_executed, publish, ready, queued, expired, executed, cancelled, blocked,
  dependency_too_deep,
}
use stellar_router.Timelock.Deps.{load_deps, check_dependency_depth, require_dependencies_executed}
use stellar_router.Timelock.Calls.{queue, execute, new_op, derive_op_id, enqueue}
use stellar_router.Timelock.Cleanup.{cleanup_expired}
use stellar_router.Timelock.Status.{
  get_operation_status, get_operations_by_status, get_operation_count_by_status,
}
use stellar_router.Timelock.Invariant.{IsValid}
use stellar_router.Timelock.Outcomes.{Executed}
use stellar_router.Timelock.Executing.{ExecuteEffect, execute_iff}
use stellar_router.Timelock.Queueing.{QueueEffect, queue_iff}
use stellar_router.Timelock.Reclaim.{CleansUp, Left, cleanup_expired-CleansUp}
use stellar_router.Timelock.Live.{IsLive, cleanup_keeps_live}
use stellar_router.Timelock.History.{Request, run, step, run-deployed-IsValid}
use stellar_router.Timelock.Refinement.{MovesTo, step-Move}
use stellar_router.Timelock.Once.{executed_ids}
use stellar_router.Timelock.Digest.{IsCollisionFree}
use stellar_router.Timelock.ExecutedOnce.{executed_once}
use stellar_router.Timelock.Depth.{
  Chain, LiveChain, check_dependency_depth_iff, LiveChain-get_operation_status,
}
use stellar_router.Timelock.StatusLaws.{execute_ready_iff}
use stellar_router.Timelock.Queries.{
  ids_of, get_operations_by_status_iff, get_operation_count_by_status_lem,
  get_operation_count_by_status-finalized, overflowing_operation,
}

abbrev State : Type 0
State = Timelock.Timelock

-- An injective stand-in for the hash: a list is the number 2 ^ x * (2 * rest + 1).
scale : ℕ → ℕ → ℕ
scale zero c = 2 * c + 1
scale (suc x) c = 2 * scale x c

encode : List ℕ → ℕ
unfolding scale
encode [] = 0
encode (x ∷ xs) = scale x (encode xs)

scale-injective : (x y c d : ℕ) → scale x c ≡ scale y d → (x ≡ y) × (c ≡ d)
unfolding scale
scale-injective zero zero c d h = (refl, omega arith)
scale-injective zero (suc y) c d h = absurd (omega arith)
scale-injective (suc x) zero c d h = absurd (omega arith)
scale-injective (suc x) (suc y) c d h =
    let (e, f) = scale-injective x y c d (omega arith) in (ap suc e, f)

scale_pos : (x c : ℕ) → 0 < scale x c
unfolding scale
scale_pos zero c = omega arith
scale_pos (suc x) c = omega (arith, scale_pos x c)

encode-injective : (xs ys : List ℕ) → encode xs ≡ encode ys → xs ≡ ys
unfolding encode
encode-injective [] [] h = refl
encode-injective [] (y ∷ ys) h = absurd (omega (arith, scale_pos y (encode ys)))
encode-injective (x ∷ xs) [] h = absurd (omega (arith, scale_pos x (encode xs)))
encode-injective (x ∷ xs) (y ∷ ys) h =
    let (e, f) = scale-injective x y (encode xs) (encode ys) h in cc (e, encode-injective xs ys f)

crypto : Crypto
crypto = record { sha256 = encode; string_xdr = λ text. []; address_xdr = λ a. a ∷ [] }

crypto-IsCollisionFree : IsCollisionFree crypto
unfolding crypto
crypto-IsCollisionFree xs ys h = encode-injective xs ys h

abbrev at : ℕ → Env
at now = record { timestamp = now; authorized = λ a. a == 1 }

-- Address 1 administers a contract with a minimum delay of 10 and a cap of 5.
abbrev configured : State
configured = record deployed { admin = some 1; min_delay = some 10; max_pending_ops = some 5 }

abbrev upgrade : Op
upgrade = new_op 1 "upgrade" 9 100 50

-- Operation 7 is pending.
abbrev one_pending : State
one_pending = record configured { ops = insert empty 7 upgrade; pending_ops = some (7 ∷ []) }

one_pending-IsValid : IsValid one_pending
one_pending-IsValid = record {
  indexed = λ id. ground arith;
  deps_stored = λ id h. refl;
  pending_distinct = (refl, tt);
  finalized_distinct = tt;
  configured = omega arith;
  within_cap = λ h. omega arith;
}

by_1 : IsAdmin (at 120) (some 1) 1
by_1 = record { signed = refl; stored_admin = refl }

abbrev executed_upgrade : State
executed_upgrade = record one_pending {
  ops = insert one_pending.ops 7 (record upgrade { executed = true });
  pending_ops = some [];
  finalized_ops = some (7 ∷ []);
  events = op_executed 7 9 ∷ [];
}

upgrade_effect : ExecuteEffect (at 120) one_pending 1 7 executed_upgrade
upgrade_effect = record {
  by_admin = by_1;
  op = upgrade;
  stored = refl;
  not_executed = refl;
  not_cancelled = refl;
  not_early = omega arith;
  not_late = omega arith;
  fits = omega arith;
  dependencies = tt;
  result = refl;
}

execute_iff_example :
    (execute (at 120) one_pending 1 7 ≡ ok executed_upgrade)
    ↔ ExecuteEffect (at 120) one_pending 1 7 executed_upgrade
execute_iff_example = execute_iff (at 120) one_pending 1 7 executed_upgrade

execute_runs : execute (at 120) one_pending 1 7 ≡ ok executed_upgrade
execute_runs = execute_iff_example.1 upgrade_effect

abbrev history : List (Env × Request)
history =
    (at 5, Request.initialize 1 10 5)
    ∷ (at 6, Request.queue 1 "upgrade" 9 10 50 [])
    ∷ (at 70, Request.cleanup_expired 1 10)
    ∷ []

run-deployed-IsValid_example : IsValid (run crypto history deployed)
run-deployed-IsValid_example = run-deployed-IsValid crypto history

executed_once_example : IsDistinct (executed_ids (run crypto history deployed).events)
executed_once_example = executed_once crypto history crypto-IsCollisionFree (omega arith)

step-Move_example :
    MovesTo crypto (at 120) 7 one_pending (step crypto (at 120) (Request.execute 1 7) one_pending)
step-Move_example =
    step-Move crypto (at 120) (Request.execute 1 7) one_pending 7 one_pending-IsValid

abbrev queued_id : OpId
queued_id = derive_op_id crypto "upgrade" 9 50

abbrev after_queue : State
after_queue = enqueue configured queued_id [] (new_op 1 "upgrade" 9 50 50)

queue_iff_example :
    (queue crypto (at 20) configured 1 "upgrade" 9 30 50 [] ≡ ok (queued_id, after_queue))
    ↔ QueueEffect crypto (at 20) configured 1 "upgrade" 9 30 50 [] queued_id after_queue
queue_iff_example = queue_iff crypto (at 20) configured 1 "upgrade" 9 30 50 [] queued_id after_queue

queue_runs : queue crypto (at 20) configured 1 "upgrade" 9 30 50 [] ≡ ok (queued_id, after_queue)
unfolding queue
queue_runs = refl

execute_ready_iff_example : ((t : State) × (execute (at 120) one_pending 1 7 ≡ ok t)) ↔ (
    (get_operation_status (at 120) one_pending 7 ≡ some ready)
    × All (Executed one_pending) (load_deps one_pending 7))
execute_ready_iff_example = execute_ready_iff (at 120) one_pending 1 7 one_pending-IsValid by_1

abbrev one_cleaned : State
one_cleaned = record one_pending {
  ops = λ j. if j == 7 then none else (insert empty 7 upgrade) j;
  deps = λ j. if j == 7 then none else none;
  pending_ops = some [];
  finalized_ops = some [];
  events = Timelock.ops_cleaned 1 ∷ [];
}

cleanup_runs : cleanup_expired (at 151) one_pending 1 3 ≡ ok (1, one_cleaned)
unfolding cleanup_expired
cleanup_runs = refl

cleanup_expired-CleansUp_example : CleansUp 151 3 one_pending 1 one_cleaned
cleanup_expired-CleansUp_example =
    cleanup_expired-CleansUp (at 151) one_pending 1 3 1 one_cleaned one_pending-IsValid cleanup_runs

cleanup_runs_early : cleanup_expired (at 120) one_pending 1 3 ≡ ok (0, one_pending)
unfolding cleanup_expired
cleanup_runs_early = refl

upgrade-IsLive : IsLive 120 upgrade
unfolding Timelock.Deps.is_expired
upgrade-IsLive = record { not_executed = refl; not_cancelled = refl; not_expired = refl }

cleanup_keeps_live_example :
    Left one_pending one_pending 7
    × (get_operation_status (at 120) one_pending 7 ≡ get_operation_status (at 120) one_pending 7)
    × (require_dependencies_executed one_pending 7 ≡ require_dependencies_executed one_pending 7)
cleanup_keeps_live_example =
    cleanup_keeps_live (at 120) one_pending 1 3 0 one_pending 7 upgrade one_pending-IsValid
      cleanup_runs_early refl upgrade-IsLive

-- Ten operations, each of which depends on the next one.
abbrev chained : State
chained = record configured {
  ops = λ id. if ltb id 10 then some upgrade else none;
  deps = λ id. if ltb id 9 then some (suc id ∷ []) else none;
}

check_dependency_depth_iff_example :
    ((check_dependency_depth chained 0 0 ≡ ok tt) ↔ (¬ Chain chained 9 0))
    × ((check_dependency_depth chained 0 0 ≡ err dependency_too_deep) ↔ Chain chained 9 0)
check_dependency_depth_iff_example = check_dependency_depth_iff chained 0

-- A new operation may depend on nine operations in a row.
check_accepts_nine : check_dependency_depth chained 1 0 ≡ ok tt
unfolding check_dependency_depth
check_accepts_nine = refl

check_refuses_ten : check_dependency_depth chained 0 0 ≡ err dependency_too_deep
unfolding check_dependency_depth
check_refuses_ten = refl

live_link :
    (n id : ℕ)
    → ltb (suc id) 10 ≡ true
    → ltb id 9 ≡ true
    → LiveChain chained 120 n (suc id)
    → LiveChain chained 120 (suc n) id
unfolding load_deps
live_link n id h k c =
    LiveChain.link id (suc id) upgrade (ground arith) (ground arith) upgrade-IsLive c

chained-LiveChain : LiveChain chained 120 9 0
chained-LiveChain = live_link 8 0 refl refl (
    live_link 7 1 refl refl (
      live_link 6 2 refl refl (
        live_link 5 3 refl refl (
          live_link 4 4 refl refl (
            live_link 3 5 refl refl (
              live_link 2 6 refl refl
                (live_link 1 7 refl refl (live_link 0 8 refl refl (LiveChain.end 9)))))))))

LiveChain-get_operation_status_example : get_operation_status (at 120) chained 0 ≡ some blocked
LiveChain-get_operation_status_example =
    LiveChain-get_operation_status (at 120) chained 0 upgrade refl upgrade-IsLive chained-LiveChain

upgrade_fits :
    (j : OpId) (op : Op) → one_pending.ops j ≡ some op → op.eta + op.grace_period_seconds < u64_mod
upgrade_fits j op e = ground arith

get_operations_by_status_iff_example :
    (contains (ids_of (get_operations_by_status (at 120) one_pending ready)) 7 ≡ true)
    ↔ ((contains (7 ∷ []) 7 ≡ true) × (get_operation_status (at 120) one_pending 7 ≡ some ready))
get_operations_by_status_iff_example =
    get_operations_by_status_iff (at 120) one_pending ready 7 one_pending-IsValid upgrade_fits

get_operation_count_by_status-finalized_example :
    (get_operation_count_by_status (at 120) one_pending executed ≡ 0)
    × (get_operation_count_by_status (at 120) one_pending cancelled ≡ 0)
get_operation_count_by_status-finalized_example =
    get_operation_count_by_status-finalized (at 120) one_pending one_pending-IsValid

-- The operation that `queue` stores for the longest delay at the time 20.
abbrev latest : Op
latest = new_op 1 "upgrade" 9 u64_max 1

abbrev far : State
far = record configured { ops = insert empty 7 latest; pending_ops = some (7 ∷ []) }

overflowing_operation_example :
    (get_operation_status (at 20) far 7 ≡ some expired)
    × (contains (ids_of (get_operations_by_status (at 20) far queued)) 7 ≡ true)
    × (contains (ids_of (get_operations_by_status (at 20) far expired)) 7 ≡ true)
unfolding Timelock.Deps.has_blocked_dependency
overflowing_operation_example =
    overflowing_operation (at 20) far 7 latest refl refl refl refl (omega arith) (omega arith) refl

get_operation_count_by_status_example :
    get_operation_count_by_status (at 120) one_pending ready
    ≡ length (get_operations_by_status (at 120) one_pending ready)
get_operation_count_by_status_example = get_operation_count_by_status_lem (at 120) one_pending ready
