-- ===== src/Timelock/Cleanup.antt =====
-- `cleanup_expired` of contracts/router-timelock/src/lib.rs. Each loop is a recursion on the index
-- that it walks, over its mutable variables.
use stellar_router.Prelude.{
  ℕ, ◌+◌, ◌++◌, ◌&&◌, ◌||◌, not, Option, none, some, List, [], ◌∷◌, ltb, leb, contains,
  if◌then◌else◌,
}
use stellar_router.Common.{Address, Env, ok, ◌>>◌, require_auth}
use stellar_router.Timelock
use stellar_router.Timelock.{Op, OpId, Call, ops_cleaned, publish}
use stellar_router.Timelock.Deps.{pending, finalized, load_deps, is_expired, remove_op_storage}

abbrev State : Type 0
State = Timelock.Timelock

-- The dependencies of the pending operations that have not expired.
abbrev pub live_deps : List OpId → ℕ → Option Op → List OpId
unfolding is_expired
live_deps stored now none = []
live_deps stored now (some op) = if is_expired op now then [] else stored

unfoldable pub referenced_by : State → ℕ → List OpId → List OpId
unfolding load_deps is_expired
referenced_by s now [] = []
referenced_by s now (id ∷ ids) =
    live_deps (load_deps s id) now (s.ops id) ++ referenced_by s now ids

-- `new_pending` or `new_finalized`, `cleaned_count` and the storage, as a loop goes on.
pub record Sweep : Type 0 where
  pub kept : List OpId
  pub cleaned_count : ℕ
  pub state : State

abbrev pub keep : Sweep → OpId → Sweep
keep w id = record w { kept = w.kept ++ id ∷ [] }

unfoldable pub reclaim : Sweep → OpId → Sweep
unfolding remove_op_storage
reclaim w id = record w {
  cleaned_count = w.cleaned_count + 1;
  state = remove_op_storage w.state id;
}

-- A loop over an index, by its body.
unfoldable pub sweep_all : (OpId → Sweep → Sweep) → List OpId → Sweep → Sweep
sweep_all body [] w = w
sweep_all body (id ∷ ids) w = sweep_all body ids (body id w)

-- The body of the loop over the pending index, by what is stored under the identifier.
unfoldable pub sweep_pending_op : ℕ → ℕ → List OpId → OpId → Sweep → Option Op → Sweep
unfolding is_expired reclaim
sweep_pending_op now limit referenced id w none =
    if leb limit w.cleaned_count
    then keep w id
    else record w { cleaned_count = w.cleaned_count + 1 }
sweep_pending_op now limit referenced id w (some op) =
    if leb limit w.cleaned_count
    then keep w id
    else if is_expired op now && not (contains referenced id)
    then reclaim w id
    else keep w id

unfoldable pub sweep_pending : ℕ → ℕ → List OpId → OpId → Sweep → Sweep
unfolding sweep_pending_op
sweep_pending now limit referenced id w =
    sweep_pending_op now limit referenced id w (w.state.ops id)

-- The body of the loop over the finalized index.
unfoldable pub sweep_finalized : ℕ → List OpId → OpId → Sweep → Sweep
unfolding reclaim
sweep_finalized limit referenced id w =
    if leb limit w.cleaned_count || contains referenced id then keep w id else reclaim w id

abbrev pub referenced : State → ℕ → List OpId
referenced s now = referenced_by s now (pending s)

-- After the first loop.
unfoldable pub swept_pending : ℕ → ℕ → State → Sweep
unfolding sweep_all sweep_pending referenced_by
swept_pending now limit s =
    sweep_all (sweep_pending now limit (referenced s now)) (pending s)
      (record { kept = []; cleaned_count = 0; state = s })

-- After the second loop, which fills a new vector.
unfoldable pub swept_finalized : ℕ → ℕ → State → Sweep
unfolding sweep_all sweep_finalized referenced_by swept_pending
swept_finalized now limit s =
    sweep_all (sweep_finalized limit (referenced s now)) (finalized s)
      (record (swept_pending now limit s) { kept = [] })

unfoldable pub cleanup_expired : Env → State → Address → ℕ → Call (ℕ × State)
unfolding swept_pending swept_finalized
cleanup_expired env s caller limit = do
  require_auth env caller
  let p = swept_pending env.timestamp limit s
  let f = swept_finalized env.timestamp limit s
  ok (
      if ltb 0 f.cleaned_count
      then (
        f.cleaned_count,
        publish (record f.state { pending_ops = some p.kept; finalized_ops = some f.kept })
            (ops_cleaned f.cleaned_count),
      )
      else (f.cleaned_count, f.state))
