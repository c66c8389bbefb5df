-- ===== src/Timelock/Queries.antt =====
-- The queries by status of router-timelock list exactly the pending operations of that status, and count
-- what they list.
use stellar_router.Prelude.{
  ℕ, ◌+◌, ◌++◌, ◌<◌, ◌≤◌, Bool, true, false, ◌||◌, ◌&&◌, Option, none, some, List, [], ◌∷◌, ◌≡◌,
  refl, ◌↔◌, inl, inr, arith, contains, Bool-cases, Option-cases, length, length-append, ◌==◌,
  ==→eq,
}
use stellar_router.Prelude.Words.{u64_mod}
use stellar_router.Common.{Env}
use stellar_router.Timelock
use stellar_router.Timelock.{
  OpId, Op, OperationStatus, queued, ready, executed, cancelled, expired, blocked,
}
use stellar_router.Timelock.Deps.{pending, has_blocked_dependency}
use stellar_router.Timelock.Status.{
  get_operation_status, matches, counts, count_match, push_match, count_matches, collect_matches,
  get_operation_count_by_status, get_operations_by_status,
}
use stellar_router.Timelock.Invariant.{IsValid, Indexed}
use stellar_router.Timelock.StatusLaws.{matches_iff}

abbrev State : Type 0
State = Timelock.Timelock

-- What the queries ask of a pending identifier.
abbrev hit : Env → State → OperationStatus → OpId → Option Op → Bool
hit env s status id none = false
hit env s status id (some op) = matches env s status id op

abbrev pub ids_of : List (OpId × Op) → List OpId
ids_of [] = []
ids_of (entry ∷ entries) = entry.0 ∷ ids_of entries

contains-ids_of-snoc :
    (entries : List (OpId × Op)) (id : OpId) (op : Op) (j : OpId)
    → contains (ids_of (entries ++ (id, op) ∷ [])) j ≡ (contains (ids_of entries) j || (j == id))
contains-ids_of-snoc [] id op j = ground arith
contains-ids_of-snoc (e ∷ entries) id op j = ground (arith, contains-ids_of-snoc entries id op j)

contains-push_match :
    (env : Env) (s : State) (status : OperationStatus) (id : OpId) (entries : List (OpId × Op))
    (o : Option Op) (j : OpId)
    → contains (ids_of (push_match env s status id entries o)) j
      ≡ (contains (ids_of entries) j || ((j == id) && hit env s status id o))
contains-push_match env s status id entries none j = ground arith
contains-push_match env s status id entries (some op) j =
    ground (arith, contains-ids_of-snoc entries id op j)

contains-collect_matches :
    (env : Env) (s : State) (status : OperationStatus) (ids : List OpId)
    (entries : List (OpId × Op)) (j : OpId)
    → contains (ids_of (collect_matches env s status ids entries)) j
      ≡ (contains (ids_of entries) j || (contains ids j && hit env s status j (s.ops j)))
unfolding collect_matches
contains-collect_matches env s status [] entries j = ground arith
contains-collect_matches env s status (id ∷ ids) entries j = elim (Bool-cases (j == id)) [
  | inl e ↦ ground (
    arith,
    contains-collect_matches env s status ids (push_match env s status id entries (s.ops id)) j,
    contains-push_match env s status id entries (s.ops id) j,
    ==→eq j id e,
  )
  | inr e ↦ ground (
    arith,
    contains-collect_matches env s status ids (push_match env s status id entries (s.ops id)) j,
    contains-push_match env s status id entries (s.ops id) j,
  )
]

-- The two queries spell out the same test.
counts-matches :
    (env : Env) (s : State) (status : OperationStatus) (id : OpId) (op : Op)
    → counts env s status id op ≡ matches env s status id op
unfolding counts matches
counts-matches env s cancelled id op = refl
counts-matches env s executed id op = refl
counts-matches env s expired id op = refl
counts-matches env s ready id op = refl
counts-matches env s queued id op = refl
counts-matches env s blocked id op = refl

length-collect_matches :
    (env : Env) (s : State) (status : OperationStatus) (ids : List OpId)
    (entries : List (OpId × Op)) (n : ℕ)
    → n ≡ length entries
    → count_matches env s status ids n ≡ length (collect_matches env s status ids entries)
unfolding count_matches collect_matches
length-collect_matches env s status [] entries n h = h
length-collect_matches env s status (id ∷ ids) entries n h =
    length-collect_matches env s status ids _ _ (length-push_match (s.ops id))
  where
    length-push_match :
        (o : Option Op)
        → count_match env s status id n o ≡ length (push_match env s status id entries o)
    length-push_match none = h
    length-push_match (some op) =
        ground (arith, length-append entries ((id, op) ∷ []), counts-matches env s status id op)

-- The count by status is the number of operations that the query by status lists.
pub get_operation_count_by_status_lem :
    (env : Env) (s : State) (status : OperationStatus)
    → get_operation_count_by_status env s status ≡ length (get_operations_by_status env s status)
unfolding get_operation_count_by_status get_operations_by_status
get_operation_count_by_status_lem env s status =
    length-collect_matches env s status (pending s) [] 0 refl

-- On a well-formed storage in which no grace period ends beyond 64 bits, the query by status lists an
-- identifier exactly when it is in the pending index and `get_operation_status` gives that status.
pub get_operations_by_status_iff :
    (env : Env) (s : State) (status : OperationStatus) (id : OpId)
    → IsValid s
    → ((j : OpId) (op : Op) → s.ops j ≡ some op → op.eta + op.grace_period_seconds < u64_mod)
    → (contains (ids_of (get_operations_by_status env s status)) id ≡ true)
      ↔ ((contains (pending s) id ≡ true) × (get_operation_status env s id ≡ some status))
unfolding get_operations_by_status get_operation_status
get_operations_by_status_iff env s status id v fits = elim (Option-cases (s.ops id)) [
  | inl e ↦ ground (arith, contains-collect_matches env s status (pending s) [] id)
  | inr (op, e) ↦ hit_iff op e
]
  where
    hit_iff :
        (op : Op)
        → s.ops id ≡ some op
        → (contains (ids_of (collect_matches env s status (pending s) [])) id ≡ true)
          ↔ ((contains (pending s) id ≡ true) × (get_operation_status env s id ≡ some status))
    hit_iff op e =
        let m = matches_iff env s status id op (ground (arith, v.indexed id)) (fits id op e) in
        let l = contains-collect_matches env s status (pending s) [] id in
        (λ h. (ground (arith, l), ground (arith, l, m.0)), λ h. ground (arith, l, m.1))

-- What the count asks of a pending identifier.
abbrev counted : Env → State → OperationStatus → OpId → Option Op → Bool
counted env s status id none = false
counted env s status id (some op) = counts env s status id op

count_none :
    (env : Env) (s : State) (status : OperationStatus) (ids : List OpId) (n : ℕ)
    → ((j : OpId) → contains ids j ≡ true → counted env s status j (s.ops j) ≡ false)
    → count_matches env s status ids n ≡ n
unfolding count_matches
count_none env s status [] n h = refl
count_none env s status (id ∷ ids) n h =
    rw (no_match (s.ops id) (h id (ground arith)))
      (count_none env s status ids n (λ j m. h j (ground (arith, m))))
  where
    no_match :
        (o : Option Op) → counted env s status id o ≡ false → count_match env s status id n o ≡ n
    no_match none e = refl
    no_match (some op) e = ground arith

pending_unmatched :
    (env : Env) (s : State) (id : OpId) (p f : Bool) (o : Option Op)
    → Indexed p f o
    → p ≡ true
    → (counted env s executed id o ≡ false) × (counted env s cancelled id o ≡ false)
unfolding counts
pending_unmatched env s id p f none v h = (refl, refl)
pending_unmatched env s id p f (some op) v h = ground arith

-- On a well-formed storage the counts of executed and of cancelled operations are 0.
pub get_operation_count_by_status-finalized :
    (env : Env) (s : State)
    → IsValid s
    → (get_operation_count_by_status env s executed ≡ 0)
      × (get_operation_count_by_status env s cancelled ≡ 0)
unfolding get_operation_count_by_status
get_operation_count_by_status-finalized env s v = (
  count_none env s executed (pending s) 0
      (λ j m. (pending_unmatched env s j _ _ (s.ops j) (v.indexed j) m).0),
  count_none env s cancelled (pending s) 0
      (λ j m. (pending_unmatched env s j _ _ (s.ops j) (v.indexed j) m).1),
)

-- An operation whose grace period ends beyond 64 bits, as `queue` accepts, is listed as `Queued` before
-- its eta when nothing blocks it, and as `Expired` too, while its status is `Expired`.
pub overflowing_operation :
    (env : Env) (s : State) (id : OpId) (op : Op)
    → contains (pending s) id ≡ true
    → s.ops id ≡ some op
    → op.executed ≡ false
    → op.cancelled ≡ false
    → env.timestamp < op.eta
    → u64_mod ≤ op.eta + op.grace_period_seconds
    → has_blocked_dependency env s id ≡ false
    → (get_operation_status env s id ≡ some expired)
      × (contains (ids_of (get_operations_by_status env s queued)) id ≡ true)
      × (contains (ids_of (get_operations_by_status env s expired)) id ≡ true)
unfolding get_operations_by_status get_operation_status matches
overflowing_operation env s id op m e x c early over free = (
  ground arith,
  ground (arith, contains-collect_matches env s queued (pending s) [] id),
  ground (arith, contains-collect_matches env s expired (pending s) [] id),
)
