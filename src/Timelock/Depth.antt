-- ===== src/Timelock/Depth.antt =====
-- The dependency graph of router-timelock: which depth `check_dependency_depth` accepts, and what
-- `has_blocked_dependency` says of deep graphs.
use stellar_router.Prelude.{
  ℕ, zero, suc, Bool, true, some, List, [], ◌∷◌, ◌≡◌, refl, ◌↔◌, ◌⊎◌, inl, inr, arith, contains,
  any, Bool-cases, ◌==◌, ==→eq, ==_refl,
}
use stellar_router.Common.{Env, ok, err, try_for_each}
use stellar_router.Timelock
use stellar_router.Timelock.{OpId, Op, Call, dependency_too_deep, blocked}
use stellar_router.Timelock.Deps.{
  load_deps, check_levels, check_dependency_depth, blocked_levels, has_blocked_dependency,
}
use stellar_router.Timelock.Status.{get_operation_status}
use stellar_router.Timelock.Live.{IsLive}

abbrev State : Type 0
State = Timelock.Timelock

-- A path of `n` dependencies that begins at `id`.
pub data Chain (s : State) : ℕ → OpId → Type 0 where
  end : (id : OpId) → Chain s zero id
  link :
      {n : ℕ} (id d : OpId) → contains (load_deps s id) d ≡ true → Chain s n d → Chain s (suc n) id

-- What a check says, by whether there is a chain.
Decides : State → ℕ → OpId → Call (Unit {0}) → Type 0
Decides s n id r = ((r ≡ ok tt) × (¬ Chain s n id)) ⊎ ((r ≡ err dependency_too_deep) × Chain s n id)

-- Some element of a list starts a chain.
abbrev Some : State → ℕ → List OpId → Type 0
Some s n ids = (d : OpId) × (contains ids d ≡ true) × Chain s n d

check_all :
    (s : State) (n : ℕ) (ids : List OpId)
    → ((d : OpId) → Decides s n d (check_levels n s d))
    → ((try_for_each (check_levels n s) ids ≡ ok tt) × (¬ Some s n ids))
      ⊎ ((try_for_each (check_levels n s) ids ≡ err dependency_too_deep) × Some s n ids)
unfolding Decides
check_all s n [] h = inl (refl, λ m. let (d, absent, chain) = m in cc absent)
check_all s n (i ∷ ids) h = elim (h i) [
  | inr (bad, chain) ↦ inr (rw bad, (i, rw (==_refl i), chain))
  | inl (good, free) ↦ elim (check_all s n ids h) [
    | inr (bad, (d, m, chain)) ↦ inr (rw good bad, (d, ground (arith, m), chain))
    | inl (rest, none_of) ↦ inl (
      rw good rest,
      λ x.
          let (d, m, chain) = x in
          elim (Bool-cases (d == i)) [
            | inl e ↦ free (rw (==→eq d i e) at chain)
            | inr e ↦ none_of (d, ground (arith, m), chain)
          ],
    )
  ]
]

Chain-head : (s : State) (n : ℕ) (id : OpId) → Chain s (suc n) id → Some s n (load_deps s id)
Chain-head s n id (link i d m c) = (d, m, c)

check_levels-Decides :
    (levels : ℕ) (s : State) (id : OpId) → Decides s levels id (check_levels levels s id)
unfolding check_levels Decides
check_levels-Decides zero s id = inr (refl, end id)
check_levels-Decides (suc n) s id =
    elim (check_all s n (load_deps s id) (check_levels-Decides n s)) [
      | inl (good, free) ↦ inl (good, λ c. free (Chain-head s n id c))
      | inr (bad, (d, m, chain)) ↦ inr (bad, link id d m chain)
    ]

Decides-iff :
    (s : State) (n : ℕ) (id : OpId) (r : Call (Unit {0}))
    → Decides s n id r
    → ((r ≡ ok tt) ↔ (¬ Chain s n id)) × ((r ≡ err dependency_too_deep) ↔ Chain s n id)
unfolding Decides
Decides-iff s n id r (inl (e, free)) = ((λ h. free, λ h. e), (λ h. cc, λ c. absurd (free c)))
Decides-iff s n id r (inr (e, c)) = ((λ h. cc, λ free. absurd (free c)), (λ h. c, λ h. e))

-- `check_dependency_depth` accepts an identifier at the depth 0 exactly when no path of nine
-- dependencies begins at it, so when every chain of operations from it has at most nine members; it
-- fails with `DependencyTooDeep` otherwise.
pub check_dependency_depth_iff :
    (s : State) (id : OpId)
    → ((check_dependency_depth s id 0 ≡ ok tt) ↔ (¬ Chain s 9 id))
      × ((check_dependency_depth s id 0 ≡ err dependency_too_deep) ↔ Chain s 9 id)
unfolding check_dependency_depth
check_dependency_depth_iff s id =
    Decides-iff s 9 id (check_levels 9 s id) (check_levels-Decides 9 s id)

-- A path of `n` dependencies that begins at `id` and goes through live operations.
pub data LiveChain (s : State) (now : ℕ) : ℕ → OpId → Type 0 where
  end : (id : OpId) → LiveChain s now zero id
  link :
      {n : ℕ} (id d : OpId) (op : Op)
      → contains (load_deps s id) d ≡ true
      → s.ops d ≡ some op
      → IsLive now op
      → LiveChain s now n d
      → LiveChain s now (suc n) id

any-contains :
    (p : OpId → Bool) (ids : List OpId) (d : OpId)
    → contains ids d ≡ true
    → p d ≡ true
    → any p ids ≡ true
any-contains p [] d m h = cc
any-contains p (i ∷ ids) d m h = elim (Bool-cases (d == i)) [
  | inl e ↦ rw (← ==→eq d i e, h)
  | inr e ↦ ground (arith, any-contains p ids d (ground (arith, m)) h)
]

LiveChain-blocked :
    (s : State) (now n : ℕ) (id : OpId) → LiveChain s now n id → blocked_levels now n s id ≡ true
unfolding blocked_levels
LiveChain-blocked s now zero id c = refl
LiveChain-blocked s now (suc n) id (link i d op m e l c) =
    any-contains _ (load_deps s id) d m (rw (e, LiveChain-blocked s now n d c) (ground (arith, l)))

-- An operation with a chain of nine pending ancestors, all within their grace periods, is reported as
-- `Blocked`, though none of the ancestors has been cancelled or has expired.
pub LiveChain-get_operation_status :
    (env : Env) (s : State) (id : OpId) (op : Op)
    → s.ops id ≡ some op
    → IsLive env.timestamp op
    → LiveChain s env.timestamp 9 id
    → get_operation_status env s id ≡ some blocked
unfolding get_operation_status has_blocked_dependency
LiveChain-get_operation_status env s id op e l c =
    ground (arith, LiveChain-blocked s env.timestamp 9 id c)
