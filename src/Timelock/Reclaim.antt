-- ===== src/Timelock/Reclaim.antt =====
-- `cleanup_expired` of contracts/router-timelock/src/lib.rs: what it reclaims, what it leaves, and that
-- a live operation never loses its dependencies.
use stellar_router.Prelude.{
  ℕ, ◌+◌, ◌≤◌, true, false, ◌||◌, none, some, List, [], ◌∷◌, ◌++◌, ◌≡◌, ◌∙◌, refl, sym, ap, ◌⊎◌,
  inl, inr, arith, contains, length, ltb, Bool-cases,
}
use mathlib.Core.Path.{subst}
use stellar_router.Common.{Address, Env, ok}
use stellar_router.Timelock
use stellar_router.Timelock.{Op, OpId, publish, ops_cleaned}
use stellar_router.Timelock.Deps.{pending, finalized, is_expired}
use stellar_router.Timelock.Cleanup.{
  Sweep, referenced, sweep_pending, sweep_finalized, swept_pending, swept_finalized,
  cleanup_expired,
}
use stellar_router.Timelock.Sweeping.{
  Sweeps, MayExpire, MayForget, sweep_all-Sweeps, sweep_pending-Turn, sweep_finalized-Turn,
}
use stellar_router.Timelock.Invariant.{IsValid, publish-IsValid, Configured-mono}

abbrev State : Type 0
State = Timelock.Timelock

abbrev start : State → Sweep
start s = record { kept = []; cleaned_count = 0; state = s }

-- The two loops on a valid storage.
record Cleans (now limit : ℕ) (s : State) : Type 0 where
  first :
      Sweeps
        (MayExpire now (referenced s now))
        limit
        (pending s)
        (start s)
        (swept_pending now limit s)
  second :
      Sweeps
        (MayForget (referenced s now))
        limit
        (finalized s)
        (record (swept_pending now limit s) { kept = [] })
        (swept_finalized now limit s)

Cleans_lem : (now limit : ℕ) (s : State) → IsValid s → Cleans now limit s
unfolding swept_pending swept_finalized
Cleans_lem now limit s v = record { first = one; second = two }
  where
    one :
        Sweeps
          (MayExpire now (referenced s now))
          limit
          (pending s)
          (start s)
          (swept_pending now limit s)
    one =
        sweep_all-Sweeps (MayExpire now (referenced s now)) limit
          (sweep_pending now limit (referenced s now))
          (sweep_pending-Turn now limit (referenced s now)) (pending s) (start s) v.deps_stored
          v.pending_distinct

    two :
        Sweeps
          (MayForget (referenced s now))
          limit
          (finalized s)
          (record (swept_pending now limit s) { kept = [] })
          (swept_finalized now limit s)
    two =
        sweep_all-Sweeps (MayForget (referenced s now)) limit
          (sweep_finalized limit (referenced s now)) (sweep_finalized-Turn limit (referenced s now))
          (finalized s) (record (swept_pending now limit s) { kept = [] }) one.stray
          v.finalized_distinct

length-zero : (ids : List OpId) → length ids ≡ 0 → ids ≡ []
length-zero [] h = refl
length-zero (x ∷ ids) h = absurd (omega arith)

-- The storage after a cleanup that reclaimed something, but for its event.
abbrev cleaned : ℕ → ℕ → State → State
cleaned now limit s =
    let f = swept_finalized now limit s in
    record f.state {
      pending_ops = some (swept_pending now limit s).kept;
      finalized_ops = some f.kept;
    }

cleaned-IsValid : (now limit : ℕ) (s : State) → IsValid s → IsValid (cleaned now limit s)
cleaned-IsValid now limit s v =
    let c = Cleans_lem now limit s v in
    record {
      indexed = λ j. ground (
        arith,
        v.indexed j,
        c.first.others j,
        c.first.fate j,
        c.second.others j,
        c.second.fate j,
      );
      deps_stored = c.second.stray;
      pending_distinct = c.first.distinct tt (λ j h. refl);
      finalized_distinct = c.second.distinct tt (λ j h. refl);
      configured =
          rw
            (
              c.second.frame.admin ∙ c.first.frame.admin,
              c.second.frame.min_delay ∙ c.first.frame.min_delay,
            )
            (Configured-mono s.admin s.min_delay
              (λ e.
                length-zero (swept_pending now limit s).kept
                  (omega (arith, c.first.count, ap length e)))
              v.configured);
      within_cap =
          rw (c.second.frame.max_pending_ops ∙ c.first.frame.max_pending_ops)
            (λ h. omega (arith, v.within_cap h, c.first.count));
    }

-- How a cleanup of a valid storage ends: it counts nothing and changes nothing, or it writes both
-- indexes and publishes its count.
Ends : ℕ → ℕ → State → ℕ → State → Type 0
Ends now limit s n t =
    ((n ≡ 0) × (t ≡ s))
    ⊎ ((n ≡ (swept_finalized now limit s).cleaned_count)
        × (t ≡ publish (cleaned now limit s) (ops_cleaned n)))

unchanged :
    (now limit : ℕ) (s : State)
    → IsValid s
    → (swept_finalized now limit s).cleaned_count ≡ 0
    → (swept_finalized now limit s).state ≡ s
unchanged now limit s v e =
    let c = Cleans_lem now limit s v in
    c.second.still (omega (arith, c.second.grows)) ∙ c.first.still (omega (arith, c.second.grows))

cleanup_expired-Ends :
    (env : Env) (s : State) (caller : Address) (limit n : ℕ) (t : State)
    → IsValid s
    → cleanup_expired env s caller limit ≡ ok (n, t)
    → Ends env.timestamp limit s n t
unfolding cleanup_expired Ends
cleanup_expired-Ends env s caller limit n t v h =
    elim (Bool-cases (ltb 0 (swept_finalized env.timestamp limit s).cleaned_count)) [
      | inl e ↦ inr (ground arith, ground arith)
      | inr e ↦ inl (ground arith, ground (arith, unchanged env.timestamp limit s v))
    ]

Ends-IsValid :
    (now limit : ℕ) (s : State) (n : ℕ) (t : State) → IsValid s → Ends now limit s n t → IsValid t
unfolding Ends
Ends-IsValid now limit s n t v (inl (z, e)) = subst IsValid (sym e) v
Ends-IsValid now limit s n t v (inr (z, e)) =
    subst IsValid (sym e) (publish-IsValid _ (ops_cleaned n) (cleaned-IsValid now limit s v))

-- A cleanup keeps the storage well formed.
pub cleanup_expired-IsValid :
    (env : Env) (s : State) (caller : Address) (limit n : ℕ) (t : State)
    → IsValid s
    → cleanup_expired env s caller limit ≡ ok (n, t)
    → IsValid t
cleanup_expired-IsValid env s caller limit n t v h =
    Ends-IsValid env.timestamp limit s n t v (cleanup_expired-Ends env s caller limit n t v h)

-- What a cleanup at the time `now` may take away: an operation that is executed, cancelled or expired,
-- and that no live pending operation lists among its dependencies.
abbrev pub Reclaimable : ℕ → State → OpId → Op → Type 0
Reclaimable now s id op =
    ((op.executed || op.cancelled || is_expired op now) ≡ true)
    × (contains (referenced s now) id ≡ false)

abbrev pub Left : State → State → OpId → Type 0
Left s t id =
    (t.ops id ≡ s.ops id)
    × (t.deps id ≡ s.deps id)
    × (contains (pending t) id ≡ contains (pending s) id)
    × (contains (finalized t) id ≡ contains (finalized s) id)

abbrev pub Reclaimed : State → OpId → Type 0
Reclaimed t id =
    (t.ops id ≡ none)
    × (t.deps id ≡ none)
    × (contains (pending t) id ≡ false)
    × (contains (finalized t) id ≡ false)

-- The end of a cleanup, for each stored operation, and in numbers.
pub record CleansUp (now limit : ℕ) (s : State) (n : ℕ) (t : State) : Type 0 where
  pub bounded : n ≤ limit
  pub counted :
      n + length (pending t) + length (finalized t) ≡ length (pending s) + length (finalized s)
  pub fate :
      (id : OpId) (op : Op)
      → s.ops id ≡ some op
      → Left s t id ⊎ (Reclaimed t id × Reclaimable now s id op)
  pub absent : (id : OpId) → s.ops id ≡ none → t.ops id ≡ none
  pub same_admin : t.admin ≡ s.admin
  pub same_min_delay : t.min_delay ≡ s.min_delay
  pub published : (t.events ≡ s.events) ⊎ (t.events ≡ s.events ++ ops_cleaned n ∷ [])

cleaned-CleansUp :
    (now limit : ℕ) (s : State)
    → IsValid s
    → CleansUp now limit s
        (swept_finalized now limit s).cleaned_count
        (publish (cleaned now limit s) (ops_cleaned (swept_finalized now limit s).cleaned_count))
cleaned-CleansUp now limit s v =
    let c = Cleans_lem now limit s v in
    record {
      bounded = c.second.capped (c.first.capped (omega arith));
      counted = omega (arith, c.first.count, c.second.count);
      fate = λ j op e. ground (
        arith,
        v.indexed j,
        c.first.others j,
        c.first.fate j,
        c.second.others j,
        c.second.fate j,
      );
      absent = λ j e. ground (
        arith,
        v.indexed j,
        c.first.others j,
        c.first.fate j,
        c.second.others j,
        c.second.fate j,
      );
      same_admin = c.second.frame.admin ∙ c.first.frame.admin;
      same_min_delay = c.second.frame.min_delay ∙ c.first.frame.min_delay;
      published = inr (
          ap (λ es. es ++ ops_cleaned (swept_finalized now limit s).cleaned_count ∷ [])
            (c.second.frame.events ∙ c.first.frame.events));
    }

idle-CleansUp : (now limit : ℕ) (s : State) → CleansUp now limit s 0 s
idle-CleansUp now limit s = record {
  bounded = omega arith;
  counted = omega arith;
  fate = λ id op e. inl (refl, refl, refl, refl);
  absent = λ id e. e;
  same_admin = refl;
  same_min_delay = refl;
  published = inl refl;
}

Ends-CleansUp :
    (now limit : ℕ) (s : State) (n : ℕ) (t : State)
    → IsValid s
    → Ends now limit s n t
    → CleansUp now limit s n t
unfolding Ends
Ends-CleansUp now limit s n t v (inl (z, e)) = rw (z, e) (idle-CleansUp now limit s)
Ends-CleansUp now limit s n t v (inr (z, e)) = rw (e, z) (cleaned-CleansUp now limit s v)

-- A cleanup of a well-formed storage takes away at most `limit` operations and returns their number;
-- each that it takes away is executed, cancelled or expired and is no dependency of a live pending
-- operation, and its entry, its dependencies and its place in the indexes go together; every other
-- operation keeps all of these, the administrator and the minimum delay stay, and at most the event with
-- the count is published.
pub cleanup_expired-CleansUp :
    (env : Env) (s : State) (caller : Address) (limit n : ℕ) (t : State)
    → IsValid s
    → cleanup_expired env s caller limit ≡ ok (n, t)
    → CleansUp env.timestamp limit s n t
cleanup_expired-CleansUp env s caller limit n t v h =
    Ends-CleansUp env.timestamp limit s n t v (cleanup_expired-Ends env s caller limit n t v h)
