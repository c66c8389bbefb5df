-- ===== src/Timelock/Invariant.antt =====
-- The well-formedness of the storage of router-timelock, and the writes of its calls.
use stellar_router.Prelude.{
  ℕ, ◌≤◌, ◌<◌, Bool, true, false, ◌&&◌, ◌||◌, not, Option, none, some, List, [], ◌∷◌, ◌≡◌, refl,
  arith, contains, IsDistinct, length, unwrap_or, without, contains-without, contains-snoc,
  snoc-IsDistinct, without-IsDistinct, length-without-le, length-append,
}
use stellar_router.Prelude.Words.{u64_mod}
use stellar_router.Common.{Address}
use stellar_router.Timelock
use stellar_router.Timelock.{
  Op, OpId, Call, publish, max_grace_period_seconds, deployed, op_cancelled, op_executed,
}
use stellar_router.Timelock.Deps.{pending, finalized}
use stellar_router.Timelock.Calls.{enqueue, finalize}

abbrev State : Type 0
State = Timelock.Timelock

-- What the two indexes say of an identifier, by what is stored under it.
abbrev pub Indexed : Bool → Bool → Option Op → Type 0
Indexed p f none = (p ≡ false) × (f ≡ false)
Indexed p f (some op) =
    (p ≡ (not op.executed && not op.cancelled))
    × (f ≡ (op.executed || op.cancelled))
    × ((op.executed && op.cancelled) ≡ false)
    × (op.eta < u64_mod)
    × (op.grace_period_seconds ≤ max_grace_period_seconds)

-- The administrator and a positive minimum delay are stored together, before any operation.
abbrev pub Configured : Option Address → Option ℕ → List OpId → Type 0
Configured none none ids = ids ≡ []
Configured none (some d) ids = ⊥
Configured (some a) none ids = ⊥
Configured (some a) (some d) ids = 0 < d

pub record IsValid (s : State) : Type 0 where
  pub indexed :
      (id : OpId) → Indexed (contains (pending s) id) (contains (finalized s) id) (s.ops id)
  pub deps_stored : (id : OpId) → s.ops id ≡ none → s.deps id ≡ none
  pub pending_distinct : IsDistinct (pending s)
  pub finalized_distinct : IsDistinct (finalized s)
  pub configured : Configured s.admin s.min_delay (pending s)
  pub within_cap :
      0 < unwrap_or s.max_pending_ops 0 → length (pending s) ≤ unwrap_or s.max_pending_ops 0

pub deployed-IsValid : IsValid deployed
deployed-IsValid = record {
  indexed = λ id. (refl, refl);
  deps_stored = λ id h. refl;
  pending_distinct = tt;
  finalized_distinct = tt;
  configured = refl;
  within_cap = λ h. omega arith;
}

without-nil : (id : OpId) (ids : List OpId) → ids ≡ [] → without id ids ≡ []
without-nil id [] h = refl
without-nil id (x ∷ ids) h = cc

pub Configured-mono :
    (a : Option Address) (d : Option ℕ) {ids ids' : List OpId}
    → (ids ≡ [] → ids' ≡ [])
    → Configured a d ids
    → Configured a d ids'
Configured-mono none none f h = f h
Configured-mono none (some d) f h = h
Configured-mono (some a) none f h = h
Configured-mono (some a) (some d) f h = h

Configured_set :
    (a : Option Address) (d : Option ℕ) (caller : Address) (ids ids' : List OpId)
    → a ≡ some caller
    → Configured a d ids
    → Configured a d ids'
Configured_set none d caller ids ids' e h = cc
Configured_set (some a) none caller ids ids' e h = h
Configured_set (some a) (some d) caller ids ids' e h = h

-- An operation is replaced by a finalized version of itself, and changes its index.
pub finalize-IsValid :
    (s : State) (id : OpId) (op op' : Op)
    → IsValid s
    → s.ops id ≡ some op
    → op.executed ≡ false
    → op.cancelled ≡ false
    → (op'.executed || op'.cancelled) ≡ true
    → (op'.executed && op'.cancelled) ≡ false
    → op'.eta ≡ op.eta
    → op'.grace_period_seconds ≡ op.grace_period_seconds
    → IsValid (finalize s id op')
unfolding finalize
finalize-IsValid s id op op' v stored not_executed not_cancelled final once same_eta same_grace =
    record {
      indexed = λ j. ground (
        arith,
        v.indexed j,
        v.indexed id,
        contains-without id (pending s) j,
        contains-snoc (finalized s) id j,
      );
      deps_stored = λ j. ground (arith, v.deps_stored j);
      pending_distinct = without-IsDistinct id (pending s) v.pending_distinct;
      finalized_distinct =
          snoc-IsDistinct (finalized s) id v.finalized_distinct (ground (arith, v.indexed id));
      configured = Configured-mono s.admin s.min_delay (without-nil id (pending s)) v.configured;
      within_cap = λ h. omega (arith, v.within_cap h, length-without-le id (pending s));
    }

-- A new operation joins the pending index, with or without dependencies.
pub enqueue-IsValid :
    (s : State) (id : OpId) (deps : List OpId) (op : Op) (caller : Address)
    → IsValid s
    → s.admin ≡ some caller
    → s.ops id ≡ none
    → op.executed ≡ false
    → op.cancelled ≡ false
    → op.eta < u64_mod
    → op.grace_period_seconds ≤ max_grace_period_seconds
    → (0 < unwrap_or s.max_pending_ops 0 → length (pending s) < unwrap_or s.max_pending_ops 0)
    → IsValid (enqueue s id deps op)
unfolding enqueue
enqueue-IsValid s id [] op caller v set fresh e c small grace room = record {
  indexed = λ j. ground (arith, v.indexed j, v.indexed id, contains-snoc (pending s) id j);
  deps_stored = λ j. ground (arith, v.deps_stored j);
  pending_distinct =
      snoc-IsDistinct (pending s) id v.pending_distinct (ground (arith, v.indexed id));
  finalized_distinct = v.finalized_distinct;
  configured = Configured_set s.admin s.min_delay caller (pending s) _ set v.configured;
  within_cap = λ h. omega (arith, room h, length-append (pending s) (id ∷ []));
}
enqueue-IsValid s id (d ∷ ds) op caller v set fresh e c small grace room = record {
  indexed = λ j. ground (arith, v.indexed j, v.indexed id, contains-snoc (pending s) id j);
  deps_stored = λ j. ground (arith, v.deps_stored j);
  pending_distinct =
      snoc-IsDistinct (pending s) id v.pending_distinct (ground (arith, v.indexed id));
  finalized_distinct = v.finalized_distinct;
  configured = Configured_set s.admin s.min_delay caller (pending s) _ set v.configured;
  within_cap = λ h. omega (arith, room h, length-append (pending s) (id ∷ []));
}

-- Storage that differs only in the events is as valid.
pub publish-IsValid : (s : State) (e : Timelock.Event) → IsValid s → IsValid (publish s e)
publish-IsValid s e v = record {
  indexed = v.indexed;
  deps_stored = v.deps_stored;
  pending_distinct = v.pending_distinct;
  finalized_distinct = v.finalized_distinct;
  configured = v.configured;
  within_cap = v.within_cap;
}
