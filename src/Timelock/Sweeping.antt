-- ===== src/Timelock/Sweeping.antt =====
-- What the two loops of `cleanup_expired` do to the storage, proved once for any body that keeps,
-- drops or reclaims the identifier that it is given.
use stellar_router.Prelude.{
  ℕ, ◌+◌, ◌≤◌, true, false, ◌&&◌, ◌||◌, not, Option, none, some, List, [], ◌∷◌, ◌≡◌, refl, ◌⊎◌, inl,
  inr, arith, contains, IsDistinct, length, contains-snoc, length-append, snoc-IsDistinct,
  Bool-cases, leb, ◌==◌, ◌∙◌, sym, ==→eq,
}
use mathlib.Core.Path.{subst}
use stellar_router.Timelock
use stellar_router.Timelock.{Op, OpId}
use stellar_router.Timelock.Deps.{is_expired}
use stellar_router.Timelock.Cleanup.{
  Sweep, sweep_all, sweep_pending, sweep_pending_op, sweep_finalized, reclaim, keep,
}

abbrev State : Type 0
State = Timelock.Timelock

-- The storage under `j` and its place among the kept identifiers stay as they were.
abbrev pub Untouched : Sweep → Sweep → OpId → Type 0
Untouched w w' j =
    (w'.state.ops j ≡ w.state.ops j)
    × (w'.state.deps j ≡ w.state.deps j)
    × (contains w'.kept j ≡ contains w.kept j)

abbrev pub Kept : Sweep → Sweep → OpId → Type 0
Kept w w' j =
    (w'.state.ops j ≡ w.state.ops j)
    × (w'.state.deps j ≡ w.state.deps j)
    × (contains w'.kept j ≡ true)

-- Nothing is left under `j`, which satisfied `may`.
abbrev pub Gone : (OpId → Option Op → Type 0) → Sweep → Sweep → OpId → Type 0
Gone may w w' j =
    (w'.state.ops j ≡ none)
    × (w'.state.deps j ≡ none)
    × (contains w'.kept j ≡ contains w.kept j)
    × may j (w.state.ops j)

-- Every entry of the storage that the loops do not write.
pub record Frame (s t : State) : Type 0 where
  pub admin : t.admin ≡ s.admin
  pub min_delay : t.min_delay ≡ s.min_delay
  pub max_pending_ops : t.max_pending_ops ≡ s.max_pending_ops
  pub pending_ops : t.pending_ops ≡ s.pending_ops
  pub finalized_ops : t.finalized_ops ≡ s.finalized_ops
  pub events : t.events ≡ s.events

abbrev pub NoStray : State → Type 0
NoStray s = (j : OpId) → s.ops j ≡ none → s.deps j ≡ none

-- One run of a loop's body.
pub record Turn (may : OpId → Option Op → Type 0) (limit : ℕ) (id : OpId) (w w' : Sweep)
    : Type 0 where
  pub others : (j : OpId) → (j == id) ≡ false → Untouched w w' j
  pub fate : Kept w w' id ⊎ Gone may w w' id
  pub frame : Frame w.state w'.state
  pub stray : NoStray w'.state
  pub count : w'.cleaned_count + length w'.kept ≡ w.cleaned_count + length w.kept + 1
  pub grows : w.cleaned_count ≤ w'.cleaned_count
  pub still : w'.cleaned_count ≡ w.cleaned_count → w'.state ≡ w.state
  pub capped : w.cleaned_count ≤ limit → w'.cleaned_count ≤ limit
  pub distinct : IsDistinct w.kept → contains w.kept id ≡ false → IsDistinct w'.kept

-- A whole loop over the identifiers `ids`.
pub record Sweeps (may : OpId → Option Op → Type 0) (limit : ℕ) (ids : List OpId) (w w' : Sweep)
    : Type 0 where
  pub others : (j : OpId) → contains ids j ≡ false → Untouched w w' j
  pub fate : (j : OpId) → contains ids j ≡ true → Kept w w' j ⊎ Gone may w w' j
  pub frame : Frame w.state w'.state
  pub stray : NoStray w'.state
  pub count : w'.cleaned_count + length w'.kept ≡ w.cleaned_count + length w.kept + length ids
  pub grows : w.cleaned_count ≤ w'.cleaned_count
  pub still : w'.cleaned_count ≡ w.cleaned_count → w'.state ≡ w.state
  pub capped : w.cleaned_count ≤ limit → w'.cleaned_count ≤ limit
  pub distinct :
      IsDistinct w.kept
      → ((j : OpId) → contains ids j ≡ true → contains w.kept j ≡ false)
      → IsDistinct w'.kept

Frame-trans : {s t u : State} → Frame s t → Frame t u → Frame s u
Frame-trans f g = record {
  admin = g.admin ∙ f.admin;
  min_delay = g.min_delay ∙ f.min_delay;
  max_pending_ops = g.max_pending_ops ∙ f.max_pending_ops;
  pending_ops = g.pending_ops ∙ f.pending_ops;
  finalized_ops = g.finalized_ops ∙ f.finalized_ops;
  events = g.events ∙ f.events;
}

-- The first turn of a loop and the rest of it settle the fate of each identifier once.
sweep_fate :
    (may : OpId → Option Op → Type 0) (w v u : Sweep) (id j : OpId) (ids : List OpId)
    → contains ids id ≡ false
    → ((i : OpId) → (i == id) ≡ false → Untouched w v i)
    → Kept w v id ⊎ Gone may w v id
    → ((i : OpId) → contains ids i ≡ false → Untouched v u i)
    → ((i : OpId) → contains ids i ≡ true → Kept v u i ⊎ Gone may v u i)
    → contains (id ∷ ids) j ≡ true
    → Kept w u j ⊎ Gone may w u j
sweep_fate may w v u id j ids once others fate rest_others rest_fate h =
    elim (Bool-cases (j == id)) [
      | inl e ↦
          subst (λ i. Kept w u i ⊎ Gone may w u i) (sym (==→eq j id e))
            (first fate (rest_others id once))
      | inr e ↦ second (others j e) (rest_fate j (rw e at h))
    ]
  where
    first : Kept w v id ⊎ Gone may w v id → Untouched v u id → Kept w u id ⊎ Gone may w u id
    first (inl (o, d, k)) (o', d', k') = inl (o' ∙ o, d' ∙ d, k' ∙ k)
    first (inr (o, d, k, m)) (o', d', k') = inr (o' ∙ o, d' ∙ d, k' ∙ k, m)

    second : Untouched w v j → Kept v u j ⊎ Gone may v u j → Kept w u j ⊎ Gone may w u j
    second (o, d, k) (inl (o', d', k')) = inl (o' ∙ o, d' ∙ d, k')
    second (o, d, k) (inr (o', d', k', m)) = inr (o', d', k' ∙ k, rw o at m)

module _ (may : OpId → Option Op → Type 0) (limit : ℕ) (body : OpId → Sweep → Sweep)
    (turn : (id : OpId) (w : Sweep) → NoStray w.state → Turn may limit id w (body id w)) where
  pub sweep_all-Sweeps :
      (ids : List OpId) (w : Sweep)
      → NoStray w.state
      → IsDistinct ids
      → Sweeps may limit ids w (sweep_all body ids w)
  unfolding sweep_all
  sweep_all-Sweeps [] w stray d = record {
    others = λ j h. (refl, refl, refl);
    fate = λ j h. cc;
    frame = record {
      admin = refl;
      min_delay = refl;
      max_pending_ops = refl;
      pending_ops = refl;
      finalized_ops = refl;
      events = refl;
    };
    stray = stray;
    count = omega arith;
    grows = omega arith;
    still = λ h. refl;
    capped = λ h. h;
    distinct = λ h k. h;
  }
  sweep_all-Sweeps (id ∷ ids) w stray d =
      let t = turn id w stray in
      let r = sweep_all-Sweeps ids (body id w) t.stray d.1 in
      record {
        others = λ j h. ground (arith, t.others j, r.others j);
        fate = λ j h.
            sweep_fate may w (body id w) (sweep_all body ids (body id w)) id j ids d.0 t.others
              t.fate r.others r.fate h;
        frame = Frame-trans t.frame r.frame;
        stray = r.stray;
        count = omega (arith, t.count, r.count);
        grows = omega (arith, t.grows, r.grows);
        still = λ h.
            r.still (omega (arith, t.grows, r.grows)) ∙ t.still (omega (arith, t.grows, r.grows));
        capped = λ h. r.capped (t.capped h);
        distinct = λ h k.
            r.distinct (t.distinct h (k id (ground arith)))
              (λ j m. ground (arith, t.others j, k j, ==→eq j id));
      }

-- What the first loop may reclaim: an expired operation that no live operation depends on, or an
-- identifier with nothing stored.
abbrev pub MayExpire : ℕ → List OpId → OpId → Option Op → Type 0
MayExpire now referenced id none = Unit
MayExpire now referenced id (some op) =
    (is_expired op now ≡ true) × (contains referenced id ≡ false)

-- What the second loop may reclaim: an operation that no live operation depends on.
abbrev pub MayForget : List OpId → OpId → Option Op → Type 0
MayForget referenced id stored = contains referenced id ≡ false

keep-Turn :
    (may : OpId → Option Op → Type 0) (limit : ℕ) (id : OpId) (w : Sweep)
    → NoStray w.state
    → Turn may limit id w (keep w id)
keep-Turn may limit id w stray = record {
  others = λ j h. ground (arith, contains-snoc w.kept id j);
  fate = inl (refl, refl, ground (arith, contains-snoc w.kept id id));
  frame = record {
    admin = refl;
    min_delay = refl;
    max_pending_ops = refl;
    pending_ops = refl;
    finalized_ops = refl;
    events = refl;
  };
  stray = stray;
  count = omega (arith, length-append w.kept (id ∷ []));
  grows = omega arith;
  still = λ h. refl;
  capped = λ h. h;
  distinct = λ h k. snoc-IsDistinct w.kept id h k;
}

reclaim-Turn :
    (may : OpId → Option Op → Type 0) (limit : ℕ) (id : OpId) (w : Sweep)
    → NoStray w.state
    → leb limit w.cleaned_count ≡ false
    → may id (w.state.ops id)
    → Turn may limit id w (reclaim w id)
unfolding reclaim
reclaim-Turn may limit id w stray room m = record {
  others = λ j h. ground arith;
  fate = inr (ground arith, ground arith, refl, m);
  frame = record {
    admin = refl;
    min_delay = refl;
    max_pending_ops = refl;
    pending_ops = refl;
    finalized_ops = refl;
    events = refl;
  };
  stray = λ j h. ground (arith, stray j);
  count = omega arith;
  grows = omega arith;
  still = λ h. absurd (omega arith);
  capped = λ h. ground arith;
  distinct = λ h k. h;
}

drop-Turn :
    (now limit : ℕ) (referenced : List OpId) (id : OpId) (w : Sweep)
    → NoStray w.state
    → leb limit w.cleaned_count ≡ false
    → w.state.ops id ≡ none
    → Turn (MayExpire now referenced) limit id w (record w { cleaned_count = w.cleaned_count + 1 })
drop-Turn now limit referenced id w stray room e = record {
  others = λ j h. (refl, refl, refl);
  fate = inr (e, stray id e, refl, rw e tt);
  frame = record {
    admin = refl;
    min_delay = refl;
    max_pending_ops = refl;
    pending_ops = refl;
    finalized_ops = refl;
    events = refl;
  };
  stray = stray;
  count = omega arith;
  grows = omega arith;
  still = λ h. refl;
  capped = λ h. ground arith;
  distinct = λ h k. h;
}

sweep_pending_op-Turn :
    (now limit : ℕ) (referenced : List OpId) (id : OpId) (w : Sweep) (o : Option Op)
    → NoStray w.state
    → w.state.ops id ≡ o
    → Turn (MayExpire now referenced) limit id w (sweep_pending_op now limit referenced id w o)
unfolding sweep_pending_op
sweep_pending_op-Turn now limit referenced id w none stray e =
    elim (Bool-cases (leb limit w.cleaned_count)) [
      | inl full ↦ rw full (keep-Turn _ limit id w stray)
      | inr room ↦ rw room (drop-Turn now limit referenced id w stray room e)
    ]
sweep_pending_op-Turn now limit referenced id w (some op) stray e =
    elim (Bool-cases (leb limit w.cleaned_count)) [
      | inl full ↦ rw full (keep-Turn _ limit id w stray)
      | inr room ↦ rw room (elim (Bool-cases (is_expired op now && not (contains referenced id))) [
        | inl dead ↦ rw dead (reclaim-Turn _ limit id w stray room (rw e (ground arith)))
        | inr alive ↦ rw alive (keep-Turn _ limit id w stray)
      ])
    ]

pub sweep_pending-Turn :
    (now limit : ℕ) (referenced : List OpId) (id : OpId) (w : Sweep)
    → NoStray w.state
    → Turn (MayExpire now referenced) limit id w (sweep_pending now limit referenced id w)
unfolding sweep_pending
sweep_pending-Turn now limit referenced id w stray =
    sweep_pending_op-Turn now limit referenced id w (w.state.ops id) stray refl

pub sweep_finalized-Turn :
    (limit : ℕ) (referenced : List OpId) (id : OpId) (w : Sweep)
    → NoStray w.state
    → Turn (MayForget referenced) limit id w (sweep_finalized limit referenced id w)
unfolding sweep_finalized
sweep_finalized-Turn limit referenced id w stray =
    elim (Bool-cases (leb limit w.cleaned_count || contains referenced id)) [
      | inl stay ↦ rw stay (keep-Turn _ limit id w stray)
      | inr go ↦ rw go (reclaim-Turn _ limit id w stray (ground arith) (ground arith))
    ]
