-- ===== src/Timelock/Live.antt =====
-- A cleanup is invisible to the live operations of router-timelock: those that are pending and have not
-- expired.
use stellar_router.Prelude.{
  ℕ, zero, suc, Bool, true, false, ◌||◌, not, Option, none, some, List, [], ◌∷◌, ◌≡◌, refl, inl,
  inr, arith, contains, contains-append, any, Bool-cases, Option-cases, ◌==◌, ==→eq, ap, ◌∙◌, sym,
}
use stellar_router.Common.{Address, Env, ok, try_for_each, fail_if}
use stellar_router.Timelock
use stellar_router.Timelock.{Op, OpId, Call, dependency_not_executed}
use stellar_router.Timelock.Deps.{
  pending, load_deps, is_expired, is_executed, blocks, blocked_levels, has_blocked_dependency,
  require_dependencies_executed,
}
use stellar_router.Timelock.Cleanup.{referenced_by, cleanup_expired}
use stellar_router.Timelock.Status.{get_operation_status}
use stellar_router.Timelock.Invariant.{IsValid}
use stellar_router.Timelock.Reclaim.{CleansUp, Left, cleanup_expired-CleansUp}

abbrev State : Type 0
State = Timelock.Timelock

-- Pending, and within its grace period.
pub record IsLive (now : ℕ) (op : Op) : Type 0 where
  pub not_executed : op.executed ≡ false
  pub not_cancelled : op.cancelled ≡ false
  pub not_expired : is_expired op now ≡ false

-- The dependencies of a live operation of the index are referenced.
contains-referenced_by :
    (s : State) (now : ℕ) (ids : List OpId) (id d : OpId) (op : Op)
    → contains ids id ≡ true
    → s.ops id ≡ some op
    → is_expired op now ≡ false
    → contains (load_deps s id) d ≡ true
    → contains (referenced_by s now ids) d ≡ true
unfolding referenced_by
contains-referenced_by s now [] id d op m e x h = cc
contains-referenced_by s now (i ∷ ids) id d op m e x h = elim (Bool-cases (id == i)) [
  | inl same ↦
      let e' : s.ops i ≡ some op = rw (==→eq id i same) at e in
      let h' : contains (load_deps s i) d ≡ true = rw (==→eq id i same) at h in
      rw (contains-append _ (referenced_by s now ids) d, e', x) (ground (arith, h'))
  | inr other ↦
      rw (contains-append _ (referenced_by s now ids) d)
        (ground (arith, contains-referenced_by s now ids id d op (ground arith) e x h))
]

module _ (now limit n : ℕ) (s t : State) (v : IsValid s) (c : CleansUp now limit s n t) where
  live-Left : (id : OpId) (op : Op) → s.ops id ≡ some op → IsLive now op → Left s t id
  live-Left id op e l = ground (arith, c.fate id op e)

  live_pending :
      (id : OpId) (op : Op) → s.ops id ≡ some op → IsLive now op → contains (pending s) id ≡ true
  live_pending id op e l = ground (arith, v.indexed id)

  live_deps_left :
      (id d : OpId) (op : Op)
      → s.ops id ≡ some op
      → IsLive now op
      → contains (load_deps s id) d ≡ true
      → t.ops d ≡ s.ops d
  live_deps_left id d op e l h =
      let r =
        contains-referenced_by s now (pending s) id d op (live_pending id op e l) e l.not_expired
          h in
      elim (Option-cases (s.ops d)) [
        | inl z ↦ c.absent d z ∙ sym z
        | inr (o, z) ↦ ground (arith, c.fate d o z, r)
      ]

  live_load_deps :
      (id : OpId) (op : Op) → s.ops id ≡ some op → IsLive now op → load_deps t id ≡ load_deps s id
  unfolding load_deps
  live_load_deps id op e l = ground (arith, live-Left id op e l)

any-cong :
    (p q : OpId → Bool) (ids : List OpId)
    → ((d : OpId) → contains ids d ≡ true → p d ≡ q d)
    → any p ids ≡ any q ids
any-cong p q [] h = refl
any-cong p q (i ∷ ids) h =
    ground (arith, h i (ground arith), any-cong p q ids (λ d m. h d (ground (arith, m))))

-- The recursive call matters only at a live operation.
blocks-cong :
    (now : ℕ) (p q : Bool) (o : Option Op)
    → ((op : Op) → o ≡ some op → IsLive now op → p ≡ q)
    → blocks now p o ≡ blocks now q o
unfolding blocks
blocks-cong now p q none h = refl
blocks-cong now p q (some op) h =
    elim (Bool-cases (op.cancelled || op.executed || is_expired op now)) [
      | inl dead ↦ ground arith
      | inr alive ↦
          ap (λ b. blocks now b (some op))
            (h op refl (record {
              not_executed = ground arith;
              not_cancelled = ground arith;
              not_expired = ground arith;
            }))
    ]

module _ (now limit n : ℕ) (s t : State) (v : IsValid s) (c : CleansUp now limit s n t) where
  blocked_levels-cleanup :
      (levels : ℕ) (id : OpId) (op : Op)
      → s.ops id ≡ some op
      → IsLive now op
      → blocked_levels now levels t id ≡ blocked_levels now levels s id
  unfolding blocked_levels
  blocked_levels-cleanup zero id op e l = refl
  blocked_levels-cleanup (suc levels) id op e l =
      rw (live_load_deps now limit n s t v c id op e l) (
        any-cong _ _ (load_deps s id) (λ d m.
          rw (live_deps_left now limit n s t v c id d op e l m)
            (blocks-cong now _ _ (s.ops d) (λ o z k. blocked_levels-cleanup levels d o z k))))

  dependencies-cleanup :
      (ids : List OpId)
      → ((d : OpId) → contains ids d ≡ true → t.ops d ≡ s.ops d)
      → try_for_each {E = Timelock.TimelockError}
          (λ d. fail_if (not (is_executed (t.ops d))) dependency_not_executed)
          ids
        ≡ try_for_each (λ d. fail_if (not (is_executed (s.ops d))) dependency_not_executed) ids
  dependencies-cleanup [] h = refl
  dependencies-cleanup (i ∷ ids) h =
      ground (arith, h i (ground arith), dependencies-cleanup ids (λ d m. h d (ground (arith, m))))

  require_dependencies-cleanup :
      (id : OpId) (op : Op)
      → s.ops id ≡ some op
      → IsLive now op
      → require_dependencies_executed t id ≡ require_dependencies_executed s id
  unfolding require_dependencies_executed
  require_dependencies-cleanup id op e l = rw (live_load_deps now limit n s t v c id op e l) (
      dependencies-cleanup (load_deps s id)
        (λ d m. live_deps_left now limit n s t v c id d op e l m))

module _ (env : Env) (limit n : ℕ) (s t : State) (v : IsValid s)
    (c : CleansUp env.timestamp limit s n t) where
  has_blocked-cleanup :
      (id : OpId) (op : Op)
      → s.ops id ≡ some op
      → IsLive env.timestamp op
      → has_blocked_dependency env t id ≡ has_blocked_dependency env s id
  unfolding has_blocked_dependency
  has_blocked-cleanup id op e l = blocked_levels-cleanup env.timestamp limit n s t v c 9 id op e l

  status-cleanup :
      (id : OpId) (op : Op)
      → s.ops id ≡ some op
      → IsLive env.timestamp op
      → get_operation_status env t id ≡ get_operation_status env s id
  unfolding get_operation_status
  status-cleanup id op e l =
      ground
        (arith, has_blocked-cleanup id op e l, live-Left env.timestamp limit n s t v c id op e l)

-- A cleanup leaves every live operation of a well-formed storage as it was: the operation stays stored
-- and pending with its dependencies, its status at that time is the same, and so is the outcome of the
-- check that its dependencies were executed.
pub cleanup_keeps_live :
    (env : Env) (s : State) (caller : Address) (limit n : ℕ) (t : State) (id : OpId) (op : Op)
    → IsValid s
    → cleanup_expired env s caller limit ≡ ok (n, t)
    → s.ops id ≡ some op
    → IsLive env.timestamp op
    → Left s t id
      × (get_operation_status env t id ≡ get_operation_status env s id)
      × (require_dependencies_executed t id ≡ require_dependencies_executed s id)
cleanup_keeps_live env s caller limit n t id op v h e l =
    let c = cleanup_expired-CleansUp env s caller limit n t v h in
    (
      live-Left env.timestamp limit n s t v c id op e l,
      status-cleanup env limit n s t v c id op e l,
      require_dependencies-cleanup env.timestamp limit n s t v c id op e l,
    )
