-- ===== src/Middleware/Quota.antt =====
-- How many of the calls of one caller `pre_call` of contracts/router-middleware/src/lib.rs lets through in a
-- window of the rate limit, by the strategy of the route, failed calls rolled back.
use stellar_router.Prelude.{
  ℕ, suc, ◌+◌, ◌-◌, ◌++◌, ◌≤◌, ◌<◌, Bool, true, false, Option, List, [], ◌∷◌, ◌≡◌, refl, sym, ap,
  ◌∙◌, inl, inr, arith, length, All, leb, if◌then◌else◌, Bool-cases,
}
use mathlib.Core.Path.{subst}
use Prim.Native.Nat.{min}
use stellar_router.Prelude.Words.{u32_max, u64_mod}
use stellar_router.Common.{Address, Env, ok, err, panic, ◌>>=◌}
use stellar_router.Middleware
use stellar_router.Middleware.{
  Route, RouteConfig, RouteCallState, CallerRateLimitConfig, RateLimitStrategy, Call,
  MiddlewareError, Event, publish, reject, throttle, log_only,
}
use stellar_router.Middleware.Calls.{effective_limit, react, pre_call, pass_limit}
use stellar_router.Middleware.Window.{is_limited, with_limit, pass_limit-within, pass_limit-over}
use stellar_router.Middleware.Strategy.{
  tolerated, strategy_cases, tolerated-zero, tolerated-suc, tolerated_one,
}
use stellar_router.Middleware.PreCall.{guarded}
use stellar_router.Middleware.Admission.{Standing, InWindow, pre_call-passes, pre_call-fails}
use stellar_router.Middleware.History.{settle}

abbrev State : Type 0
State = Middleware.Middleware

abbrev pub is_ok : Call State → Bool
is_ok (ok t) = true
is_ok (err e) = false
is_ok panic = false

-- The calls of `pre_call` by a caller, one after the other: how many return `Ok`, and the storage after
-- them.
abbrev pub pre_calls : List Env → State → Address → Route → ℕ × State
pre_calls [] s caller route = (0, s)
pre_calls (env ∷ envs) s caller route =
    let r = pre_call env s caller route in
    let rest = pre_calls envs (settle s r) caller route in
    ((if is_ok r then rest.0 + 1 else rest.0), rest.1)

module _ (caller : Address) (route : Route) (config : RouteConfig)
    (override : Option CallerRateLimitConfig) (strategy : RateLimitStrategy) (pruned_at start : ℕ)
    (enabled : config.enabled ≡ true) (limited : is_limited config override ≡ true)
    (fits : (effective_limit config override).0 ≤ u32_max) where
  abbrev limit : ℕ
  limit = (effective_limit config override).0

  abbrev Stands : ℕ → ℕ → ℕ → State → Type 0
  Stands = Standing caller route config override strategy pruned_at start

  Stands-subst :
      {c c' v v' n n' : ℕ} (t : State)
      → c ≡ c'
      → v ≡ v'
      → n ≡ n'
      → Stands c v n t
      → Stands c' v' n' t
  Stands-subst {c} {c'} {v} {v'} {n} {n'} t p q r x =
      subst (λ (k : ℕ). Stands k v' n' t) p
        (subst (λ (k : ℕ). Stands c k n' t) q (subst (λ (k : ℕ). Stands c v k t) r x))

  abbrev Inside : Env → Type 0
  Inside = InWindow caller route config override strategy pruned_at start

  module _ (env : Env) (s : State) (calls violations total : ℕ)
      (x : Stands calls violations total s) (w : Inside env) where
    pre_call-within :
        calls < limit
        → total + 1 < u64_mod
        → (t : State) × (pre_call env s caller route ≡ ok t)
          × Stands (calls + 1) violations (total + 1) t
    pre_call-within l m =
        pre_call-passes caller route config override strategy pruned_at start env s calls violations
          total x w enabled s.events (calls + 1) violations m
          (pass_limit-within env (guarded s route) caller route config x.st _ x.has_limit
            (rw x.own_limit limited) (rw x.own_limit w.inside) (rw x.own_limit l)
            (rw x.own_limit fits))

    -- What the rate limit's part makes of a call over the limit, by the strategy.
    abbrev answer : RateLimitStrategy → Call (RouteCallState × Bool × State)
    answer r = react (guarded s route) caller route r >>= λ (t : State). ok (
      with_limit x.st caller (record {
        calls_in_window = calls;
        window_start = start;
        total_violations = violations + 1;
      }),
      true,
      t,
    )

    pass_limit-answer :
        limit ≤ calls
        → violations < u32_max
        → pass_limit env (guarded s route) caller route config x.st ≡ answer strategy
    pass_limit-answer l m =
        pass_limit-over env (guarded s route) caller route config x.st _ x.has_limit
          (rw x.own_limit limited) (rw x.own_limit w.inside) (rw x.own_limit l) m
        ∙ ap answer x.reaction

    -- A call over the limit fails under `Reject`.
    pre_call-rejects :
        strategy ≡ reject
        → limit ≤ calls
        → violations < u32_max
        → pre_call env s caller route ≡ err MiddlewareError.rate_limit_exceeded
    pre_call-rejects e l m =
        pre_call-fails caller route config override strategy pruned_at start env s calls violations
          total x w enabled MiddlewareError.rate_limit_exceeded
          (ground (arith, pass_limit-answer l m))

    -- A call over the limit passes when the strategy publishes an event, and is a violation.
    pre_call-tolerates :
        (event : Event)
        → react (guarded s route) caller route strategy ≡ ok (publish (guarded s route) event)
        → limit ≤ calls
        → violations < u32_max
        → total + 1 < u64_mod
        → (t : State) × (pre_call env s caller route ≡ ok t)
          × Stands calls (violations + 1) (total + 1) t
    pre_call-tolerates event e l m n =
        pre_call-passes caller route config override strategy pruned_at start env s calls violations
          total x w enabled (s.events ++ event ∷ []) calls (violations + 1) n
          (rw (pass_limit-answer l m, e) refl)

    -- The call over the limit, by the strategy.
    pre_call-over :
        limit ≤ calls
        → violations < u32_max
        → total + 1 < u64_mod
        → Stands calls
            (violations + tolerated strategy 1)
            (total + tolerated strategy 1)
            (settle s (pre_call env s caller route))
          × ((if is_ok (pre_call env s caller route) then 1 else 0) ≡ tolerated strategy 1)
    pre_call-over l m n = elim (strategy_cases (guarded s route) caller route strategy) [
      | inl r ↦
          let none_over : tolerated strategy 1 ≡ 0 =
            ap (λ (p : RateLimitStrategy). tolerated p 1) r in
          rw (pre_call-rejects r l m) (
            Stands-subst s refl (omega (arith, none_over)) (omega (arith, none_over)) x,
            sym none_over,
          )
      | inr (event, e, all) ↦
          let (t, h, y) = pre_call-tolerates event e l m n in
          rw h (Stands-subst t refl (omega (arith, all 1)) (omega (arith, all 1)) y, sym (all 1))
    ]

  -- What is left of the window, and what is over the limit, of `n` calls.
  abbrev inside : ℕ → ℕ → ℕ
  inside n calls = min n (limit - calls)

  abbrev beyond : ℕ → ℕ → ℕ
  beyond n calls = tolerated strategy (n - (limit - calls))

  abbrev Admits : List Env → State → ℕ → ℕ → ℕ → Type 0
  Admits envs s calls violations total =
      ((pre_calls envs s caller route).0 ≡ inside (length envs) calls + beyond (length envs) calls)
      × Stands (calls + inside (length envs) calls) (violations + beyond (length envs) calls)
          (total + (inside (length envs) calls + beyond (length envs) calls))
          (pre_calls envs s caller route).1

  run :
      (envs : List Env) (s : State) (calls violations total : ℕ)
      → Stands calls violations total s
      → All Inside envs
      → violations + length envs ≤ u32_max
      → total + length envs < u64_mod
      → Admits envs s calls violations total
  run [] s calls violations total x w m n =
      let z = tolerated-zero strategy (0 - (limit - calls)) (omega arith) in
      (omega (arith, z), Stands-subst s (omega arith) (omega (arith, z)) (omega (arith, z)) x)
  run (env ∷ envs) s calls violations total x w m n = elim (Bool-cases (leb limit calls)) [
    | inr f ↦
        let (t, h, y) =
          pre_call-within env s calls violations total x w.0 (ground arith) (omega arith) in
        let (c, z) =
          run envs t (calls + 1) violations (total + 1) y w.1 (omega arith) (omega arith) in
        let same : beyond (suc (length envs)) calls ≡ beyond (length envs) (calls + 1) =
          ap (tolerated strategy) (ground arith) in
        rw h (
          ground (arith, c, same),
          Stands-subst _ (ground arith) (ground (arith, same)) (ground (arith, same)) z,
        )
    | inl f ↦
        let (y, c) =
          pre_call-over env s calls violations total x w.0 (ground arith) (omega arith)
            (omega arith) in
        let (d, z) =
          run envs (settle s (pre_call env s caller route)) calls
            (violations + tolerated strategy 1) (total + tolerated strategy 1) y w.1
            (omega (arith, tolerated_one strategy)) (omega (arith, tolerated_one strategy)) in
        let step : beyond (suc (length envs)) calls
            ≡ tolerated strategy 1 + beyond (length envs) calls =
          ap (tolerated strategy) (ground arith)
          ∙ tolerated-suc strategy (length envs - (limit - calls)) in
        (
          ground (arith, c, d, step),
          Stands-subst _ (ground arith) (ground (arith, step)) (ground (arith, step)) z,
        )
  ]

-- Of `pre_call`s of one caller on an enabled route with a limit and a breaker that is not open, all signed,
-- made in one window and before the next prune, as many succeed within the limit as the window has room
-- for. Of the others none succeeds under `Reject`, and each succeeds under `Throttle` and `LogOnly`. The
-- caller's count rises by the calls within the limit, its violations by the calls over it that succeed, and
-- the total by all that succeed, and the route still takes calls. The limit fits 32 bits, so do the
-- violations with all these calls added, and the total with them fits 64.
pub pre_calls-Admits :
    (caller : Address) (route : Route) (config : RouteConfig)
    (override : Option CallerRateLimitConfig) (strategy : RateLimitStrategy) (pruned_at start : ℕ)
    (envs : List Env) (s : State) (calls violations total : ℕ)
    → config.enabled ≡ true
    → is_limited config override ≡ true
    → (effective_limit config override).0 ≤ u32_max
    → Standing caller route config override strategy pruned_at start calls violations total s
    → All (InWindow caller route config override strategy pruned_at start) envs
    → violations + length envs ≤ u32_max
    → total + length envs < u64_mod
    → let within = min (length envs) ((effective_limit config override).0 - calls) in
      let over = tolerated strategy (length envs - ((effective_limit config override).0 - calls)) in
      let (succeeded, t) = pre_calls envs s caller route in
      (succeeded ≡ within + over)
      × Standing caller route config override strategy pruned_at start
          (calls + within)
          (violations + over)
          (total + (within + over))
          t
pre_calls-Admits caller route config override strategy pruned_at start envs s calls violations total
      enabled limited fits x w m n =
    run caller route config override strategy pruned_at start enabled limited fits envs s calls
      violations total x w m n
