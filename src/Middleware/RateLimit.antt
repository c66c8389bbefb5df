-- ===== src/Middleware/RateLimit.antt =====
-- contracts/router-middleware/src/rate_limit.rs, and the pruning in lib.rs.
use stellar_router.Prelude.{
  ℕ, Bool, true, false, not, Option, none, some, List, [], ◌∷◌, leb, unwrap_or, if◌then◌else◌,
  insert,
}
use Prim.Native.Nat.{max}
use stellar_router.Prelude.Words.{saturating_add_u64, saturating_mul_u64}
use stellar_router.Prelude.Assoc.{Assoc, get, erase}
use stellar_router.Common.{Address, Env, ok, ◌>>=◌, add_u32}
use stellar_router.Middleware
use stellar_router.Middleware.{
  Route, RateLimitState, RouteCallState, CallerRateLimitConfig, Call, rate_limit_reset, publish,
}

abbrev State : Type 0
State = Middleware.Middleware

pub record RateLimitCheck : Type 0 where
  pub exceeded : Bool
  pub updated_state : RateLimitState

unfoldable pub window_elapsed : ℕ → ℕ → ℕ → Bool
window_elapsed now window_start window = leb (saturating_add_u64 window_start window) now

abbrev pub window_of : Option CallerRateLimitConfig → ℕ → ℕ
window_of none base = base
window_of (some c) base = c.window_secs

unfoldable pub resolve_effective_window : State → Route → Address → ℕ → ℕ
resolve_effective_window s route caller base = window_of (s.caller_rate_limit route caller) base

-- The state of a caller without one.
abbrev pub fresh_limit : ℕ → RateLimitState
fresh_limit now = record { calls_in_window = 0; window_start = now; total_violations = 0 }

-- The counter arithmetic, on the caller's state.
unfoldable pub count_call : ℕ → RateLimitState → ℕ → ℕ → Call RateLimitCheck
unfolding window_elapsed
count_call now state limit window = do
  let elapsed = window_elapsed now state.window_start window
  let calls = if elapsed then 0 else state.calls_in_window
  let window_start = if elapsed then now else state.window_start
  let violation = add_u32 state.total_violations 1
  let call = add_u32 calls 1
  if leb limit calls
      then (do
        violations ← violation
        ok (record {
          exceeded = true;
          updated_state = record {
            calls_in_window = calls;
            window_start = window_start;
            total_violations = violations;
          };
        }))
      else (do
        calls' ← call
        ok (record {
          exceeded = false;
          updated_state = record {
            calls_in_window = calls';
            window_start = window_start;
            total_violations = state.total_violations;
          };
        }))

unfoldable pub check_and_increment : Env → Address → RouteCallState → ℕ → ℕ → Call RateLimitCheck
unfolding count_call
check_and_increment env caller st limit window =
    count_call env.timestamp (unwrap_or (get st.rate_limits caller) (fresh_limit env.timestamp))
      limit window

abbrev pub reset_limits : State → Route → Address → Option RouteCallState → State
reset_limits s route caller none = s
reset_limits s route caller (some st) = record s {
  route_call_state =
      insert s.route_call_state route (record st { rate_limits = erase st.rate_limits caller });
}

unfoldable pub reset_for_caller : State → Route → Address → State
reset_for_caller s route caller =
    publish (reset_limits s route caller (s.route_call_state route)) (rate_limit_reset route caller)

-- `RATE_LIMIT_STALE_WINDOW_MULTIPLIER` and `RATE_LIMIT_PRUNE_INTERVAL`.
abbrev pub stale_window_multiplier : ℕ
stale_window_multiplier = 4

abbrev pub prune_interval : ℕ
prune_interval = 3600

unfoldable pub is_stale : State → Route → ℕ → ℕ → ℕ × RateLimitState → Bool
unfolding resolve_effective_window
is_stale s route now base (caller, state) =
    let window = resolve_effective_window s route caller base in
    let stale_after = max (saturating_mul_u64 window stale_window_multiplier) 1 in
    leb (saturating_add_u64 state.window_start stale_after) now

-- The callers that are due, in the order of the map.
unfoldable pub stale_callers : State → Route → ℕ → ℕ → Assoc RateLimitState → List Address
unfolding is_stale
stale_callers s route now base [] = []
stale_callers s route now base (e ∷ m) =
    if is_stale s route now base e
    then e.0 ∷ stale_callers s route now base m
    else stale_callers s route now base m

unfoldable pub remove_callers : List Address → Assoc RateLimitState → Assoc RateLimitState
remove_callers [] m = m
remove_callers (a ∷ callers) m = remove_callers callers (erase m a)

abbrev pub is_empty : List Address → Bool
is_empty [] = true
is_empty (a ∷ callers) = false

-- The new map, and whether a caller was removed.
unfoldable pub prune_stale_rate_limits :
    State → Route → Assoc RateLimitState → ℕ → ℕ → Assoc RateLimitState × Bool
unfolding stale_callers remove_callers
prune_stale_rate_limits s route limits now base =
    let stale = stale_callers s route now base limits in
    (remove_callers stale limits, not (is_empty stale))
