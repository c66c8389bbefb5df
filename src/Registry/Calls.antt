-- ===== src/Registry/Calls.antt =====
-- The calls of contracts/router-registry/src/lib.rs that change the storage, but for the batches.
use stellar_router.Prelude.{ℕ, String, Bool, not, ◌||◌, Option, none, some, List, [], ◌∷◌, is_some}
use text.Mathlib.Text.{◌==◌ as str_eq}
use stellar_router.Common.{
  Address, Env, ok, err, panic, ◌>>=◌, ◌>>◌, fail_if, require_auth, require_admin,
}
use stellar_router.Registry
use stellar_router.Registry.{Name, RegistryError, Call, Event, publish}
use stellar_router.Registry.Entries.{
  get_versions_list, is_empty, validate_registration, write_entry, register_entry, deprecate_one,
}

abbrev State : Type 0
State = Registry.Registry

-- `require_auth` followed by `require_admin_simple!`, as the calls of the administrator begin.
unfoldable pub authorize : Env → State → Address → Call (Unit {0})
authorize env s caller = do
  require_auth env caller
  require_admin s.admin caller RegistryError.not_initialized RegistryError.unauthorized

unfoldable pub initialize : State → Address → Call State
initialize s admin = do
  fail_if (is_some s.admin) RegistryError.already_initialized
  ok (record s { admin = some admin })

unfoldable pub register : Env → State → Address → Name → Address → ℕ → Call State
unfolding authorize register_entry
register env s caller name address version = do
  authorize env s caller
  register_entry s caller name address version

unfoldable pub is_allowed_health_fn : String → Bool
is_allowed_health_fn fn_sym = str_eq fn_sym "health" || str_eq fn_sym "ping"

-- The probe of the contract to register. `answers` says of the other contracts whether a call of a
-- function without arguments succeeds; the host lets none of them call back into this contract.
unfoldable pub probe : (Address → String → Bool) → Address → Option String → Call (Unit {0})
unfolding is_allowed_health_fn
probe answers address none = ok tt
probe answers address (some fn_sym) = do
  fail_if (not (is_allowed_health_fn fn_sym)) RegistryError.invalid_health_fn
  fail_if (not (answers address fn_sym)) RegistryError.contract_unreachable

unfoldable pub register_with_check :
    Env
    → (Address → String → Bool)
    → State
    → Address
    → Name
    → Address
    → ℕ
    → Option String
    → Call State
unfolding authorize validate_registration probe write_entry
register_with_check env answers s caller name address version health_fn = do
  authorize env s caller
  validate_registration s name version
  probe answers address health_fn
  ok (write_entry s caller name address version)

unfoldable pub deprecate : Env → State → Address → Name → ℕ → Option String → Call State
unfolding authorize deprecate_one
deprecate env s caller name version reason = do
  authorize env s caller
  deprecate_one s name version reason

-- `let _ = f(..);`: an error is dropped, and it has written nothing.
abbrev pub ignore : State → Call State → Call State
ignore s (ok t) = ok t
ignore s (err e) = ok s
ignore s panic = panic

-- The loop of `deprecate_all_versions`.
unfoldable pub deprecate_each : State → Name → Option String → List ℕ → Call State
unfolding deprecate_one
deprecate_each s name reason [] = ok s
deprecate_each s name reason (v ∷ vs) =
    ignore s (deprecate_one s name v reason) >>= λ (t : State). deprecate_each t name reason vs

unfoldable pub deprecate_all_versions : Env → State → Address → Name → Option String → Call State
unfolding authorize deprecate_each
deprecate_all_versions env s caller name reason = do
  authorize env s caller
  fail_if (is_empty (get_versions_list s name)) RegistryError.not_found
  deprecate_each s name reason (get_versions_list s name)

unfoldable pub transfer_admin : Env → State → Address → Address → Call State
unfolding authorize
transfer_admin env s current new_admin = do
  authorize env s current
  ok (publish (record s { admin = some new_admin }) (Event.admin_transferred current new_admin))
