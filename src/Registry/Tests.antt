-- ===== src/Registry/Tests.antt =====
-- Runs of router-registry, and its theorems at concrete inputs.
use stellar_router.Prelude.{ℕ, true, false, none, some, List, [], ◌∷◌, ◌≡◌, refl, arith}
use stellar_router.Prelude.Sequence.{get_elem?}
use stellar_router.Prelude.Ascending.{IsAscending}
use stellar_router.Common.{IsAdmin, ok, err}
use stellar_router.Registry
use stellar_router.Registry.{
  Name, ContractEntry, BulkRegistrationInput, Call, gte, deployed, all_versions_deprecated,
}
use stellar_router.Registry.Entries.{get_versions_list, is_empty}
use stellar_router.Registry.Constraint.{
  parse_constraint, satisfies, validate_constraint, version_matches_constraint,
}
use stellar_router.Registry.Lookup.{get_latest, get_latest_with_constraint, get_all_versions}
use stellar_router.Registry.Calls
use stellar_router.Registry.Calls.{authorize, deprecate_all_versions}
use stellar_router.Registry.Bulk.{bulk_register}
use stellar_router.Registry.Invariant.{IsValid}
use stellar_router.Registry.Valid.{Lasts}
use stellar_router.Registry.History.{
  Surroundings, Request, evolve, evolve-deployed-IsValid, evolve-Lasts,
}
use stellar_router.Registry.InOrder.{Atomic, bulk_register-Atomic}
use stellar_router.Registry.Latest.{Selects, always, get_latest-Selects}
use stellar_router.Registry.RoundTrip.{
  print_constraint, parse_constraint-print_constraint, get_latest_with_constraint-Selects,
}
use stellar_router.Registry.Retire.{
  versions_of, deprecate_all_versions-get_latest, get_all_versions-versions,
}

abbrev State : Type 0
State = Registry.Registry

abbrev signed : Surroundings
signed = record {
  env = record { timestamp = 1000; authorized = λ a. true };
  answers = λ address fn_sym. true;
}

-- Three versions of the contract 5, the newest deprecated.
abbrev past : List (Surroundings × Request)
past =
    (signed, Request.initialize 1)
    ∷ (signed, Request.register 1 5 10 1)
    ∷ (signed, Request.register 1 5 12 2)
    ∷ (signed, Request.register_with_check 1 5 13 4 (some "ping"))
    ∷ (signed, Request.deprecate 1 5 4 none)
    ∷ []

abbrev second : ContractEntry
second = record {
  address = 12;
  name = 5;
  version = 2;
  deprecated = false;
  registered_by = 1;
  deprecation_reason = none;
}

abbrev present : State
present = evolve past deployed

abbrev item : Name → ℕ → BulkRegistrationInput
item name version = record { name = name; address = 20; version = version }

present-admin : present.admin ≡ some 1
unfolding evolve Calls.initialize Calls.register Calls.register_with_check Calls.deprecate
present-admin = refl

present-IsAdmin : IsAdmin signed.env present.admin 1
present-IsAdmin = record { signed = refl; stored_admin = present-admin }

present-second : present.entries 5 2 ≡ some second
unfolding evolve Calls.initialize Calls.register Calls.register_with_check Calls.deprecate
present-second = refl

present-registered : is_empty (get_versions_list present 5) ≡ false
unfolding evolve Calls.initialize Calls.register Calls.register_with_check Calls.deprecate
present-registered = refl

latest_runs : get_latest present 5 ≡ ok second
unfolding evolve Calls.initialize Calls.register Calls.register_with_check Calls.deprecate
    get_latest
latest_runs = refl

at_least_four :
    get_latest_with_constraint present 5 (some (b'>' ∷ b'=' ∷ b'4' ∷ []))
    ≡ err all_versions_deprecated
unfolding evolve Calls.initialize Calls.register Calls.register_with_check Calls.deprecate
    get_latest_with_constraint validate_constraint version_matches_constraint
at_least_four = refl

evolve-deployed-IsValid_example : IsValid present
evolve-deployed-IsValid_example = evolve-deployed-IsValid past

evolve-Lasts_example :
    Lasts second
      ((evolve ((signed, Request.deprecate_all_versions 1 5 none) ∷ []) present).entries 5 2)
evolve-Lasts_example =
    evolve-Lasts past ((signed, Request.deprecate_all_versions 1 5 none) ∷ []) 5 2 second
      present-second

bulk_register-Atomic_example :
    Atomic present 1
      (item 6 1 ∷ item 5 4 ∷ [])
      (bulk_register signed.env present 1 (item 6 1 ∷ item 5 4 ∷ []) true)
bulk_register-Atomic_example =
    bulk_register-Atomic signed.env present 1 (item 6 1 ∷ item 5 4 ∷ []) present-IsAdmin
      (omega arith)

get_latest-Selects_example : Selects present 5 always (get_latest present 5)
get_latest-Selects_example = get_latest-Selects present 5 (evolve-deployed-IsValid past)

parse_constraint-print_constraint_example :
    parse_constraint (print_constraint gte 120) ≡ ok (gte, 120)
parse_constraint-print_constraint_example = parse_constraint-print_constraint gte 120 (omega arith)

get_latest_with_constraint-Selects_example :
    Selects present 5
      (satisfies gte 2)
      (get_latest_with_constraint present 5 (some (print_constraint gte 2)))
get_latest_with_constraint-Selects_example =
    get_latest_with_constraint-Selects present 5 gte 2 (evolve-deployed-IsValid past) (omega arith)

deprecate_all_versions-get_latest_example :
    (t : State) × (deprecate_all_versions signed.env present 1 5 (some "old") ≡ ok t)
    × (get_latest t 5 ≡ err all_versions_deprecated)
deprecate_all_versions-get_latest_example =
    deprecate_all_versions-get_latest signed.env present 1 5 (some "old")
      (evolve-deployed-IsValid past) present-IsAdmin present-registered

get_all_versions-versions_example :
    (versions_of (get_all_versions present 5) ≡ get_versions_list present 5)
    × IsAscending (versions_of (get_all_versions present 5))
    × ((i : ℕ) (e : ContractEntry)
        → get_elem? (get_all_versions present 5) i ≡ some e
        → present.entries 5 e.version ≡ some e)
get_all_versions-versions_example =
    get_all_versions-versions present 5 (evolve-deployed-IsValid past)
