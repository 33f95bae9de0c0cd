-- ===== src/Scheduler/Machines/Switches.antt =====
-- `KillSwitchSnapshot` of src/ragplan/scheduler/states.py. The environment is a function from
-- variable names to texts, and `str.strip().casefold()` is a parameter, since it is Python's.
use oss.Prelude.{
  String, Bool, true, false, ◌||◌, Option, none, some, List, [], ◌∷◌, ◌++◌, if◌then◌else◌,
}
use text.Mathlib.Text.{◌==◌}
use oss.Core.Errors.{Exception, rag, invalid_request, ragplan_error, Result, ok, raise, ◌>>=◌}
use oss.Core.Kinds.{KillSwitch, force_vector_only, disable_cost_aware}

pub record KillSwitchSnapshot : Type 0 where
  pub vector_only : Bool
  pub no_cost_aware : Bool

abbrev value_or_empty : Option String → String
value_or_empty none = ""
value_or_empty (some v) = v

abbrev pub invalid_switch : Exception
invalid_switch = rag (ragplan_error invalid_request (some false) none)

abbrev is_off : String → Bool
is_off v = v == "" || (v == "0" || (v == "false" || (v == "no" || v == "off")))

abbrev is_on : String → Bool
is_on v = v == "1" || (v == "true" || (v == "yes" || v == "on"))

-- `_environment_bool` on a value that is stripped and case-folded
unfoldable pub switch_value : String → Result Bool
switch_value v = if is_off v then ok false else if is_on v then ok true else raise invalid_switch

module _ (strip_casefold : String → String) where
  -- _environment_bool
  unfoldable pub environment_bool : (String → Option String) → String → Result Bool
  unfolding switch_value
  environment_bool source key = switch_value (strip_casefold (value_or_empty (source key)))

  -- KillSwitchSnapshot.from_environment
  unfoldable pub from_environment : (String → Option String) → Result KillSwitchSnapshot
  unfolding environment_bool
  from_environment source = do
    force ← environment_bool source "RAGPLAN_FORCE_VECTOR_ONLY"
    disable ← environment_bool source "RAGPLAN_DISABLE_COST_AWARE"
    ok (record { vector_only = force; no_cost_aware = disable })

-- KillSwitchSnapshot.active
unfoldable pub active : KillSwitchSnapshot → List KillSwitch
active s =
    (if s.vector_only then force_vector_only ∷ [] else [])
    ++ (if s.no_cost_aware then disable_cost_aware ∷ [] else [])
