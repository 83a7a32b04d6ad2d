-- ===== src/Tools/Tests.antt =====
-- Property sets and error reports at concrete values.
use libworkflow.Prelude.{
  String, true, false, ◌≡◌, refl, not, ◌||◌, ◌&&◌, List, [], ◌∷◌, some, if◌then◌else◌,
}
use libworkflow.Prelude.Key.{string_key, ◌==◌}
use libworkflow.Prelude.Map.{lookup, has}
use libworkflow.Prelude.Outcome.{ok}
use libworkflow.Core.Target.{new_target}
use libworkflow.Tools.Ancestry.{cause, get_error-cause}
use libworkflow.Tools.ErrorReport.{
  ErrorReport, new_report, with_parent, get_error_message, get_error_key,
}
use libworkflow.Tools.PropertySet.Typed.{empty_set}
use libworkflow.Tools.PropertySet.Kinds.{
  get_string_property, set_string_property, get_uint_property, define_uint_property,
}
use libworkflow.Tools.PropertySet.Abstract.{
  Call, define, set, guard, run, read, replay, values, get_string_property-refines,
}
use libworkflow.Tools.PropertySet.Reads.{string_property-set, uint_property-lost}

string_property-set_example :
    ((set_string_property empty_set "key" "value").1
      ≡ (not empty_set.guarded || has {K = String} "key" empty_set.string_values))
    × (get_string_property (set_string_property empty_set "key" "value").0 "other" "default" ≡ (
        if (set_string_property empty_set "key" "value").1 && ◌==◌ {K = String} "key" "other"
        then ("value", true)
        else get_string_property empty_set "other" "default"))
string_property-set_example = string_property-set empty_set "key" "other" "value" "default"

uint_property-lost_example :
    get_uint_property (define_uint_property empty_set "key" 5 "" true) "key" 1 ≡ ok (1, false)
unfolding empty_set lookup
uint_property-lost_example = uint_property-lost empty_set "key" 5 1 "" true refl

abbrev chain : ErrorReport
chain =
    with_parent (new_target "default" "" 2 0)
      (some (new_report (new_target "default" "" 1 0) "key" "message")) "" ""

get_error-cause_example :
    (get_error_message 2 chain ≡ ok (cause chain).error_message)
    × (get_error_key 2 chain ≡ ok (cause chain).error_key)
get_error-cause_example = get_error-cause 0 chain

abbrev some_calls : List Call
some_calls =
    define "key" "first" "" true ∷ guard true ∷ set "key" "second" ∷ set "other" "third" ∷ []

get_string_property-refines_example :
    get_string_property (run some_calls empty_set) "key" "default"
    ≡ read ((replay some_calls (values empty_set)).value "key") "default"
get_string_property-refines_example =
    get_string_property-refines some_calls empty_set "key" "default"
