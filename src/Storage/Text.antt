-- ===== src/Storage/Text.antt =====
-- tools/jsonable.cpp: `str_save` and `str_load`. The JSON reader and writer of Boost are arguments, as
-- are the `save` and the `load` of the class.
use libworkflow.Prelude.{String, Bool, true, false, Option, none, some, is_empty, if◌then◌else◌}
use libworkflow.Prelude.Outcome.{
  Outcome, ok, fault, out_of_range, null_pointer, out_of_fuel, thrown,
}
use libworkflow.Storage.Tree.{PropertyTree}

unfoldable pub str_save :
    {T A : Type 0}
    → (p : PropertyTree T) → (write_json : T → String) → (save : A → T → T) → A
    → String
str_save p write_json save a = write_json (save a p.empty)

-- What `catch` makes of a call: `left` is what a `load` that throws leaves of the object. A null
-- pointer that is followed is no exception.
abbrev pub caught : {A : Type 0} → (left : A) → Outcome A → Outcome (Bool × A)
caught left (ok a) = ok (true, a)
caught left (fault out_of_range) = ok (false, left)
caught left (fault thrown) = ok (false, left)
caught left (fault null_pointer) = fault null_pointer
caught left (fault out_of_fuel) = fault out_of_fuel

unfoldable pub str_load :
    {T A : Type 0}
    → (read_json : String → Option T) → (load : T → A → Outcome A) → (left : A) → String
    → A
    → Outcome (Bool × A)
str_load read_json load left text a =
    if is_empty text
    then ok (false, a)
    else elim (read_json text) [ none ↦ ok (false, a) | some root ↦ caught left (load root a) ]
