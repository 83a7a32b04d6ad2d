-- ===== src/Tools/ErrorReport.antt =====
-- tools/error_report.h and tools/error_report.cpp: an error and the errors that led to it.
-- A report either starts a chain or has a parent. `original`, a pointer to a request, is kept as
-- the uuid of that request.
use libworkflow.Prelude.{
  ℕ, suc, zero, String, Bool, true, not, Option, none, some, List, [], ◌∷◌, ◌++◌, is_empty,
}
use libworkflow.Prelude.Outcome.{Outcome, ok, fault, out_of_fuel}
use libworkflow.Core.Target.{Target}

pub record Body : Type 0 where
  pub target : Option Target
  pub error_message : String
  pub error_key : String
  pub original : Option ℕ

pub data ErrorReport : Type 0 where
  root : Body → ErrorReport
  child : Body → ErrorReport → ErrorReport

-- `ErrorReport()`
unfoldable pub empty_report : ErrorReport
empty_report = root (record { target = none; error_message = ""; error_key = ""; original = none })

unfoldable pub new_report : (target : Target) (key message : String) → ErrorReport
new_report t key message =
    root (record { target = some t; error_message = message; error_key = key; original = none })

-- The constructor with a parent: a null parent starts a chain.
unfoldable pub with_parent : Target → Option ErrorReport → (key message : String) → ErrorReport
unfolding new_report
with_parent t none key message = new_report t key message
with_parent t (some p) key message =
    child (record { target = some t; error_message = message; error_key = key; original = none }) p

-- The copy constructor leaves `original` out.
unfoldable pub copy : ErrorReport → ErrorReport
copy (root b) = root (record b { original = none })
copy (child b p) = child (record b { original = none }) p

unfoldable pub set_error : ErrorReport → (key message : String) → ErrorReport
set_error (root b) key message = root (record b { error_message = message; error_key = key })
set_error (child b p) key message = child (record b { error_message = message; error_key = key }) p

unfoldable pub is_set : ErrorReport → Bool
is_set (root b) = not (is_empty b.error_key)
is_set (child b p) = true

unfoldable pub set_request : ErrorReport → ℕ → ErrorReport
set_request (root b) uuid = root (record b { original = some uuid })
set_request (child b p) uuid = child (record b { original = some uuid }) p

-- The oldest report first, the report itself last.
unfoldable pub get_ancestry : ErrorReport → List ErrorReport
get_ancestry (root b) = root b ∷ []
get_ancestry (child b p) = get_ancestry p ++ child b p ∷ []

-- `(*getAncestry().begin())`
abbrev pub first : List ErrorReport → ErrorReport → ErrorReport
first [] e = e
first (x ∷ xs) e = x

-- A report with a parent asks the first of its ancestry, by a virtual call of the same method.
unfoldable pub get_error_message : ℕ → ErrorReport → Outcome String
unfolding get_ancestry
get_error_message zero e = fault out_of_fuel
get_error_message (suc fuel) (root b) = ok b.error_message
get_error_message (suc fuel) (child b p) =
    get_error_message fuel (first (get_ancestry (child b p)) (child b p))

unfoldable pub get_error_key : ℕ → ErrorReport → Outcome String
unfolding get_ancestry
get_error_key zero e = fault out_of_fuel
get_error_key (suc fuel) (root b) = ok b.error_key
get_error_key (suc fuel) (child b p) =
    get_error_key fuel (first (get_ancestry (child b p)) (child b p))
