-- ===== src/Tools/Ancestry.antt =====
-- The root of a chain of error reports (tools/error_report.cpp).
use libworkflow.Prelude.{ℕ, suc, ◌≡◌, refl, ap, List, [], ◌∷◌, ◌++◌}
use libworkflow.Prelude.Outcome.{ok}
use libworkflow.Tools.ErrorReport.{
  Body, ErrorReport, root, child, get_ancestry, first, get_error_message, get_error_key,
}

-- The error that a chain starts with.
unfoldable pub cause : ErrorReport → Body
cause (root b) = b
cause (child b p) = cause p

first-append :
    (xs ys : List ErrorReport) (d e : ErrorReport) → first (xs ++ ys) e ≡ first xs (first ys e)
first-append [] ys d e = refl
first-append (x ∷ xs) ys d e = refl

get_ancestry-first : (e d : ErrorReport) → first (get_ancestry e) d ≡ root (cause e)
unfolding get_ancestry cause
get_ancestry-first (root b) d = refl
get_ancestry-first (child b p) d =
    rw (first-append (get_ancestry p) (child b p ∷ []) d d) (get_ancestry-first p _)

-- However long the chain, the message and the key of a report are those of the error it started
-- with, and two calls of the getter are enough to find them.
pub get_error-cause :
    (fuel : ℕ) (e : ErrorReport)
    → (get_error_message (suc (suc fuel)) e ≡ ok (cause e).error_message)
      × (get_error_key (suc (suc fuel)) e ≡ ok (cause e).error_key)
unfolding get_error_message get_error_key cause
get_error-cause fuel (root b) = (refl, refl)
get_error-cause fuel (child b p) = (
  ap (get_error_message (suc fuel)) (get_ancestry-first (child b p) (child b p)),
  ap (get_error_key (suc fuel)) (get_ancestry-first (child b p) (child b p)),
)
