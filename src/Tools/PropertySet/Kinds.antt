-- ===== src/Tools/PropertySet/Kinds.antt =====
-- The methods of `PropertySet`, kind by kind.
use libworkflow.Prelude.{ℕ, String, Bool, true, false, Option, none, if◌then◌else◌}
use libworkflow.Prelude.Key.{string_key}
use libworkflow.Prelude.Map.{lookup, has}
use libworkflow.Prelude.Outcome.{Outcome, ok, at, ◌>>=◌}
use libworkflow.Core.Context.{Context}
use libworkflow.Tools.PropertySet.Typed.{
  Property, PropertySet, Double, uint, bool, string, double, custom, get_value, define_value,
  set_value, set_whole, get_whole,
}

unfoldable pub get_bool_property : PropertySet → String → Bool → Bool × Bool
unfolding get_value
get_bool_property s key default = get_value s.bool_values key default

unfoldable pub define_bool_property :
    PropertySet → (key : String) → Bool → (description : String) → (exposed : Bool) → PropertySet
unfolding define_value
define_bool_property s key v description exposed = record s {
  bool_values = define_value bool s.bool_values key v description exposed;
}

unfoldable pub set_bool_property : PropertySet → String → Bool → PropertySet × Bool
unfolding set_value
set_bool_property s key v =
    let (m, done) = set_value s.guarded false s.bool_values key v in
    (record s { bool_values = m }, done)

unfoldable pub set_bool_sproperty : PropertySet → Property Bool → PropertySet
unfolding set_whole
set_bool_sproperty s p = record s { bool_values = set_whole s.bool_values p }

unfoldable pub get_bool_sproperty : PropertySet → String → Property Bool
unfolding get_whole
get_bool_sproperty s key = get_whole false s.bool_values key

unfoldable pub get_double_property : PropertySet → String → Double → Double × Bool
unfolding get_value
get_double_property s key default = get_value s.double_values key default

unfoldable pub define_double_property :
    PropertySet → (key : String) → Double → (description : String) → (exposed : Bool) → PropertySet
unfolding define_value
define_double_property s key v description exposed = record s {
  double_values = define_value double s.double_values key v description exposed;
}

unfoldable pub set_double_property : PropertySet → String → Double → PropertySet × Bool
unfolding set_value
set_double_property s key v =
    let (m, done) = set_value s.guarded 0 s.double_values key v in
    (record s { double_values = m }, done)

unfoldable pub set_double_sproperty : PropertySet → Property Double → PropertySet
unfolding set_whole
set_double_sproperty s p = record s { double_values = set_whole s.double_values p }

unfoldable pub get_double_sproperty : PropertySet → String → Property Double
unfolding get_whole
get_double_sproperty s key = get_whole 0 s.double_values key

unfoldable pub get_string_property : PropertySet → String → String → String × Bool
unfolding get_value
get_string_property s key default = get_value s.string_values key default

unfoldable pub define_string_property :
    PropertySet → (key : String) → String → (description : String) → (exposed : Bool) → PropertySet
unfolding define_value
define_string_property s key v description exposed = record s {
  string_values = define_value string s.string_values key v description exposed;
}

unfoldable pub set_string_property : PropertySet → String → String → PropertySet × Bool
unfolding set_value
set_string_property s key v =
    let (m, done) = set_value s.guarded "" s.string_values key v in
    (record s { string_values = m }, done)

unfoldable pub set_string_sproperty : PropertySet → Property String → PropertySet
unfolding set_whole
set_string_sproperty s p = record s { string_values = set_whole s.string_values p }

unfoldable pub get_string_sproperty : PropertySet → String → Property String
unfolding get_whole
get_string_sproperty s key = get_whole "" s.string_values key

unfoldable pub get_custom_property :
    PropertySet → String → (Option Context) → (Option Context) × Bool
unfolding get_value
get_custom_property s key default = get_value s.custom_values key default

unfoldable pub define_custom_property :
    PropertySet
    → (key : String) → (Option Context)
    → (description : String) → (exposed : Bool) → PropertySet
unfolding define_value
define_custom_property s key v description exposed = record s {
  custom_values = define_value custom s.custom_values key v description exposed;
}

unfoldable pub set_custom_property : PropertySet → String → (Option Context) → PropertySet × Bool
unfolding set_value
set_custom_property s key v =
    let (m, done) = set_value s.guarded none s.custom_values key v in
    (record s { custom_values = m }, done)

unfoldable pub set_custom_sproperty : PropertySet → Property (Option Context) → PropertySet
unfolding set_whole
set_custom_sproperty s p = record s { custom_values = set_whole s.custom_values p }

unfoldable pub get_custom_sproperty : PropertySet → String → Property (Option Context)
unfolding get_whole
get_custom_sproperty s key = get_whole none s.custom_values key

-- The test looks at the custom values, and `at` throws where the key is not among the unsigned ones.
unfoldable pub get_uint_property : PropertySet → String → ℕ → Outcome (ℕ × Bool)
get_uint_property s key default =
    if has key s.custom_values
    then at (lookup key s.uint_values) >>= (λ p. ok (p.value, true))
    else ok (default, false)

unfoldable pub define_uint_property :
    PropertySet → (key : String) → ℕ → (description : String) → (exposed : Bool) → PropertySet
unfolding define_value
define_uint_property s key v description exposed = record s {
  uint_values = define_value uint s.uint_values key v description exposed;
}

unfoldable pub set_uint_property : PropertySet → String → ℕ → PropertySet × Bool
unfolding set_value
set_uint_property s key v =
    let (m, done) = set_value s.guarded 0 s.uint_values key v in
    (record s { uint_values = m }, done)

unfoldable pub set_uint_sproperty : PropertySet → Property ℕ → PropertySet
unfolding set_whole
set_uint_sproperty s p = record s { uint_values = set_whole s.uint_values p }

unfoldable pub get_uint_sproperty : PropertySet → String → Property ℕ
unfolding get_whole
get_uint_sproperty s key = get_whole 0 s.uint_values key
