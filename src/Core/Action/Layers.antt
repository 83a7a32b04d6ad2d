-- ===== src/Core/Action/Layers.antt =====
-- The layers that a property is looked up in: the bypasses of the session, then the action's own
-- set (core/action.cpp, tools/property_set.cpp).
use libworkflow.Prelude.{ℕ, ◌≡◌, String, true, false, some, arith}
use libworkflow.Prelude.Int.{ℤ}
use libworkflow.Prelude.Key.{string_key, int_key}
use libworkflow.Prelude.Map.{Map, lookup, has}
use libworkflow.Prelude.Outcome.{ok, ◌>>=◌}
use libworkflow.Core.Session.{Session, get_bypass}
use libworkflow.Core.Action.Contract.{ActionData}
use libworkflow.Core.Action.Properties.{resolve, string_property, uint_property, value_of}
use libworkflow.Tools.PropertySet.Typed.{Property, PropertySet, has_property, get_value}
use libworkflow.Tools.PropertySet.Kinds.{get_string_property, get_uint_property}

get_bypass-some :
    (id : ℤ) (s : Session) (own : PropertySet)
    → lookup id s.action_bypasses ≡ some own
    → get_bypass id s ≡ (s, own)
unfolding get_bypass
get_bypass-some id s own o = rw (o, get_bypass)

no_value :
    {T : Type 0} (m : Map String (Property T)) (key : String) (d : T)
    → has key m ≡ false
    → get_value m key d ≡ (d, false)
unfolding get_value
no_value m key d h = ground (arith, h)

-- A key that the bypass of an action in the session has, but not as a string, hides the string
-- properties of the lower layers: the default comes back.
pub string_property-hidden :
    (a : ActionData) (s : Session) (own : PropertySet) (key d : String)
    → lookup a.action_id s.action_bypasses ≡ some own
    → has_property own key ≡ true
    → has key own.string_values ≡ false
    → string_property a s key d ≡ ok (s, d)
unfolding string_property get_string_property resolve
string_property-hidden a s own key d o h n =
    rw (get_bypass-some a.action_id s own o, resolve) (rw (h, no_value own.string_values key d n))

uint-default :
    (s : PropertySet) (key : String) (d : ℕ)
    → has key s.custom_values ≡ false
    → (get_uint_property s key d >>= value_of) ≡ ok d
unfolding get_uint_property
uint-default s key d h = rw h

-- Where the action has its state machine, the session has both bypasses and no layer has a custom property of the key, an unsigned
-- property reads as the default, whatever the layers define.
pub uint_property-default :
    (a : ActionData) (s : Session) (general own : PropertySet) (key : String) (d : ℕ)
    → a.has_machine ≡ true
    → lookup a.action_id s.action_bypasses ≡ some own
    → s.bypass ≡ some general
    → has key own.custom_values ≡ false
    → has key general.custom_values ≡ false
    → has key a.properties.custom_values ≡ false
    → uint_property a s key d ≡ ok (s, d)
unfolding uint_property resolve
uint_property-default a s general own key d linked o g c1 c2 c3 =
    rw (get_bypass-some a.action_id s own o, resolve)
      (ground (
        arith,
        linked,
        g,
        uint-default own key d c1,
        uint-default general key d c2,
        uint-default a.properties key d c3,
      ))
