-- ===== src/Core/Action/Properties.antt =====
-- How an action reads a property: the bypass of the action in the session, the bypass of the
-- session, the action's own set (core/action.cpp). A null session reads the own set only.
use libworkflow.Prelude.{ℕ, String, Bool, Option, if◌then◌else◌}
use libworkflow.Prelude.Outcome.{Outcome, ok, deref, ◌>>=◌}
use libworkflow.Core.Context.{Context}
use libworkflow.Core.Session.{Session, get_bypass}
use libworkflow.Core.Action.Contract.{ActionData, fingerprint}
use libworkflow.Tools.PropertySet.Typed.{PropertySet, Double, has_property}
use libworkflow.Tools.PropertySet.Kinds.{
  get_bool_property, get_double_property, get_string_property, get_custom_property,
  get_uint_property,
}

-- The common shape of the five readers, over the getter of their kind. The session may have gained
-- an empty bypass for the action. An unknown key is logged with the fingerprint of the session, which
-- follows the pointer to the state machine.
unfoldable pub resolve :
    {T : Type 0}
    → (PropertySet → String → T → Outcome T)
    → ActionData
    → Session
    → String
    → T
    → Outcome (Session × T)
resolve get a session key default =
    let (session', own) = get_bypass a.action_id session in
    if has_property own key
    then get own key default >>= (λ v. ok (session', v))
    else deref session'.bypass >>= λ general.
        if has_property general key
        then get general key default >>= (λ v. ok (session', v))
        else if has_property a.properties key
        then get a.properties key default >>= (λ v. ok (session', v))
        else fingerprint a (session', default)

abbrev pub value_of : {T : Type 0} → T × Bool → Outcome T
value_of (v, present) = ok v

unfoldable pub bool_property : ActionData → Session → String → Bool → Outcome (Session × Bool)
unfolding resolve
bool_property = resolve (λ s k d. value_of (get_bool_property s k d))

unfoldable pub double_property : ActionData → Session → String → Double → Outcome (Session × Double)
unfolding resolve
double_property = resolve (λ s k d. value_of (get_double_property s k d))

unfoldable pub string_property : ActionData → Session → String → String → Outcome (Session × String)
unfolding resolve
string_property = resolve (λ s k d. value_of (get_string_property s k d))

unfoldable pub custom_property :
    ActionData → Session → String → Option Context → Outcome (Session × Option Context)
unfolding resolve
custom_property = resolve (λ s k d. value_of (get_custom_property s k d))

unfoldable pub uint_property : ActionData → Session → String → ℕ → Outcome (Session × ℕ)
unfolding resolve
uint_property = resolve (λ s k d. get_uint_property s k d >>= value_of)
