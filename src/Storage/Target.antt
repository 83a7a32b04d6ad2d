-- ===== src/Storage/Target.antt =====
-- core/target.cpp: `Target::save` and `Target::load`.
use libworkflow.Prelude.{String, ◌<◌, ◌^◌, ◌≡◌, refl, List, [], ◌∷◌}
use libworkflow.Prelude.Key.{string_key}
use libworkflow.Prelude.Map.{lookup}
use libworkflow.Prelude.Outcome.{Outcome, ok, ◌>>=◌}
use libworkflow.Core.Target.{
  Target, TargetAction, default_action, status, interrupt, error, reply, no_reply, action_name,
  action_of_name,
}
use libworkflow.Storage.Tree.{
  PropertyTree, PropertyTreeLaws, IsInt32, get_opt, bind, put_last, text_found,
}

module _ {T : Type 0} (p : PropertyTree T) where
  unfoldable pub save_target : Target → T → T
  save_target t root = p.put "target" (action_name t.target) (
      p.put "action_id" (p.int_text t.action) (
        p.put "execution_level" (p.uint_text t.execution_level) (
          p.put "client_id" (p.uuid_text t.client_id) (
            p.put "identifier" (p.uuid_text t.identifier)
              (p.put "workflow" t.workflow (p.put "controller" t.controller root))))))

  -- The generator of the uuids throws on a text that is not one, so on a missing text as well.
  unfoldable pub load_target : T → Target → Outcome Target
  load_target root t = do
    identifier ← p.uuid_of (get_opt "" (p.get_optional "identifier" root))
    client_id ← p.uuid_of (get_opt "" (p.get_optional "client_id" root))
    ok (record t {
      controller = get_opt t.controller (p.get_optional "controller" root);
      workflow = get_opt t.workflow (p.get_optional "workflow" root);
      identifier = identifier;
      client_id = client_id;
      execution_level =
          get_opt t.execution_level (bind (p.get_optional "execution_level" root) p.uint_of);
      action = get_opt t.action (bind (p.get_optional "action_id" root) p.int_of);
      target = action_of_name (get_opt "" (p.get_optional "target" root));
    })

  -- The children that a target is saved as.
  abbrev pub target_fields : Target → List (String × T)
  target_fields t =
      ("controller", p.leaf t.controller)
      ∷ ("workflow", p.leaf t.workflow)
      ∷ ("identifier", p.leaf (p.uuid_text t.identifier))
      ∷ ("client_id", p.leaf (p.uuid_text t.client_id))
      ∷ ("execution_level", p.leaf (p.uint_text t.execution_level))
      ∷ ("action_id", p.leaf (p.int_text t.action))
      ∷ ("target", p.leaf (action_name t.target))
      ∷ []

-- The numbers of a target are in the ranges of their types.
pub record TargetInRange (t : Target) : Type 0 where
  pub identifier : t.identifier < 2 ^ 128
  pub client_id : t.client_id < 2 ^ 128
  pub execution_level : t.execution_level < 2 ^ 32
  pub action : IsInt32 t.action

action_of_name-action_name : (a : TargetAction) → action_of_name (action_name a) ≡ a
unfolding action_of_name action_name lookup
action_of_name-action_name default_action = refl
action_of_name-action_name status = refl
action_of_name-action_name interrupt = refl
action_of_name-action_name error = refl
action_of_name-action_name reply = refl
action_of_name-action_name no_reply = refl

module _ {T : Type 0} {p : PropertyTree T} (laws : PropertyTreeLaws p) where
  pub children-save_target :
      (t : Target) {root : T}
      → p.children root ≡ []
      → p.children (save_target p t root) ≡ target_fields p t
  unfolding save_target lookup
  children-save_target t blank =
      put_last laws _
        (put_last laws _
          (put_last laws _
            (put_last laws _
              (put_last laws _ (put_last laws _ (put_last laws _ blank refl refl) refl refl) refl
                refl)
              refl refl)
            refl refl)
          refl refl)
        refl refl

  pub load_target-fields :
      (t old : Target) {root : T}
      → TargetInRange t
      → p.children root ≡ target_fields p t
      → load_target p root old ≡ ok t
  unfolding load_target lookup
  load_target-fields t old {root} range holds = rw (
    text_found laws {k = "identifier"} holds refl refl,
    text_found laws {k = "client_id"} holds refl refl,
    text_found laws {k = "controller"} holds refl refl,
    text_found laws {k = "workflow"} holds refl refl,
    text_found laws {k = "execution_level"} holds refl refl,
    text_found laws {k = "action_id"} holds refl refl,
    text_found laws {k = "target"} holds refl refl,
    laws.uuid t.identifier range.identifier,
    laws.uuid t.client_id range.client_id,
    laws.uint t.execution_level range.execution_level,
    laws.int t.action range.action,
    action_of_name-action_name t.target,
  )
