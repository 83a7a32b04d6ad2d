-- ===== src/Core/StateMachine/Sources.antt =====
-- Where the bindings and the `inputs_map` of a machine come from (core/state_machine.cpp).
use libworkflow.Prelude.{◌≡◌, true, false, List, [], ◌∷◌, map, arith, if◌then◌else◌, is_some}
use libworkflow.Prelude.Int.{ℤ, eqb_ℤ, ltb_ℤ}
use libworkflow.Prelude.Key.{int_key, string_key}
use libworkflow.Prelude.Map.{Map, lookup, insert, lookup-insert}
use libworkflow.Prelude.IdSet
use libworkflow.Core.Bindings.{OutputBinding, set_from_action_id}
use libworkflow.Core.Action.Wrapper.{Action}
use libworkflow.Core.StateMachine.Layout.{list_at, note_inputs, build_inputs}
use libworkflow.Core.StateMachine.ErrorFlow.{Known}

-- Every binding starts at an action of the machine.
abbrev pub FromKnown : Map ℤ Action → List OutputBinding → Type 0
FromKnown actions [] = Unit {0}
FromKnown actions (b ∷ bs) =
    (is_some (lookup b.from_action_id actions) ≡ true) × FromKnown actions bs

abbrev pub AllFromKnown : Map ℤ Action → Map ℤ (List OutputBinding) → Type 0
AllFromKnown actions [] = Unit {0}
AllFromKnown actions ((id, bs) ∷ rest) = FromKnown actions bs × AllFromKnown actions rest

abbrev pub SourcesKnown : Map ℤ Action → Map ℤ (List ℤ) → Type 0
SourcesKnown actions im = (to : ℤ) → Known actions (list_at to im)

insert-Known :
    (actions : Map ℤ Action) (x : ℤ) (is : List ℤ)
    → is_some (lookup x actions) ≡ true
    → Known actions is
    → Known actions (IdSet.insert x is)
unfolding IdSet.insert
insert-Known actions x [] h k = (h, tt)
insert-Known actions x (i ∷ is) h (a, k) =
    elim (eqb_ℤ i x)
      as (λ c.
        Known actions
          (if c then i ∷ is else if ltb_ℤ x i then x ∷ i ∷ is else i ∷ IdSet.insert x is)) [
            | true ↦ (a, k)
            | false ↦
                elim (ltb_ℤ x i)
                  as (λ c. Known actions (if c then x ∷ i ∷ is else i ∷ IdSet.insert x is)) [
                    | true ↦ (h, (a, k))
                    | false ↦ (a, insert-Known actions x is h k)
                  ]
          ]

pub grown :
    (actions : Map ℤ Action) (id : ℤ) (a : Action) (i : ℤ)
    → is_some (lookup i actions) ≡ true
    → is_some (lookup i (insert id a actions)) ≡ true
grown actions id a i h = ground (arith, h, lookup-insert id i a actions)

grown-FromKnown :
    (actions : Map ℤ Action) (id : ℤ) (a : Action) (bs : List OutputBinding)
    → FromKnown actions bs
    → FromKnown (insert id a actions) bs
grown-FromKnown actions id a [] k = k
grown-FromKnown actions id a (b ∷ bs) (h, k) =
    (grown actions id a b.from_action_id h, grown-FromKnown actions id a bs k)

pub grown-AllFromKnown :
    (actions : Map ℤ Action) (id : ℤ) (a : Action) (outs : Map ℤ (List OutputBinding))
    → AllFromKnown actions outs
    → AllFromKnown (insert id a actions) outs
grown-AllFromKnown actions id a [] k = k
grown-AllFromKnown actions id a ((i, bs) ∷ rest) (h, k) =
    (grown-FromKnown actions id a bs h, grown-AllFromKnown actions id a rest k)

pub own-FromKnown :
    (actions : Map ℤ Action) (id : ℤ) (bs : List OutputBinding)
    → is_some (lookup id actions) ≡ true
    → FromKnown actions (map (set_from_action_id id) bs)
unfolding set_from_action_id
own-FromKnown actions id [] h = tt
own-FromKnown actions id (b ∷ bs) h = (h, own-FromKnown actions id bs h)

pub insert-AllFromKnown :
    (actions : Map ℤ Action) (id : ℤ) (bs : List OutputBinding) (outs : Map ℤ (List OutputBinding))
    → FromKnown actions bs
    → AllFromKnown actions outs
    → AllFromKnown actions (insert id bs outs)
unfolding insert
insert-AllFromKnown actions id bs [] h k = (h, tt)
insert-AllFromKnown actions id bs ((i, cs) ∷ rest) h (a, k) =
    elim (eqb_ℤ i id)
      as (λ c. AllFromKnown actions (
        if c
        then (id, bs) ∷ rest
        else if ltb_ℤ id i
        then (id, bs) ∷ (i, cs) ∷ rest
        else (i, cs) ∷ insert id bs rest)) [
          | true ↦ (h, k)
          | false ↦
              elim (ltb_ℤ id i)
                as (λ c.
                  AllFromKnown actions
                    (if c then (id, bs) ∷ (i, cs) ∷ rest else (i, cs) ∷ insert id bs rest)) [
                      | true ↦ (h, (a, k))
                      | false ↦ (a, insert-AllFromKnown actions id bs rest h k)
                    ]
        ]

list_at-insert :
    (to id : ℤ) (is : List ℤ) (im : Map ℤ (List ℤ))
    → list_at to (insert id is im) ≡ (if eqb_ℤ id to then is else list_at to im)
list_at-insert to id is im = ground (arith, lookup-insert id to is im)

note_inputs-SourcesKnown :
    (actions : Map ℤ Action) (bs : List OutputBinding) (im : Map ℤ (List ℤ))
    → FromKnown actions bs
    → SourcesKnown actions im
    → SourcesKnown actions (note_inputs bs im)
unfolding note_inputs
note_inputs-SourcesKnown actions [] im h k = k
note_inputs-SourcesKnown actions (b ∷ bs) im (h, hs) k =
    note_inputs-SourcesKnown actions bs _ hs (λ to.
      rw
        (list_at-insert to b.to_action_id
          (IdSet.insert b.from_action_id (list_at b.to_action_id im)) im)
        (if-Known to))
  where
    if-Known :
        (to : ℤ)
        → Known actions (
            if eqb_ℤ b.to_action_id to
            then IdSet.insert b.from_action_id (list_at b.to_action_id im)
            else list_at to im)
    if-Known to =
        elim (eqb_ℤ b.to_action_id to)
          as (λ c. Known actions (
            if c
            then IdSet.insert b.from_action_id (list_at b.to_action_id im)
            else list_at to im)) [
              | true ↦
                  insert-Known actions b.from_action_id (list_at b.to_action_id im) h
                    (k b.to_action_id)
              | false ↦ k to
            ]

pub build_inputs-SourcesKnown :
    (actions : Map ℤ Action) (outs : Map ℤ (List OutputBinding)) (im : Map ℤ (List ℤ))
    → AllFromKnown actions outs
    → SourcesKnown actions im
    → SourcesKnown actions (build_inputs outs im)
unfolding build_inputs
build_inputs-SourcesKnown actions [] im h k = k
build_inputs-SourcesKnown actions ((id, bs) ∷ rest) im (h, hs) k =
    build_inputs-SourcesKnown actions rest (note_inputs bs im) hs
      (note_inputs-SourcesKnown actions bs im h k)
