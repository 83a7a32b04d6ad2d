-- ===== src/Core/StateMachine/Order.antt =====
-- What `getNext` answers (core/state_machine.cpp): it leaves the last steps for the end.
use libworkflow.Prelude.{
  ◌≡◌, refl, ◌∙◌, ◌⊎◌, inl, inr, Bool, true, false, ◌||◌, List, [], ◌∷◌, arith,
}
use libworkflow.Prelude.Int.{ℤ, eqb_ℤ_iff}
use libworkflow.Prelude.IdSet.{mem, mem-insert, mem-erase}
use libworkflow.Prelude.Key.{int_key}
use libworkflow.Core.Step
use libworkflow.Core.Session.{Session}
use libworkflow.Core.StateMachine.Layout.{StateMachine}
use libworkflow.Core.StateMachine.Schedule.{
  is_last_step, choose, plan, remove_from_pending, pick, answer, promote_or, get_next,
}
use libworkflow.Core.StateMachine.Rounds.{
  Gets, OneEnd, get_next-Gets, gives, no_choice, pick-answer, pick-promote_or, promoted,
  promoted-OneEnd, at_once, none_left, promote,
}

Gets-last :
    {s s' : Session} {a : ℤ}
    → Gets s s' a
    → OneEnd s
    → is_last_step a ≡ true
    → (s'.nexts ≡ a ∷ []) × (s'.pendings ≡ [])
Gets-last (at_once s a p) v l = absurd (cc (l, pick-answer s.nexts a (omega arith) p))
Gets-last (none_left s a p c) v l = (pick-promote_or s.nexts a p l, no_choice s.pendings v.real c)
Gets-last (promote s b p c g) v l = Gets-last g (promoted-OneEnd s c v) l

-- While at most one of `Finish`, `Cleanup` and `Die` is planned or pending, `getNext` hands it out
-- only when nothing else is planned and nothing is pending any more.
pub get_next-last_alone :
    (m : StateMachine) (s : Session) {s' : Session} {a : ℤ}
    → OneEnd s
    → get_next m s ≡ gives s' a
    → is_last_step a ≡ true
    → (s'.nexts ≡ a ∷ []) × (s'.pendings ≡ [])
get_next-last_alone m s v e l = Gets-last (get_next-Gets m s e) v l

abbrev scheduled : ℤ → Session → Bool
scheduled a s = mem a s.nexts || mem a s.pendings

promoted-scheduled :
    (s : Session) (b : ℤ)
    → mem (choose s.pendings) s.pendings ≡ true
    → scheduled b (promoted s) ≡ scheduled b s
unfolding plan remove_from_pending
promoted-scheduled s b h = ground (
  arith,
  eqb_ℤ_iff (choose s.pendings) b,
  mem-insert (choose s.pendings) b s.nexts,
  mem-erase (choose s.pendings) b s.pendings,
)

Gets-scheduled : {s s' : Session} {a : ℤ} (b : ℤ) → Gets s s' a → scheduled b s' ≡ scheduled b s
Gets-scheduled b (at_once s a p) = refl
Gets-scheduled b (none_left s a p c) = refl
Gets-scheduled b (promote s d p c g) = Gets-scheduled b g ∙ promoted-scheduled s b c

pick-mem : (s : List ℤ) (a : ℤ) → pick s ≡ answer a → mem a s ≡ true
unfolding pick mem
pick-mem [] a e = absurd (cc)
pick-mem (b ∷ []) a e = ground (arith, eqb_ℤ_iff b a)
pick-mem (b ∷ c ∷ s) a e = ground (arith, eqb_ℤ_iff b a, eqb_ℤ_iff c a)

pick-idle :
    (s : List ℤ) (a : ℤ) → pick s ≡ promote_or a → (s ≡ []) × (a ≡ Step.nothing) ⊎ (mem a s ≡ true)
unfolding pick mem
pick-idle [] a e = inl (refl, ground arith)
pick-idle (b ∷ []) a e = inr (ground (arith, eqb_ℤ_iff b a))
pick-idle (b ∷ c ∷ s) a e = ground arith

Gets-planned :
    {s s' : Session} {a : ℤ}
    → Gets s s' a
    → mem Step.nothing s.pendings ≡ false
    → ((a ≡ Step.nothing) × (s'.nexts ≡ []) × (s'.pendings ≡ [])) ⊎ (mem a s'.nexts ≡ true)
unfolding plan remove_from_pending
Gets-planned (at_once s a p) h = inr (pick-mem s.nexts a p)
Gets-planned (none_left s a p c) h = elim (pick-idle s.nexts a p) [
  | inl (n, e) ↦ inl (e, n, no_choice s.pendings h c)
  | inr i ↦ inr i
]
Gets-planned (promote s b p c g) h =
    Gets-planned g (ground (arith, mem-erase (choose s.pendings) Step.nothing s.pendings))

-- `getNext` answers a planned action, or -1 if nothing is planned and nothing is pending; and it
-- loses no action and makes none up: the same identifiers are planned or pending afterwards.
pub get_next-scheduled :
    (m : StateMachine) (s : Session) {s' : Session} {a : ℤ} (b : ℤ)
    → mem Step.nothing s.pendings ≡ false
    → get_next m s ≡ gives s' a
    → (((a ≡ Step.nothing) × (s'.nexts ≡ []) × (s'.pendings ≡ [])) ⊎ (mem a s'.nexts ≡ true))
      × ((mem b s'.nexts || mem b s'.pendings) ≡ (mem b s.nexts || mem b s.pendings))
get_next-scheduled m s b h e =
    (Gets-planned (get_next-Gets m s e) h, Gets-scheduled b (get_next-Gets m s e))
