-- ===== src/Core/Session.antt =====
-- core/session.h and core/session.cpp: what a running request has done so far.
-- Inputs and outputs are null where no context was set. The subqueries are kept by identifier,
-- which is all that `Target::operator<` compares.
use libworkflow.Prelude.{
  ℕ, ◌+◌, ◌%◌, String, Bool, true, false, Option, none, some, List, [], ◌∷◌, ◌++◌, ◌||◌,
  if◌then◌else◌,
}
use libworkflow.Prelude.Int.{ℤ}
use libworkflow.Prelude.Key.{int_key, string_key}
use libworkflow.Prelude.Map.{Map, lookup, insert}
use libworkflow.Prelude.Outcome.{Outcome, at}
use libworkflow.Core.Context.{Context}
use libworkflow.Core.Target.{Target, target_less}
use libworkflow.Core.Request.{Request}
use libworkflow.Tools.PropertySet.Typed.{PropertySet, empty_set}
use libworkflow.Tools.ErrorReport.{ErrorReport}

pub data ExecutionStatus : Type 0 where
  unplanned pending planned skipped waiting async done : ExecutionStatus

abbrev pub ContextRows : Type 0
ContextRows = Map ℤ (Map String (Option Context))

pub record Session : Type 0 where
  pub request : Option Request
  pub requests : List Request
  pub bypass : Option PropertySet
  pub action_bypasses : Map ℤ PropertySet
  pub subqueries : List Target
  pub pendings : List ℤ
  pub nexts : List ℤ
  pub status : Map ℤ ExecutionStatus
  pub inputs : ContextRows
  pub outputs : ContextRows
  pub current_execution_level : ℕ
  pub finished : Bool

unfoldable pub new_session : Session
new_session = record {
  request = none;
  requests = [];
  bypass = none;
  action_bypasses = [];
  subqueries = [];
  pendings = [];
  nexts = [];
  status = [];
  inputs = [];
  outputs = [];
  current_execution_level = 1;
  finished = false;
}

-- `getBypass(id)`: an absent set is created empty, and stays.
unfoldable pub get_bypass : ℤ → Session → Session × PropertySet
unfolding empty_set
get_bypass id s = elim (lookup id s.action_bypasses) [
  | none ↦ (record s { action_bypasses = insert id empty_set s.action_bypasses }, empty_set)
  | some b ↦ (s, b)
]

-- `status.at(id)` throws for an action without a status.
unfoldable pub get_status : ℤ → Session → Outcome ExecutionStatus
get_status id s = at (lookup id s.status)

unfoldable pub set_status : ℤ → ExecutionStatus → Session → Session
set_status id e s = record s { status = insert id e s.status }

-- The row of an action, empty if there is none.
abbrev pub row : ℤ → ContextRows → Map String (Option Context)
row id m = elim (lookup id m) [ none ↦ [] | some r ↦ r ]

abbrev pub flat : Option (Option Context) → Option Context
flat none = none
flat (some c) = c

unfoldable pub set_output : ℤ → String → Option Context → Session → Session
set_output id name c s = record s {
  outputs = insert id (insert name c (row id s.outputs)) s.outputs;
}

unfoldable pub get_output : ℤ → String → Session → Option Context
get_output id name s = flat (lookup name (row id s.outputs))

unfoldable pub set_input : ℤ → String → Option Context → Session → Session
set_input id name c s = record s { inputs = insert id (insert name c (row id s.inputs)) s.inputs }

unfoldable pub get_input : ℤ → String → Session → Option Context
get_input id name s = flat (lookup name (row id s.inputs))

-- `uint32_t`
unfoldable pub up_current_execution_level : Session → Session
up_current_execution_level s = record s {
  current_execution_level = (s.current_execution_level + 1) % 4294967296;
}

abbrev pub last : List Request → Option Request
last [] = none
last (r ∷ []) = some r
last (_ ∷ r ∷ rs) = last (r ∷ rs)

unfoldable pub get_last_request : Session → Option Request
get_last_request s = last s.requests

unfoldable pub push_request : Request → Session → Session
push_request r s = elim s.request [
  | none ↦ record s {
    request = some r;
    bypass = r.bypass;
    action_bypasses = r.action_bypasses;
    requests = s.requests ++ r ∷ [];
  }
  | some _ ↦ record s { requests = s.requests ++ r ∷ [] }
]

-- `getLastRequest()->setErrorReport(report)` where there is a last request.
abbrev pub report_last : Option ErrorReport → List Request → List Request
report_last e [] = []
report_last e (r ∷ []) = record r { report = e } ∷ []
report_last e (q ∷ r ∷ rs) = q ∷ report_last e (r ∷ rs)

unfoldable pub set_finished : Session → Session
set_finished s = record s { finished = true }

unfoldable pub has_finished : Session → Bool
has_finished s = s.finished

-- `std::set<Target>` of the running subqueries, in the order of their identifiers.
abbrev insert_target : Target → List Target → List Target
insert_target t [] = t ∷ []
insert_target t (u ∷ us) =
    if target_less t u
    then t ∷ u ∷ us
    else if target_less u t
    then u ∷ insert_target t us
    else u ∷ us

abbrev erase_target : Target → List Target → List Target
erase_target t [] = []
erase_target t (u ∷ us) =
    if target_less t u || target_less u t then u ∷ erase_target t us else erase_target t us

unfoldable pub add_sub_query : Target → Session → Session
add_sub_query t s = record s { subqueries = insert_target t s.subqueries }

unfoldable pub remove_sub_query : Target → Session → Session
remove_sub_query t s = record s { subqueries = erase_target t s.subqueries }
