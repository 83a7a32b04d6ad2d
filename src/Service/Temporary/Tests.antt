-- ===== src/Service/Temporary/Tests.antt =====
-- The temporary controller at concrete values.
use libworkflow.Prelude.{String, true, ◌≡◌, refl, Option, none, some, [], ◌∷◌, ◌++◌}
use libworkflow.Prelude.Int.{pos, eqb_ℤ, ltb_ℤ}
use libworkflow.Prelude.Key.{string_key}
use libworkflow.Prelude.Map.{Map, lookup, insert}
use libworkflow.Prelude.Outcome.{Outcome, ok}
use libworkflow.Core.Target.{new_target}
use libworkflow.Core.Request.{Request, new_request, create_reply, set_error_report}
use libworkflow.Core.Workflow.{Workflow, new_workflow}
use libworkflow.Core.StateMachine.Layout.{empty_machine}
use libworkflow.Core.StateMachine.Validation.{Problem, validate, report, starting_problems}
use libworkflow.Service.Routing.{Managers, perform}
use libworkflow.Service.Temporary.{Reader, load_temporary, temporary_of, renamed}
use libworkflow.Service.Temporary.Life.{
  Served, new_workflow-valid, temporary-served, temporary-refused, temporary-unreadable,
}
use libworkflow.Storage.Keys.{to_string}
use libworkflow.Storage.Samples.{Node, sample_tree}
use libworkflow.Storage.Workflow.{save_workflow}
use libworkflow.Tools.ErrorReport.{copy, is_set, set_error, empty_report}

abbrev job : Request
job = record (new_request (new_target "temporary" "" 7 0) (new_target "default" "caller" 8 0)) {
  workflow_json = "some text";
}

abbrev managers : Managers
managers = record { clients = []; controllers = ("temporary", []) ∷ []; posted = []; queue = [] }

abbrev saved : Workflow → Node
saved w = save_workflow sample_tree (λ type root. root) w 60 sample_tree.empty

abbrev reader : (String → Option Node) → Reader Node
reader parse = record {
  tree = sample_tree;
  read_json = parse;
  contexts = [];
  fuel = 1;
  actions = [];
  left = (new_workflow "", 0);
}

abbrev empty_job : Workflow
empty_job = record { name = "job"; machine = empty_machine; sessions = [] }

abbrev misses : Workflow
misses = record {
  name = "job";
  machine = record empty_machine {
    starters = record { workflow_input = ""; action_input = ""; action_id = pos 4 } ∷ [];
  };
  sessions = [];
}

abbrev describe : Problem → String
describe p = "problem"

abbrev by_reader :
    (String → Option Node) → Map String Workflow → Request → Managers → Outcome Managers
by_reader parse = temporary_of (reader parse) 0 describe "a1b"

load_job :
    load_temporary (reader (λ text. some (saved empty_job))) 0 "some text"
    ≡ ok (true, (record (new_workflow "") { name = "job" }, 60))
unfolding load_temporary new_workflow lookup save_workflow eqb_ℤ ltb_ℤ to_string
load_job = refl

temporary-served_example :
    (ms' : Managers) × (perform (by_reader (λ text. some (saved empty_job))) job managers ≡ ok ms')
    × Served managers ms' [] job (renamed "a1b" (record (new_workflow "") { name = "job" }))
unfolding new_request new_target lookup
temporary-served_example =
    temporary-served (reader (λ text. some (saved empty_job))) 0 describe "a1b" job managers [] refl
      refl refl refl load_job (new_workflow-valid describe) refl

temporary-unreadable_example :
    (ms' : Managers) × (perform (by_reader (λ text. none)) job managers ≡ ok ms')
    × Served managers ms' [] job (renamed "a1b" (new_workflow ""))
unfolding new_request new_target lookup
temporary-unreadable_example =
    temporary-unreadable (reader (λ text. none)) 0 describe "a1b" job managers [] refl refl refl
      refl refl refl

abbrev read_wrong : Workflow
read_wrong = record (new_workflow "") {
  name = "job";
  machine = record (new_workflow "").machine { starters = misses.machine.starters };
}

load_misses :
    load_temporary (reader (λ text. some (saved misses))) 0 "some text"
    ≡ ok (true, (read_wrong, 60))
unfolding load_temporary new_workflow lookup save_workflow eqb_ℤ ltb_ℤ to_string
load_misses = refl

misses_invalid : is_set (validate describe read_wrong.machine) ≡ true
unfolding validate is_set report starting_problems lookup new_workflow eqb_ℤ insert ltb_ℤ set_error
    empty_report
misses_invalid = refl

temporary-refused_example :
    (ms' : Managers) × (perform (by_reader (λ text. some (saved misses))) job managers ≡ ok ms')
    × (ms'.queue
        ≡ managers.queue
          ++ set_error_report
              (create_reply job)
              (some (copy (validate describe read_wrong.machine)))
            ∷ [])
    × (lookup "temporary" ms'.controllers ≡ some [])
    × (ms'.posted ≡ [])
unfolding new_request new_target lookup
temporary-refused_example =
    temporary-refused (reader (λ text. some (saved misses))) 0 describe "a1b" job managers [] refl
      refl refl refl load_misses misses_invalid
