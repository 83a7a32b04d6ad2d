-- ===== src/Service/Tests.antt =====
-- Clients, routing and the start of a server at concrete values.
use libworkflow.Prelude.{ℕ, ◌+◌, ◌≡◌, refl, [], ◌∷◌, map, some}
use libworkflow.Prelude.Key.{nat_key}
use libworkflow.Prelude.Map.{lookup}
use libworkflow.Core.Target
use libworkflow.Core.Target.{Target, new_target}
use libworkflow.Core.Request.{Request, new_request, create_reply, get_id}
use libworkflow.Service.Client.{
  Client, connected, new_actor, note_sent, note_received, disconnect, connect,
}
use libworkflow.Service.Client.Ledger.{addressed, owed, sent_request-stays, disconnect-interrupts}
use libworkflow.Service.Startup.{new_server, add_controller, decrease_controllers_counter}
use libworkflow.Service.Startup.Once.{
  created, controller_added, controller_reported, Counted, Reached-Counted,
}

abbrev question : Request
question =
    new_request (new_target "default" "split" 7 0)
      (record (new_target "default" "caller" 8 0) { target = Target.reply; client_id = 3 })

abbrev actor : Client
actor = record (new_actor 3) { status = connected }

sent_request-stays_example :
    lookup
      (get_id question)
      (note_received (create_reply question) (note_sent question actor)).sent_requests
    ≡ some question
unfolding new_request new_target
sent_request-stays_example = sent_request-stays actor question refl refl refl

abbrev asking_actor : Client
asking_actor = record actor {
  sent_requests = (7, question) ∷ [];
  received_requests = (9, question) ∷ [];
}

abbrev new_ids : ℕ → Target
new_ids n = new_target "default" "" (100 + n) 0

disconnect-interrupts_example :
    (map addressed (disconnect new_ids asking_actor).1 ≡ owed asking_actor)
    × (map addressed (disconnect new_ids (connect new_ids (disconnect new_ids asking_actor).0).0).1
        ≡ owed asking_actor)
unfolding new_actor
disconnect-interrupts_example = disconnect-interrupts new_ids new_ids asking_actor refl

Reached-Counted_example : Counted (decrease_controllers_counter (add_controller new_server))
Reached-Counted_example = Reached-Counted (controller_reported (controller_added created))
