-- ===== src/Service/Startup.antt =====
-- service/server.h and service/server.cpp: the server counts its controllers and its actors down as
-- they report that they have started. The counters are `uint32_t`. What the hooks of a server do is
-- kept as the event that they are called.
use libworkflow.Prelude.{
  ℕ, ◌+◌, ◌-◌, ◌%◌, ◌==◌, ltb, Bool, true, false, not, ◌&&◌, List, [], ◌∷◌, ◌++◌, if◌then◌else◌,
}
pub mod Once

pub data Event : Type 0 where
  controllers_started clients_started : Event

pub record Server : Type 0 where
  pub controllers_expected : ℕ
  pub clients_expected : ℕ
  pub controllers_done : Bool
  pub clients_done : Bool
  pub events : List Event

unfoldable pub new_server : Server
new_server = record {
  controllers_expected = 0;
  clients_expected = 0;
  controllers_done = false;
  clients_done = false;
  events = [];
}

unfoldable pub add_controller : Server → Server
add_controller s = record s { controllers_expected = (s.controllers_expected + 1) % 4294967296 }

unfoldable pub add_actor : Server → Server
add_actor s = record s { clients_expected = (s.clients_expected + 1) % 4294967296 }

-- `startServer` adds the default and the temporary controller.
unfoldable pub start_server : Server → Server
unfolding add_controller
start_server s = add_controller (add_controller s)

unfoldable pub controller_started : Server → Server
controller_started s =
    if s.controllers_done
    then s
    else record s { events = s.events ++ controllers_started ∷ []; controllers_done = true }

unfoldable pub clients_ready : Server → Server
clients_ready s =
    if s.clients_done
    then s
    else record s { events = s.events ++ clients_started ∷ []; clients_done = true }

unfoldable pub decrease_controllers_counter : Server → Server
unfolding controller_started clients_ready
decrease_controllers_counter s =
    if ltb 0 s.controllers_expected
    then (let one = record s { controllers_expected = s.controllers_expected - 1 } in
        let two = if one.controllers_expected == 0 then controller_started one else one in
        if (two.clients_expected == 0) && not two.clients_done then clients_ready two else two)
    else s

unfoldable pub decrease_clients_counter : Server → Server
unfolding clients_ready
decrease_clients_counter s =
    if ltb 0 s.clients_expected
    then (let one = record s { clients_expected = s.clients_expected - 1 } in
        if (one.clients_expected == 0) && one.controllers_done && not one.clients_done
        then clients_ready one
        else one)
    else s
