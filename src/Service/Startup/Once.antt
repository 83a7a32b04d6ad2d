-- ===== src/Service/Startup/Once.antt =====
-- How often, and when, the hooks of a server run (service/server.cpp).
use libworkflow.Prelude.{
  ℕ, suc, ◌+◌, ◌-◌, ◌≡◌, refl, ◌==◌, ltb, Bool, true, false, not, ◌&&◌, List, [], ◌∷◌, ◌++◌,
  if◌then◌else◌, arith,
}
use libworkflow.Service.Startup.{
  Server, Event, controllers_started, clients_started, new_server, add_controller, add_actor,
  controller_started, clients_ready, decrease_controllers_counter, decrease_clients_counter,
}

-- What can happen to a server, in any order.
pub data Reached : Server → Type 0 where
  created : Reached new_server
  controller_added : {s : Server} → Reached s → Reached (add_controller s)
  actor_added : {s : Server} → Reached s → Reached (add_actor s)
  controller_reported : {s : Server} → Reached s → Reached (decrease_controllers_counter s)
  client_reported : {s : Server} → Reached s → Reached (decrease_clients_counter s)

abbrev pub of_controllers : Event → ℕ
of_controllers controllers_started = 1
of_controllers clients_started = 0

abbrev pub of_clients : Event → ℕ
of_clients controllers_started = 0
of_clients clients_started = 1

-- How many events of a kind there are.
abbrev pub count : (Event → ℕ) → List Event → ℕ
count f [] = 0
count f (e ∷ es) = f e + count f es

count-append :
    (f : Event → ℕ) (es : List Event) (e : Event) → count f (es ++ e ∷ []) ≡ count f es + f e
count-append f [] e = omega arith
count-append f (x ∷ es) e = omega (arith, count-append f es e)

abbrev pub bit : Bool → ℕ
bit true = 1
bit false = 0

-- Each hook has run once if it is marked as done, and not at all otherwise.
pub record Counted (s : Server) : Type 0 where
  pub controllers : count of_controllers s.events ≡ bit s.controllers_done
  pub clients : count of_clients s.events ≡ bit s.clients_done

controller_started-Counted : (s : Server) → Counted s → Counted (controller_started s)
unfolding controller_started
controller_started-Counted s c = record {
  controllers =
      ground (arith, c.controllers, count-append of_controllers s.events controllers_started);
  clients = ground (arith, c.clients, count-append of_clients s.events controllers_started);
}

clients_ready-Counted : (s : Server) → Counted s → Counted (clients_ready s)
unfolding clients_ready
clients_ready-Counted s c = record {
  controllers = ground (arith, c.controllers, count-append of_controllers s.events clients_started);
  clients = ground (arith, c.clients, count-append of_clients s.events clients_started);
}

if-Counted : (b : Bool) (s t : Server) → Counted s → Counted t → Counted (if b then s else t)
if-Counted true s t c d = c
if-Counted false s t c d = d

decrease_controllers-Counted : (s : Server) → Counted s → Counted (decrease_controllers_counter s)
unfolding decrease_controllers_counter
decrease_controllers-Counted s c =
    let one = record s { controllers_expected = s.controllers_expected - 1 } in
    let d : Counted one = record { controllers = c.controllers; clients = c.clients } in
    let two = if one.controllers_expected == 0 then controller_started one else one in
    let e =
      if-Counted (one.controllers_expected == 0) (controller_started one) one
        (controller_started-Counted one d) d in
    if-Counted (ltb 0 s.controllers_expected) _ s
      (if-Counted ((two.clients_expected == 0) && not two.clients_done) (clients_ready two) two
        (clients_ready-Counted two e) e)
      c

decrease_clients-Counted : (s : Server) → Counted s → Counted (decrease_clients_counter s)
unfolding decrease_clients_counter
decrease_clients-Counted s c =
    let one = record s { clients_expected = s.clients_expected - 1 } in
    let d : Counted one = record { controllers = c.controllers; clients = c.clients } in
    if-Counted (ltb 0 s.clients_expected) _ s
      (if-Counted ((one.clients_expected == 0) && one.controllers_done && not one.clients_done)
        (clients_ready one) one (clients_ready-Counted one d) d)
      c

-- Whatever is added and whatever reports, in any order: each of the two hooks runs once where it is
-- marked as done, and has not run where it is not.
pub Reached-Counted : {s : Server} → Reached s → Counted s
unfolding new_server add_controller add_actor
Reached-Counted created = record { controllers = refl; clients = refl }
Reached-Counted (controller_added r) =
    let c = Reached-Counted r in record { controllers = c.controllers; clients = c.clients }
Reached-Counted (actor_added r) =
    let c = Reached-Counted r in record { controllers = c.controllers; clients = c.clients }
Reached-Counted (controller_reported r) = decrease_controllers-Counted _ (Reached-Counted r)
Reached-Counted (client_reported r) = decrease_clients-Counted _ (Reached-Counted r)

-- A server that expects no actors, and neither of whose hooks has run, runs its clients hook at the
-- first controller that reports, while another is still expected and the controllers hook has not run.
pub clients_hook-early :
    (s : Server) (n : ℕ)
    → s.controllers_expected ≡ suc (suc n)
    → s.clients_expected ≡ 0
    → s.controllers_done ≡ false
    → s.clients_done ≡ false
    → ((decrease_controllers_counter s).events ≡ s.events ++ clients_started ∷ [])
      × ((decrease_controllers_counter s).controllers_done ≡ false)
      × ((decrease_controllers_counter s).controllers_expected ≡ suc n)
unfolding decrease_controllers_counter clients_ready
clients_hook-early s n e f d g = ground (arith, e, f, d, g)
