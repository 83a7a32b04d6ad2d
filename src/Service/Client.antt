-- ===== src/Service/Client.antt =====
-- service/client.h and service/client.cpp: what a client received from its host, and what it sent.
-- The methods that a class overrides are fields. A request that `doReceiveRequest` changes is the
-- one that `receivedRequests` points to, so the changed request is stored.
use libworkflow.Prelude.{
  ℕ, suc, String, Bool, true, false, not, ◌&&◌, Option, none, some, List, [], ◌∷◌, ◌++◌,
  if◌then◌else◌, map,
}
use libworkflow.Prelude.Key.{nat_key}
use libworkflow.Prelude.Map.{Map, lookup, insert, erase, has}
use libworkflow.Core.Target
use libworkflow.Core.Target.{TargetAction}
use libworkflow.Core.Request.{Request, get_id, create_reply, request_without_reply}
use libworkflow.Tools.ErrorReport.{ErrorReport, set_error}
pub mod Ledger

pub data ClientStatus : Type 0 where
  connected heartbeat_expected disconnected : ClientStatus

pub record Client : Type 0 where
  pub status : ClientStatus
  pub client_id : ℕ
  pub received_requests : Map ℕ Request
  pub sent_requests : Map ℕ Request
  pub is_received_request_allowed : Request → ErrorReport → Bool × ErrorReport
  pub can_send_request : Request → ErrorReport → Bool × ErrorReport

-- `Client()`: it takes everything from its host, and has nothing to send to it.
unfoldable pub new_client : (id : ℕ) → Client
unfolding set_error
new_client id = record {
  status = disconnected;
  client_id = id;
  received_requests = [];
  sent_requests = [];
  is_received_request_allowed = λ req er. (true, er);
  can_send_request = λ req er.
      (false, set_error er "client.cant.send" "This is a default client, and has nothing to send");
}

-- `Actor`, which sends everything (service/actor.cpp).
unfoldable pub new_actor : (id : ℕ) → Client
unfolding new_client
new_actor id = record (new_client id) { can_send_request = λ req er. (true, er) }

abbrev pub is_reply : TargetAction → Bool
is_reply Target.reply = true
is_reply _ = false

abbrev pub is_default : TargetAction → Bool
is_default Target.default_action = true
is_default _ = false

abbrev pub is_no_reply : TargetAction → Bool
is_no_reply Target.no_reply = true
is_no_reply _ = false

-- `doReceiveRequest`: the request as it goes to the controller manager.
unfoldable pub do_receive_request : (id : ℕ) → Request → Request
do_receive_request id req = record req {
  reply = record req.reply {
    client_id = id;
    target = if is_no_reply req.reply.target then req.reply.target else Target.reply;
  };
}

-- A client, the requests it gave to the controller manager, the answer and the error.
pub record Mail : Type 0 where
  pub client : Client
  pub forwarded : List Request
  pub accepted : Bool
  pub error : ErrorReport

unfoldable pub note_received : Request → Client → Client
unfolding get_id do_receive_request
note_received req c =
    if is_reply req.target.target
    then (if has req.request_id c.sent_requests
        then record c { sent_requests = erase (get_id req) c.sent_requests }
        else c)
    else if is_reply req.reply.target
    then record c {
      received_requests =
          insert (get_id req) (do_receive_request c.client_id req) c.received_requests;
    }
    else c

unfoldable pub receive_new_request : Request → ErrorReport → Client → Mail
unfolding note_received do_receive_request
receive_new_request req er c =
    let (allowed, er') = c.is_received_request_allowed req er in
    if allowed
    then (record {
      client = note_received req c;
      forwarded = do_receive_request c.client_id req ∷ [];
      accepted = true;
      error = er';
    })
    else (record { client = c; forwarded = []; accepted = false; error = er' })

unfoldable pub note_sent : Request → Client → Client
unfolding get_id
note_sent req c =
    if is_default req.target.target
    then (if is_no_reply req.reply.target
        then c
        else record c { sent_requests = insert (get_id req) req c.sent_requests })
    else if is_reply req.target.target
    then (if has (get_id req) c.received_requests
        then record c { received_requests = erase (get_id req) c.received_requests }
        else c)
    else c

-- `sendRequest`: here `forwarded` is what went to `doSendRequest`.
unfoldable pub send_request : Request → ErrorReport → Client → Mail
unfolding note_sent
send_request req er c =
    let (able, er') = c.can_send_request req er in
    if able
    then (record { client = note_sent req c; forwarded = req ∷ []; accepted = true; error = er' })
    else (record { client = c; forwarded = []; accepted = false; error = er' })

abbrev pub requests_of : Map ℕ Request → List Request
requests_of [] = []
requests_of ((id, r) ∷ rest) = r ∷ requests_of rest

-- The interrupts of `internalStatusChanged`, for a request sent and for one received.
unfoldable pub interrupt_sent : Request → Request
unfolding create_reply
interrupt_sent req =
    let back = create_reply req in
    record back {
      target = record back.target { target = Target.interrupt };
      reply = record back.reply { target = Target.no_reply };
    }

unfoldable pub interrupt_received : (fresh : Target.Target) → Request → Request
unfolding request_without_reply
interrupt_received fresh req =
    let again = request_without_reply req.target fresh in
    record again {
      target = record again.target { target = Target.interrupt };
      reply = record again.reply { target = Target.no_reply };
    }

-- The loop over the received requests: each new request has a new random identifier.
unfoldable pub interrupt_all_received :
    (fresh : ℕ → Target.Target) → (round : ℕ) → List Request → List Request
unfolding interrupt_received
interrupt_all_received fresh round [] = []
interrupt_all_received fresh round (r ∷ rs) =
    interrupt_received (fresh round) r ∷ interrupt_all_received fresh (suc round) rs

unfoldable pub internal_status_changed :
    (fresh : ℕ → Target.Target) → Client → ClientStatus → List Request
unfolding interrupt_sent interrupt_all_received
internal_status_changed fresh c disconnected =
    map interrupt_sent (requests_of c.sent_requests)
    ++ interrupt_all_received fresh 0 (requests_of c.received_requests)
internal_status_changed fresh c connected = []
internal_status_changed fresh c heartbeat_expected = []

abbrev pub same_status : ClientStatus → ClientStatus → Bool
same_status connected connected = true
same_status heartbeat_expected heartbeat_expected = true
same_status disconnected disconnected = true
same_status _ _ = false

-- `setStatus`: the client, and what it gave to the controller manager.
unfoldable pub set_status :
    (fresh : ℕ → Target.Target) → ClientStatus → (force : Bool) → Client → Client × List Request
unfolding internal_status_changed
set_status fresh s force c = if same_status s c.status then (c, []) else (
  record c { status = s },
  if force then [] else internal_status_changed fresh (record c { status = s }) s,
)

unfoldable pub connect : (fresh : ℕ → Target.Target) → Client → Client × List Request
unfolding set_status
connect fresh c = set_status fresh connected false c

unfoldable pub disconnect : (fresh : ℕ → Target.Target) → Client → Client × List Request
unfolding set_status
disconnect fresh c = set_status fresh disconnected false c
