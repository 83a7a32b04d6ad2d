-- ===== src/Service/Client/Ledger.antt =====
-- The requests that a client remembers (service/client.cpp).
use libworkflow.Prelude.{ℕ, suc, ◌≡◌, refl, ap, ◌∙◌, false, some, List, [], ◌∷◌, ◌++◌, arith, map}
use libworkflow.Prelude.Key.{nat_key, ◌==◌}
use libworkflow.Prelude.Map.{lookup, insert, lookup-insert_self, lookup-erase}
use libworkflow.Core.Target
use libworkflow.Core.Target.{Target, TargetAction}
use libworkflow.Core.Request.{Request, get_id, create_reply, request_without_reply}
use libworkflow.Service.Client.{
  Client, disconnected, connect, set_status, same_status, internal_status_changed,
  interrupt_all_received, note_sent, note_received, disconnect, interrupt_sent, interrupt_received,
  requests_of,
}

-- A `DefaultAction` request that was sent and asks for a reply is still remembered once its reply
-- was received, where its reply target has another identifier than its target.
pub sent_request-stays :
    (c : Client) (req : Request)
    → req.target.target ≡ Target.default_action
    → req.reply.target ≡ Target.reply
    → (req.reply.identifier == req.target.identifier) ≡ false
    → lookup (get_id req) (note_received (create_reply req) (note_sent req c)).sent_requests
      ≡ some req
unfolding note_sent note_received create_reply get_id
sent_request-stays c req d r n = ground (
  arith,
  d,
  r,
  n,
  lookup-insert_self req.target.identifier req c.sent_requests,
  lookup-erase req.reply.identifier req.target.identifier
      (insert req.target.identifier req c.sent_requests),
)

-- Whom a request is for, and how it is to be answered.
abbrev pub addressed : Request → Target × TargetAction
addressed q = (q.target, q.reply.target)

-- An interrupt to a target, which is not answered.
abbrev pub interrupts : Target → Target × TargetAction
interrupts t = (record t { target = Target.interrupt }, Target.no_reply)

-- The interrupts that a disconnected client owes: one for each request it remembers as sent, to the
-- target of its reply, and one for each it remembers as received, to its target.
abbrev pub owed : Client → List (Target × TargetAction)
owed c =
    map (λ r. interrupts r.reply) (requests_of c.sent_requests)
    ++ map (λ r. interrupts r.target) (requests_of c.received_requests)

addressed-sent :
    (rs : List Request) → map addressed (map interrupt_sent rs) ≡ map (λ r. interrupts r.reply) rs
unfolding interrupt_sent create_reply
addressed-sent [] = refl
addressed-sent (r ∷ rs) = ap (λ l. interrupts r.reply ∷ l) (addressed-sent rs)

addressed-received :
    (fresh : ℕ → Target) (round : ℕ) (rs : List Request)
    → map addressed (interrupt_all_received fresh round rs) ≡ map (λ r. interrupts r.target) rs
unfolding interrupt_all_received interrupt_received request_without_reply
addressed-received fresh round [] = refl
addressed-received fresh round (r ∷ rs) =
    ap (λ l. interrupts r.target ∷ l) (addressed-received fresh (suc round) rs)

addressed-append :
    (qs rs : List Request) → map addressed (qs ++ rs) ≡ map addressed qs ++ map addressed rs
addressed-append [] rs = refl
addressed-append (q ∷ qs) rs = ap (λ l. addressed q ∷ l) (addressed-append qs rs)

addressed-owed :
    (fresh : ℕ → Target) (c : Client)
    → map addressed (internal_status_changed fresh c disconnected) ≡ owed c
unfolding internal_status_changed
addressed-owed fresh c =
    addressed-append (map interrupt_sent (requests_of c.sent_requests)) _
    ∙ ap
        (λ l. l ++ map addressed (interrupt_all_received fresh 0 (requests_of c.received_requests)))
        (addressed-sent (requests_of c.sent_requests))
    ∙ ap (λ l. map (λ r. interrupts r.reply) (requests_of c.sent_requests) ++ l)
        (addressed-received fresh 0 (requests_of c.received_requests))

-- A client that was not disconnected interrupts, when it gets disconnected, every request that it
-- remembers as sent at the target of its reply and every one that it remembers as received at its
-- target, once each and without asking for an answer. It forgets none of them: when it connects again
-- and is disconnected again, the same interrupts go out.
pub disconnect-interrupts :
    (fresh again : ℕ → Target) (c : Client)
    → same_status disconnected c.status ≡ false
    → (map addressed (disconnect fresh c).1 ≡ owed c)
      × (map addressed (disconnect again (connect fresh (disconnect fresh c).0).0).1 ≡ owed c)
unfolding disconnect connect set_status
disconnect-interrupts fresh again c h = (
  rw h (addressed-owed fresh (record c { status = disconnected })),
  rw h (addressed-owed again (record c { status = disconnected })),
)
