-- ===== src/Examples/Messages.antt =====
-- Messages, the protocol and the logs.
use cncremote.Prelude.{ℤ, pos, ◌≡◌, ◌⊎◌, ok, Bytes, true, codes, List, [], ◌∷◌, some}
use cncremote.Sample.{whole_numbers, Tree, trees}
use cncremote.Comms.{State, PreviewAxes, prev_start}
use cncremote.Comms.Vectors.{fill}
use cncremote.Comms.States.{pack_state, unpack_state}
use cncremote.Comms.States.Laws.{unpack_state-pack_state}
use cncremote.Server.Handlers.{Request, failure, on_request, Notify, on_notify, exception_notify}
use cncremote.Server.Bindings.{request_handlers, notify_handlers}
use cncremote.Server.Protocol.{Query, Command, query_method, command_method}
use cncremote.Server.Dispatch.Requests.{Carries, on_request_typed}
use cncremote.Server.Dispatch.Notifications.{on_notify_typed}
use cncremote.Server.Dispatch.Notifications
use cncremote.Server.Dispatch.{
  answer, reply, query_meaning, command_meaning, query_request, command_notify, on_request-query,
  on_notify-command,
}
use cncremote.Sample
use cncremote.Sim.Members.{sim}
use cncremote.Examples.Data.{host, machine}

abbrev state : State ℤ
state = machine.state

unpack_state-pack_state_example : unpack_state trees (pack_state trees state) ≡ some state
unpack_state-pack_state_example = unpack_state-pack_state trees state

abbrev path : List (PreviewAxes ℤ)
path = record { axes = fill (pos 1); kind = prev_start } ∷ []

on_request-query_example :
    on_request trees
      (request_handlers trees host sim)
      (query_request trees host sim Sample.nil 5 (Query.mdi (codes "G0")))
      machine
    ≡ answer trees host sim 5
        (Query.mdi (codes "G0"))
        (query_meaning trees host sim (Query.mdi (codes "G0")) machine)
on_request-query_example =
    on_request-query trees host sim Sample.nil 5 (Query.mdi (codes "G0")) machine

on_notify-command_example :
    on_notify trees
      (notify_handlers trees host sim)
      (command_notify trees host sim Sample.nil 5 (Command.feed_hold true))
      machine
    ≡ reply trees host sim
        (codes "FeedHold")
        (command_meaning trees host sim (Command.feed_hold true) machine)
on_notify-command_example =
    on_notify-command trees host sim Sample.nil 5 (Command.feed_hold true) machine

-- "Mdi" with a number in place of a text.
abbrev mistyped : Request Tree
mistyped = record { msgid = 5; method = codes "Mdi"; params = Sample.int (pos 3) }

on_request_typed_example :
    ((q : Query) × (mistyped.method ≡ query_method q)
      × Carries trees host sim mistyped.params q
      × (on_request trees (request_handlers trees host sim) mistyped machine
          ≡ answer trees host sim 5 q (query_meaning trees host sim q machine)))
    ⊎ ((what : Bytes) × (on_request trees (request_handlers trees host sim) mistyped machine
          ≡ (ok (failure trees 5 what (codes "Mdi")), machine)))
on_request_typed_example = on_request_typed trees host sim mistyped machine

-- "FeedHold" with a number in place of a truth value.
abbrev misnotified : Notify Tree
misnotified = record { method = codes "FeedHold"; params = Sample.int (pos 3) }

on_notify_typed_example :
    ((c : Command ℤ) × (misnotified.method ≡ command_method c)
      × Notifications.Carries trees host sim misnotified.params c
      × (on_notify trees (notify_handlers trees host sim) misnotified machine
          ≡ reply trees host sim (codes "FeedHold") (command_meaning trees host sim c machine)))
    ⊎ ((what : Bytes) × (on_notify trees (notify_handlers trees host sim) misnotified machine
          ≡ (ok (some (exception_notify trees what (codes "FeedHold"))), machine)))
on_notify_typed_example = on_notify_typed trees host sim misnotified machine
