-- ===== src/Examples/Calls.antt =====
-- Remote calls, and the client's connection.
use cncremote.Prelude.{ℤ, pos, ◌≡◌, refl, true, false, codes, [], ◌∷◌, none, some}
use cncremote.Sample.{whole_numbers, Tree, trees}
use cncremote.Comms.{State, mc_no_server, mc_idle, new_state}
use cncremote.Server.Handlers.{Response}
use cncremote.Client.Calls.{
  RemoteCall, responded, Delivery, new_call, call_async, on_event, begin_call,
}
use cncremote.Client.Calls.Laws.{Reach, new, later, calls, hears}
use cncremote.Client.Session.{
  Client, on_disconnect, Session, Peer, new_client, handler_connect, handler_disconnect,
}
use cncremote.Client.Session.Reconnects.{fails, handler_disconnect-once}
use cncremote.Client.Polling.{ask}
use cncremote.Client.Polling.Refusals.{polls, ask_refused}
use cncremote.Sample

abbrev answer : Response Tree
answer = record { msgid = 0; result = Sample.int (pos 3); error = Sample.nil }

abbrev refusal : Delivery Tree
refusal = record { refused = some (codes "no socket"); ticks = [] }

-- A call that was sent and answered.
abbrev answered : RemoteCall Tree
answered = on_event (responded answer) (call_async none new_call).1

reached : Reach answered
unfolding new_call call_async
reached = later (later new (calls none)) (hears (responded answer) refl)

abbrev client : Client ℤ Tree
client = new_client (pos 0) (pos 0) (pos 0)

abbrev away : Client ℤ Tree
away = fails 12 (handler_connect client)

handler_disconnect-once_example :
    (away.notices ≡ on_disconnect ∷ [])
    × (away.server_ver ≡ pos 0)
    × (away.state.machine_state ≡ mc_no_server)
    × ((handler_disconnect (fails 11 (handler_connect client))).0 ≡ 1000)
unfolding new_client whole_numbers
handler_disconnect-once_example = handler_disconnect-once 11 client

-- What a server reports that is idle.
abbrev idle : State ℤ
idle = record new_state { machine_state = mc_idle }

-- A socket that refuses every request.
abbrev deaf : Peer Tree (Unit {0})
deaf = record {
  request = λ method params s. (refusal, s);
  request_async = λ method params s. (some (codes "no socket"), s);
  notify = λ message s. (false, s);
  arrived = λ s. ([], s);
  is_connected = λ s. true;
  is_local = λ s. false;
}

abbrev alone : Session ℤ Tree (Unit {0})
alone = record { client = client; world = tt }

ask_refused_example :
    polls trees deaf 5 (ask trees deaf (codes "GetState") alone)
    ≡ record { client = record client { status_call = begin_call client.status_call }; world = tt }
unfolding new_client new_call
ask_refused_example =
    ask_refused trees deaf (codes "GetState") (codes "no socket") alone 5 refl refl (λ s. refl)
