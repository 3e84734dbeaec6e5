-- ===== src/Examples/Lives.antt =====
-- A client that connects, learns the server's version and loses the connection.
use cncremote.Prelude.{ℕ, ℤ, pos, ◌==◌, ◌≡◌, refl, true, false, [], ◌∷◌, none, arith, if◌then◌else◌}
use cncremote.Sample.{whole_numbers, Tree, trees}
use cncremote.Sample
use cncremote.Client.Calls.{responded, on_event, new_call, call_async, get_response, clear_response}
use cncremote.Client.Session.{
  Client, on_connect, Peer, new_client, handler_connect, handler_disconnect,
}
use cncremote.Client.Polling.{poll, ask, take_version, take_status}
use cncremote.Client.Polling.Views.{HasVersions, IsInformed}
use cncremote.Client.Polling.Life.{Reach, new, later, connects, polls, fails, Reach-IsInformed}
use cncremote.Server.Handlers.{Response}

abbrev answer : Response Tree
answer = record { msgid = 0; result = Sample.int (pos 3); error = Sample.nil }

-- A socket whose world says whether the answer to "Version" has come.
abbrev socket : Peer Tree ℕ
socket = record {
  request = λ method params s. (record { refused = none; ticks = [] }, s);
  request_async = λ method params s. (none, s);
  notify = λ message s. (true, s);
  arrived = λ s. ((if s == 0 then [] else responded answer ∷ []), s);
  is_connected = λ s. true;
  is_local = λ s. false;
}

versions : HasVersions ℤ
unfolding whole_numbers
versions = record {
  minus_one = refl;
  nought_eq = refl;
  not_below = λ ver h. (ground arith, ground arith);
}

abbrev client : Client ℤ Tree
client = new_client (pos 0) (pos 0) (pos 0)

abbrev asked : Client ℤ Tree
asked = (poll trees socket (record { client = handler_connect client; world = 0 })).1.client

abbrev told : Client ℤ Tree
told = (poll trees socket (record { client = asked; world = 1 })).1.client

lives : Reach trees socket (handler_disconnect told).1
lives =
    later (later (later (later (new (pos 0) (pos 0) (pos 0)) connects) (polls 0)) (polls 1)) fails

Reach-IsInformed_example : IsInformed (handler_disconnect told).1
Reach-IsInformed_example = Reach-IsInformed trees socket versions lives

told_notices : told.notices ≡ on_connect ∷ []
unfolding poll ask take_version take_status get_response call_async clear_response new_client
    new_call handler_connect whole_numbers on_event
told_notices = refl
