-- ===== src/Client/Polling/Life.antt =====
-- What the application hears over the whole life of a client (src/cncclient.cpp): the calls of `OnConnect`,
-- `OnIncorrectVersion` and `OnDisconnect` follow a protocol, whatever the network and the commands do.
use cncremote.Prelude.{
  ℤ, ◌≡◌, refl, Bool, true, false, Bytes, some, Result, ok, raised, undefined, Bool-cases,
  Option-cases, inl, inr,
}
use cncremote.Comms.{ControlState, mc_no_server, new_state}
use cncremote.Comms.Arithmetic.{Double}
use cncremote.Comms.Wire.{Wire}
use cncremote.Comms.States.{unpack_state}
use cncremote.Comms.Messages.{unpack_exception}
use cncremote.Server.Handlers.{Response}
use cncremote.Client.Calls.{get_response}
use cncremote.Client.Session.{
  Client, on_connect, on_incorrect_version, on_remote_exception, Peer, Session, new_client,
  handler_connect, handler_disconnect, set_busy, Message, request, response, notify, on_message,
}
use cncremote.Client.Polling.{
  min_version, on_version, on_status, ask, ask_if, hear, poll_heard, poll, take_version,
  take_status,
}
use cncremote.Client.Polling.Views.{
  view, same_view, IsInformed, told_at, away_if, connected_if, either-IsInformed,
  handler_disconnect-IsInformed, away, connected, too_old, HasVersions, IsTold,
}

module _ {W S : Type 0} ⦃d : Double W⦄ (w : Wire W) (peer : Peer w.Any S) where
  -- What happens to a client: the application polls, in whatever state the network and the server are by then,
  -- or sends a command that makes the client busy; the library says that the connection is made, or is lost or
  -- could not be made; and a message comes in.
  pub data Step : Client W w.Any → Client W w.Any → Type 0 where
    polls :
        {c : Client W w.Any} (world : S)
        → Step c (poll w peer (record { client = c; world = world })).1.client
    commands : {c : Client W w.Any} (s : ControlState) → Step c (set_busy s c)
    connects : {c : Client W w.Any} → Step c (handler_connect c)
    fails : {c : Client W w.Any} → Step c (handler_disconnect c).1
    hears : {c : Client W w.Any} (m : Message w.Any) → Step c (on_message w m c).1

  pub data Reach : Client W w.Any → Type 0 where
    new : (cache busy beat : ℤ) → Reach (new_client cache busy beat)
    later : {c c' : Client W w.Any} → Reach c → Step c c' → Reach c'

  on_message-IsInformed :
      (m : Message w.Any) (c : Client W w.Any) → IsInformed c → IsInformed (on_message w m c).1
  unfolding on_message
  on_message-IsInformed (request r) c v = v
  on_message-IsInformed (response r) c v = v
  on_message-IsInformed (notify n) c v = elim (Option-cases (unpack_exception w n.params)) [
    | inl e ↦ rw e v
    | inr (x, e) ↦ rw e (record {
      knows = v.knows;
      in_turn = told_at (on_remote_exception x) c.notices v.in_turn (same_view W v.knows x);
      agrees = v.agrees;
    })
  ]

  on_version-IsInformed :
      (r : Result (Response w.Any)) (c : Client W w.Any)
      → HasVersions W
      → view c.notices ≡ some away
      → IsTold c.notices c.server_ver c.state.machine_state
      → c.state.machine_state ≡ mc_no_server
      → IsInformed (on_version w r c)
  on_version-IsInformed (raised e) c law turn v mode = v
  on_version-IsInformed (undefined f) c law turn v mode = v
  on_version-IsInformed (ok r) c law turn v mode = elim (Option-cases (w.real.unpack r.result)) [
    | inl e ↦ rw e v
    | inr (ver, e) ↦ elim (Bool-cases (d.lt ver min_version)) [
      | inl old ↦
          rw (e, old)
            (record {
              knows = too_old;
              in_turn = told_at (on_incorrect_version ver) c.notices turn refl;
              agrees = (law.minus_one, mode);
            })
      | inr young ↦
          rw (e, young)
            (record {
              knows = connected;
              in_turn = told_at on_connect c.notices turn refl;
              agrees = law.not_below ver young;
            })
    ]
  ]

  on_status-IsInformed :
      (r : Result (Response w.Any)) (c : Client W w.Any)
      → view c.notices ≡ some connected
      → (d.lt c.server_ver d.nought ≡ false) × (d.eq c.server_ver d.nought ≡ false)
      → IsInformed (on_status w r c)
  on_status-IsInformed (raised e) c turn v = record {
    knows = connected;
    in_turn = turn;
    agrees = v;
  }
  on_status-IsInformed (undefined f) c turn v = record {
    knows = connected;
    in_turn = turn;
    agrees = v;
  }
  on_status-IsInformed (ok r) c turn v = elim (Option-cases (unpack_state w r.result)) [
    | inl e ↦ rw e (record { knows = connected; in_turn = turn; agrees = v })
    | inr (st, e) ↦ rw e (record { knows = connected; in_turn = turn; agrees = v })
  ]

  take_version-IsInformed :
      (c : Client W w.Any)
      → HasVersions W
      → IsInformed c
      → d.lt c.server_ver d.nought ≡ false
      → d.eq c.server_ver d.nought ≡ true
      → IsInformed (take_version w c)
  unfolding take_version
  take_version-IsInformed c law v l e =
      let (turn, mode) = away_if c.notices c.state.machine_state v.knows v.in_turn v.agrees l e in
      either-IsInformed c.status_call.has_response _ c
        (on_version-IsInformed (get_response w c.status_call).0 c law turn v mode) v

  take_status-IsInformed :
      (c : Client W w.Any)
      → HasVersions W
      → IsInformed c
      → d.lt c.server_ver d.nought ≡ false
      → d.eq c.server_ver d.nought ≡ false
      → IsInformed (take_status w c)
  unfolding take_status
  take_status-IsInformed c law v l e =
      let turn = connected_if c.notices c.state.machine_state v.knows law v.in_turn v.agrees l e in
      either-IsInformed c.status_call.has_response _ c
        (on_status-IsInformed (get_response w c.status_call).0 c turn (l, e)) v

  ask_if-IsInformed :
      (test : Bool) (method : Bytes) (s : Session W w.Any S)
      → IsInformed s.client
      → IsInformed (ask_if w peer test method s).client
  unfolding ask
  ask_if-IsInformed true method s v = elim (Bool-cases s.client.status_call.busy) [
    | inl e ↦ rw e v
    | inr e ↦ rw e v
  ]
  ask_if-IsInformed false method s v = v

  poll_heard-IsInformed :
      (s : Session W w.Any S)
      → HasVersions W
      → IsInformed s.client
      → IsInformed (poll_heard w peer s).1.client
  poll_heard-IsInformed s law v =
      let ver = s.client.server_ver in
      elim (Bool-cases (peer.is_connected s.world)) [
        | inr c ↦ rw c v
        | inl c ↦ elim (Bool-cases (d.lt ver d.nought)) [
          | inl l ↦ rw (c, l) v
          | inr l ↦ elim (Bool-cases (d.eq ver d.nought)) [
            | inl e ↦
                rw (c, l, e) (ask_if-IsInformed _ _ _ (take_version-IsInformed s.client law v l e))
            | inr e ↦
                rw (c, l, e) (ask_if-IsInformed _ _ _ (take_status-IsInformed s.client law v l e))
          ]
        ]
      ]

  Step-IsInformed :
      {c c' : Client W w.Any} → HasVersions W → Step c c' → IsInformed c → IsInformed c'
  unfolding poll set_busy handler_connect
  Step-IsInformed law (polls {c} world) v =
      poll_heard-IsInformed (hear w peer (record { client = c; world = world })) law v
  Step-IsInformed law (commands s) v = v
  Step-IsInformed law connects v = v
  Step-IsInformed law (fails {c}) v = handler_disconnect-IsInformed c v
  Step-IsInformed law (hears {c} m) v = on_message-IsInformed m c v

  -- Whatever the network and the server do, and in whatever order the application polls and sends
  -- commands: the calls of `OnConnect`, `OnIncorrectVersion` and `OnDisconnect` come in turn, the first two
  -- only while the application knows of no server; and they agree with the client. As long as the application
  -- knows of no server, the client holds the version 0; while it knows of a server that is too old, a negative
  -- one, and while it is connected one that is neither; and unless it is connected, the state of the machine that the
  -- client shows is that there is no server. That -1 is negative, that 0 is equal to itself, and that a version
  -- that is not below the oldest accepted one is neither 0 nor negative, is what this rests on.
  pub Reach-IsInformed : {c : Client W w.Any} → HasVersions W → Reach c → IsInformed c
  unfolding new_client new_state
  Reach-IsInformed law (new cache busy beat) = record {
    knows = away;
    in_turn = refl;
    agrees = (refl, refl);
  }
  Reach-IsInformed law (later r st) = Step-IsInformed law st (Reach-IsInformed law r)
