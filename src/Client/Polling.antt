-- ===== src/Client/Polling.antt =====
-- `Client::Poll` of src/cncclient.cpp: the version check, then the status calls.
pub mod Busy
pub mod Refusals
pub mod Views
pub mod Life
use cncremote.Prelude.{
  ℕ, ℤ, pos, ◌+ℤ◌, leb_ℤ, Bool, true, false, not, ◌&&◌, ◌||◌, Bytes, codes, List, [], ◌∷◌, ◌++◌,
  Option, none, some, Exec, Result, ok, raised, undefined, pure, continue, ◌>>=◌, ◌>>◌,
  if◌then◌else◌, negsuc,
}
use cncremote.Comms.{State}
use cncremote.Comms.Arithmetic.{Double}
use cncremote.Comms.Wire.{Wire}
use cncremote.Comms.States.{unpack_state}
use cncremote.Server.Handlers.{Response}
use cncremote.Client.Calls.{
  RemoteCall, Delivery, on_events, call_async, clear_response, get_response,
}
use cncremote.Client.Session.{Client, Notice, on_connect, on_incorrect_version, Peer, Session}

pub data ComError : Type 0 where
  err_ok err_connect err_failed err_nodata err_thread err_running err_nothread err_wrongver :
      ComError

-- CNCREMOTE_MIN_PROTOCOL_VERSION
abbrev pub min_version : {W : Type 0} ⦃d : Double W⦄ → W
min_version ⦃d⦄ = d.literal (pos 3) 1

module _ {W : Type 0} ⦃d : Double W⦄ (w : Wire W) where
  abbrev as_version : Option W → Client W w.Any → Client W w.Any
  as_version none c = c
  as_version (some ver) c =
      if d.lt ver min_version
      then record c {
        notices = c.notices ++ on_incorrect_version ver ∷ [];
        server_ver = d.literal (negsuc 0) 1;
        status_call = clear_response c.status_call;
      }
      else record c {
        notices = c.notices ++ on_connect ∷ [];
        server_ver = ver;
        status_call = clear_response c.status_call;
      }

  abbrev pub on_version : Result (Response w.Any) → Client W w.Any → Client W w.Any
  on_version (ok r) c = as_version (w.real.unpack r.result) c
  on_version _ c = c

  -- The response to "Version", if it is there; exceptions are ignored.
  unfoldable pub take_version : Client W w.Any → Client W w.Any
  unfolding get_response clear_response
  take_version c =
      if c.status_call.has_response then on_version (get_response w c.status_call).0 c else c

  abbrev as_status : Option (State W) → Client W w.Any → Client W w.Any
  as_status none c = c
  as_status (some st) c = record c {
    state = st;
    status_cache = if leb_ℤ c.busy_heart c.heart_beat then pos 0 else c.status_cache;
    heart_beat = c.heart_beat +ℤ pos 1;
  }

  abbrev pub on_status : Result (Response w.Any) → Client W w.Any → Client W w.Any
  on_status (ok r) c = as_status (unpack_state w r.result) c
  on_status _ c = c

  -- The response to "GetState", if it is there.
  unfoldable pub take_status : Client W w.Any → Client W w.Any
  unfolding get_response ◌+ℤ◌
  take_status c =
      if c.status_call.has_response then on_status (get_response w c.status_call).0 c else c

  module _ {S : Type 0} (peer : Peer w.Any S) where
    abbrev ask_with : Option Bytes × S → Session W w.Any S → Session W w.Any S
    ask_with (refused, world) s = record s {
      client = record client { status_call = (call_async refused client.status_call).1 };
      world = world;
    }
      where
        open s use {client}

    -- `m_StatusCall.CallAsync`, whose exceptions are ignored: nothing is sent while it is busy.
    unfoldable pub ask : Bytes → Session W w.Any S → Session W w.Any S
    unfolding call_async
    ask method s =
        if s.client.status_call.busy
        then s
        else ask_with (peer.request_async method (w.int.pack (pos 0)) s.world) s

    abbrev pub ask_if : Bool → Bytes → Session W w.Any S → Session W w.Any S
    ask_if test method s = if test then ask method s else s

    abbrev settle_version : Session W w.Any S → Session W w.Any S
    settle_version s =
        let c = take_version s.client in
        ask_if (not c.status_call.busy && d.eq c.server_ver d.nought) (codes "Version")
          (record s { client = c })

    abbrev settle_status : Session W w.Any S → Session W w.Any S
    settle_status s =
        let c = take_status s.client in
        ask_if (not c.status_call.busy) (codes "GetState") (record s { client = c })

    -- The callbacks made since the last look come first.
    abbrev pub hear : Session W w.Any S → Session W w.Any S
    hear s =
        let (events, world) = peer.arrived s.world in
        record s {
          client = record client { status_call = on_events events client.status_call };
          world = world;
        }
      where
        open s use {client}

    abbrev pub poll_heard : Session W w.Any S → ComError × Session W w.Any S
    poll_heard s =
        if not (peer.is_connected s.world)
        then (err_connect, s)
        else if d.lt s.client.server_ver d.nought || d.eq s.client.server_ver d.nought
        then (if d.lt s.client.server_ver d.nought
            then (err_wrongver, s)
            else (err_ok, settle_version s))
        else (err_ok, settle_status s)

    unfoldable pub poll : Session W w.Any S → ComError × Session W w.Any S
    poll s = poll_heard (hear s)
