-- ===== src/Client/Session.antt =====
-- The members of `Client` and `Client::Handler` (src/cncclient.cpp), and the socket they talk to.
pub mod Reconnects
use cncremote.Prelude.{
  ℕ, suc, ℤ, pos, ◌+ℤ◌, ◌+◌, ltb_ℤ, leb_ℤ, ltb, ◌==◌, Bool, true, false, Bytes, codes, List, [],
  ◌∷◌, ◌++◌, Option, none, some, Exec, Result, ok, raised, undefined, pure, continue, ◌>>=◌, ◌>>◌,
  if◌then◌else◌,
}
use cncremote.Comms.{ExceptionData, State, ControlState, mc_no_server, rank, new_state}
use cncremote.Comms.Arithmetic.{Double}
use cncremote.Comms.Wire.{Wire}
use cncremote.Comms.Messages.{unpack_exception}
use cncremote.Server.Handlers.{Request, Response, Notify}
use cncremote.Client.Calls.{RemoteCall, Event, Delivery, new_call, call}

-- The calls of the virtual members that tell the application of the connection.
pub data Notice (W : Type 0) : Type 0 where
  on_connect : Notice W
  on_disconnect : Notice W
  on_incorrect_version : W → Notice W
  on_remote_exception : ExceptionData → Notice W

pub record Client (W Any : Type 0) : Type 0 where
  pub status_cache : ℤ
  pub busy_heart : ℤ
  pub heart_beat : ℤ
  pub server_ver : W
  pub err_index : ℕ
  pub msg_index : ℕ
  pub state : State W
  pub status_call : RemoteCall Any
  pub retries : ℕ
  pub notices : List (Notice W)

-- The socket and what is behind it, in a world `S`: what comes of a request that is waited for; of one
-- that is not, whose callbacks come by `arrived`, those made since the last look; and of a notification,
-- true for LNR_OK.
pub record Peer (Any S : Type 0) : Type 0 where
  pub request : Bytes → Any → S → Delivery Any × S
  pub request_async : Bytes → Any → S → Option Bytes × S
  pub notify : Notify Any → S → Bool × S
  pub arrived : S → List (Event Any) × S
  pub is_connected : S → Bool
  pub is_local : S → Bool

pub record Session (W Any S : Type 0) : Type 0 where
  pub client : Client W Any
  pub world : S

-- `m_timeout`, in ms.
abbrev pub timeout : ℕ
timeout = 500

module _ {W Any : Type 0} ⦃d : Double W⦄ where
  -- The constructor leaves `m_statusCache`, `m_busyHeart` and `m_heartBeat` as they are in memory.
  unfoldable pub new_client : ℤ → ℤ → ℤ → Client W Any
  unfolding new_state new_call
  new_client cache busy beat = record {
    status_cache = cache;
    busy_heart = busy;
    heart_beat = beat;
    server_ver = d.nought;
    err_index = 0;
    msg_index = 0;
    state = new_state;
    status_call = new_call;
    retries = 1;
    notices = [];
  }

  -- `OnDisConnect2`
  unfoldable pub on_disconnect2 : Client W Any → Client W Any
  on_disconnect2 c = record c {
    server_ver = d.nought;
    state = record state { machine_state = mc_no_server };
    notices = c.notices ++ on_disconnect ∷ [];
  }
    where
      open c use {state}

  -- `Handler::OnConnect`
  unfoldable pub handler_connect : Client W Any → Client W Any
  handler_connect c = record c { retries = 0 }

  abbrev told : Client W Any → Client W Any
  told c = if c.retries == 0 then on_disconnect2 c else c

  -- `Handler::OnDisconnect`, with the time in ms after which it connects again.
  unfoldable pub handler_disconnect : Client W Any → ℕ × Client W Any
  unfolding on_disconnect2
  handler_disconnect c =
      if ltb c.retries 10
      then (100, record (told c) { retries = c.retries + 1 })
      else (1000, told c)

module _ {W Any : Type 0} where
  -- `SetBusy`
  unfoldable pub set_busy : ControlState → Client W Any → Client W Any
  unfolding ◌+ℤ◌
  set_busy s c = record c {
    status_cache = if ltb_ℤ c.status_cache (pos (rank s)) then pos (rank s) else c.status_cache;
    busy_heart = c.heart_beat +ℤ pos 1;
  }

  -- `IsBusy`, with the socket's state.
  unfoldable pub is_busy : Bool → ℤ → Client W Any → Bool
  is_busy connected level c =
      if connected
      then (if ltb_ℤ (pos (rank c.state.machine_state)) c.status_cache
          then ltb_ℤ level c.status_cache
          else ltb_ℤ level (pos (rank c.state.machine_state)))
      else true

module _ {W S : Type 0} (w : Wire W) (peer : Peer w.Any S) where
  -- `Call` on a `RemoteCall` of the caller's.
  unfoldable pub invoke :
      Bytes → w.Any → Exec (RemoteCall w.Any × Session W w.Any S) (Response w.Any)
  unfolding call
  invoke method params (c, s) =
      let (delivery, world) = peer.request method params s.world in
      let (r, c') = call w timeout delivery c in (r, (c', record s { world = world }))

  abbrev forget_call :
      {A : Type 0}
      → Result A × (RemoteCall w.Any × Session W w.Any S)
      → Result A × Session W w.Any S
  forget_call (r, (c, s)) = (r, s)

  -- `Call` on a new `RemoteCall`.
  unfoldable pub remote : Bytes → w.Any → Exec (Session W w.Any S) (Response w.Any)
  unfolding invoke new_call
  remote method params s = forget_call (invoke method params (new_call, s))

  -- `notify.Send(m_socket)`: true for LNR_OK.
  unfoldable pub send_notify : Bytes → w.Any → Exec (Session W w.Any S) Bool
  send_notify method params s =
      let (sent, world) = peer.notify (record { method = method; params = params }) s.world in
      (ok sent, record s { world = world })

-- A message of the library.
pub data Message (Any : Type 0) : Type 0 where
  request : Request Any → Message Any
  response : Response Any → Message Any
  notify : Notify Any → Message Any

module _ {W : Type 0} (w : Wire W) where
  abbrev on_exception : Option ExceptionData → Client W w.Any → Client W w.Any
  on_exception none c = c
  on_exception (some e) c = record c { notices = c.notices ++ on_remote_exception e ∷ [] }

  -- `Handler::OnMessage`, with the response that it sends.
  unfoldable pub on_message :
      Message w.Any → Client W w.Any → Option (Response w.Any) × Client W w.Any
  unfolding unpack_exception
  on_message (request r) c = (
    some (record {
      msgid = r.msgid;
      result = w.nil;
      error = w.text.pack (codes "This client does not handle request");
    }),
    c,
  )
  on_message (response r) c = (none, c)
  on_message (notify n) c = (none, on_exception (unpack_exception w n.params) c)
