-- ===== src/Client/Commands.antt =====
-- The members of `Client` that command the machine (src/cncclient.cpp), in a build without
-- HANDLE_CNCREMOTE_EXCEPTIONS: exceptions go to the caller.
use cncremote.Prelude.{
  ℕ, ℤ, pos, ◌+◌, ◌%◌, ◌^◌, leb, ltb, Bool, true, false, Bytes, codes, List, [], Option, none, some,
  Exec, ok, raised, pure, ◌>>=◌, ◌>>◌, if◌then◌else◌,
}
use cncremote.Comms.{ControlState, mc_moving, mc_mdi, mc_running, max_axes}
use cncremote.Comms.Arithmetic.{Double}
use cncremote.Comms.Vectors.{Axes, fill, put, bool_zero}
use cncremote.Comms.Wire.{Codec, Wire}
use cncremote.Comms.Messages.{axes, bool_axes, as_ints}
use cncremote.Server.Handlers.{Response}
use cncremote.Client.Calls.{RemoteCall, clear_response}
use cncremote.Client.Session.{Peer, Session, set_busy, remote, invoke, send_notify}

module _ {W S : Type 0} ⦃d : Double W⦄ (w : Wire W) (peer : Peer w.Any S) where
  abbrev pub Does : Type 0 → Type 0
  Does A = Exec (Session W w.Any S) A

  -- `notify.Send(m_socket)` whose result is dropped.
  abbrev pub tell : Bytes → w.Any → Does (Unit {0})
  tell method params = do send_notify w peer method params; pure tt

  abbrev busy_if : ControlState → Bool → Does (Unit {0})
  busy_if state sent s = (ok tt, if sent then record s { client = set_busy state s.client } else s)

  -- The same with `SetBusy` if it was sent.
  abbrev tell_busy : Bytes → w.Any → ControlState → Does (Unit {0})
  tell_busy method params state = do sent ← send_notify w peer method params; busy_if state sent

  -- `result.as<A>()`
  abbrev pub result_as : {A : Type 0} → Codec w.Any A → Response w.Any → Does A
  result_as c r s = elim (c.unpack r.result) [
    | none ↦ (raised (codes "std::bad_cast"), s)
    | some a ↦ (ok a, s)
  ]

  unfoldable pub drives_on : Bool → Does (Unit {0})
  unfolding send_notify
  drives_on state = tell (codes "DrivesOn") (w.bool.pack state)

  unfoldable pub jog_vel : Axes W → Does (Unit {0})
  unfolding send_notify set_busy
  jog_vel velocities = tell_busy (codes "JogVel") ((axes w).pack velocities) mc_moving

  unfoldable pub feed_override : W → Does (Unit {0})
  unfolding send_notify
  feed_override percent = tell (codes "FeedOverride") (w.real.pack percent)

  unfoldable pub spindle_override : W → Does (Unit {0})
  unfolding send_notify
  spindle_override percent = tell (codes "SpindleOverride") (w.real.pack percent)

  unfoldable pub rapid_override : W → Does (Unit {0})
  unfolding send_notify
  rapid_override percent = tell (codes "RapidOverride") (w.real.pack percent)

  unfoldable pub cycle_start : Does (Unit {0})
  unfolding send_notify set_busy
  cycle_start = tell_busy (codes "CycleStart") (w.bool.pack true) mc_running

  unfoldable pub cycle_stop : Does (Unit {0})
  unfolding send_notify
  cycle_stop = tell (codes "CycleStart") (w.bool.pack false)

  unfoldable pub feed_hold : Bool → Does (Unit {0})
  unfolding send_notify
  feed_hold state = tell (codes "FeedHold") (w.bool.pack state)

  unfoldable pub block_delete : Bool → Does (Unit {0})
  unfolding send_notify
  block_delete state = tell (codes "BlockDelete") (w.bool.pack state)

  unfoldable pub single_step : Bool → Does (Unit {0})
  unfolding send_notify
  single_step state = tell (codes "SingleStep") (w.bool.pack state)

  unfoldable pub optional_stop : Bool → Does (Unit {0})
  unfolding send_notify
  optional_stop state = tell (codes "OptionalStop") (w.bool.pack state)

  -- One axis; nothing is sent for an index that is none.
  unfoldable pub home : ℕ → Does (Unit {0})
  unfolding send_notify set_busy bool_zero
  home axis =
      if leb max_axes axis
      then pure tt
      else tell_busy (codes "Home") ((bool_axes w).pack (put axis true bool_zero)) mc_running

  unfoldable pub home_all : Does (Unit {0})
  unfolding send_notify set_busy
  home_all = tell_busy (codes "Home") ((bool_axes w).pack (fill true)) mc_running

  abbrev call_for : {A : Type 0} → Bytes → w.Any → Codec w.Any A → Does A
  call_for method params c = do r ← remote w peer method params; result_as c r

  abbrev busy_now : ControlState → Does (Unit {0})
  busy_now state s = (ok tt, record s { client = set_busy state s.client })

  unfoldable pub mdi : Bytes → Does Bool
  unfolding remote set_busy
  mdi line = do
    r ← remote w peer (codes "Mdi") (w.text.pack line)
    busy_now mc_mdi
    result_as w.bool r

  -- The functions that take no argument are called with 0.
  unfoldable pub close_file : Does Bool
  unfolding remote
  close_file = call_for (codes "CloseFile") (w.int.pack (pos 0)) w.bool

  abbrev codes_of : Option (List ℤ) → Does (List ℤ)
  codes_of none s = (raised (codes "std::bad_cast"), s)
  codes_of (some ns) s = (ok ns, s)

  unfoldable pub get_g_codes : Does (List ℤ)
  unfolding remote
  get_g_codes = do
    r ← remote w peer (codes "GetGCodes") (w.int.pack (pos 0))
    codes_of (as_ints w r.result)

  unfoldable pub get_m_codes : Does (List ℤ)
  unfolding remote
  get_m_codes = do
    r ← remote w peer (codes "GetMCodes") (w.int.pack (pos 0))
    codes_of (as_ints w r.result)

  -- The versions on a `RemoteCall` of the caller's, which keeps the response.
  abbrev OnCall : Type 0 → Type 0
  OnCall A = Exec (RemoteCall w.Any × Session W w.Any S) A

  unfoldable pub get_g_codes_on : OnCall (Response w.Any)
  unfolding invoke clear_response
  get_g_codes_on (c, s) =
      invoke w peer (codes "GetGCodes") (w.int.pack (pos 0)) (clear_response c, s)

  unfoldable pub get_m_codes_on : OnCall (Response w.Any)
  unfolding invoke clear_response
  get_m_codes_on (c, s) =
      invoke w peer (codes "GetGCodes") (w.int.pack (pos 0)) (clear_response c, s)

  -- The round trip in ms, with the microseconds that it took.
  unfoldable pub ping : W → Does W
  unfolding remote
  ping elapsed = do
    remote w peer (codes "Version") (w.int.pack (pos 0))
    pure (d.div elapsed (d.literal (pos 1000) 1))

  abbrev pub err_indexed : Bytes → Does Bytes
  err_indexed text s =
      (ok text, record s { client = record client { err_index = (client.err_index + 1) % 2 ^ 32 } })
    where
      open s use {client}

  abbrev msg_indexed : Bytes → Does Bytes
  msg_indexed text s =
      (ok text, record s { client = record client { msg_index = (client.msg_index + 1) % 2 ^ 32 } })
    where
      open s use {client}

  abbrev pub has_errors : Session W w.Any S → Bool
  has_errors s = ltb s.client.err_index s.client.state.error_count

  abbrev pub has_messages : Session W w.Any S → Bool
  has_messages s = ltb s.client.msg_index s.client.state.message_count

  -- The next error, the empty text if none is pending.
  unfoldable pub get_next_error : Does Bytes
  unfolding remote
  get_next_error s =
      if leb s.client.state.error_count s.client.err_index
      then (ok [], s)
      else (do
        text ← call_for (codes "GetError") (w.nat.pack s.client.err_index) w.text
        err_indexed text)
          s

  unfoldable pub get_next_message : Does Bytes
  unfolding remote
  get_next_message s =
      if leb s.client.state.message_count s.client.msg_index
      then (ok [], s)
      else (do
        text ← call_for (codes "GetMessage") (w.nat.pack s.client.msg_index) w.text
        msg_indexed text)
          s
