-- ===== src/Network/Commands.antt =====
-- The client's commands (src/cncclient.cpp) against the driver's members that they end in.
use cncremote.Prelude.{
  ℕ, ℤ, pos, ◌<◌, ◌≡◌, refl, ap, ◌∙◌, Bool, true, false, Bytes, List, Result, ok, raised, undefined,
  arith, Exec, leb,
}
use cncremote.Comms.{max_axes}
use cncremote.Comms.Arithmetic.{Double}
use cncremote.Comms.Vectors.{Axes, fill, put, bool_zero}
use cncremote.Comms.Wire.{Wire}
use cncremote.Comms.Messages.{pack_ints, as_ints-pack}
use cncremote.Server.{Server, Driver}
use cncremote.Server.Files.{Host}
use cncremote.Server.Handlers.{success}
use cncremote.Server.Protocol.{Query, Command, command_method}
use cncremote.Server.Dispatch.{command_params, command_meaning, reply, on_notify-command}
use cncremote.Client.Calls.{RemoteCall, clear_response}
use cncremote.Client.Session.{Peer}
use cncremote.Client.Commands.{
  Does, drives_on, jog_vel, feed_override, spindle_override, rapid_override, cycle_start,
  cycle_stop, feed_hold, block_delete, single_step, optional_stop, home, home_all, get_g_codes,
  get_m_codes, get_g_codes_on, get_m_codes_on,
}
use cncremote.Network.{Net, direct, take_notify}
use cncremote.Network.Calls.{Joined, with_server, invoke-ok, remote-ok}

module _ {W M : Type 0} ⦃d : Double W⦄ (w : Wire W) (host : Host) (drv : Driver W M)
    (local : Bool) where
  abbrev peer : Peer w.Any (Net W w.Any M)
  peer = direct w host drv local

  reply_state :
      (method : Bytes) (r : Result (Unit {0}) × Server W M) → (reply w host drv method r).1 ≡ r.1
  reply_state method (ok v, s) = refl
  reply_state method (raised e, s) = refl
  reply_state method (undefined f, s) = refl

  take_notify-command :
      (any : w.Any) (c : Command W) (n : Net W w.Any M)
      → take_notify w host drv
          (record { method = command_method c; params = command_params w host drv any c })
          n
        ≡ (command_meaning w host drv c n.server).1
  take_notify-command any c n =
      ap (λ r. r.1) (on_notify-command w host drv any 0 c n.server)
      ∙ reply_state (command_method c) _

  -- The command returns, and the server is left as the driver's member leaves it.
  abbrev pub CarriesOut :
      Does w peer (Unit {0}) → Exec (Server W M) (Unit {0}) → Joined w host drv local → Type 0
  CarriesOut command member s =
      ((command s).0 ≡ ok tt) × ((command s).1.world.server ≡ (member s.world.server).1)

  -- Over a network that delivers, each command carries out the driver's member of its own name with its
  -- own arguments, whatever that member does or throws: the switches, the overrides, the jog, the start
  -- of a cycle, and homing, which asks for the one axis or for all six.
  pub commands-CarriesOut :
      (s : Joined w host drv local) (state : Bool) (percent : W) (velocities : Axes W) (axis : ℕ)
      → axis < max_axes
      → CarriesOut (drives_on w peer state) (drv.drives_on state) s
        × CarriesOut (feed_hold w peer state) (drv.feed_hold state) s
        × CarriesOut (block_delete w peer state) (drv.block_delete state) s
        × CarriesOut (single_step w peer state) (drv.single_step state) s
        × CarriesOut (optional_stop w peer state) (drv.optional_stop state) s
        × CarriesOut (feed_override w peer percent) (drv.feed_override percent) s
        × CarriesOut (spindle_override w peer percent) (drv.spindle_override percent) s
        × CarriesOut (rapid_override w peer percent) (drv.rapid_override percent) s
        × CarriesOut (jog_vel w peer velocities) (drv.jog_vel velocities) s
        × CarriesOut (cycle_start w peer) drv.cycle_start s
        × CarriesOut (home w peer axis) (drv.home (put axis true bool_zero)) s
        × CarriesOut (home_all w peer) (drv.home (fill true)) s
  unfolding drives_on feed_hold block_delete single_step optional_stop feed_override
      spindle_override rapid_override jog_vel cycle_start home home_all direct
  commands-CarriesOut s state percent velocities axis valid =
      let by : (c : Command W) → _ = λ c. take_notify-command (w.bool.pack true) c s.world in
      let known : leb max_axes axis ≡ false = ground arith in
      (
        (refl, by (Command.drives_on state)),
        (refl, by (Command.feed_hold state)),
        (refl, by (Command.block_delete state)),
        (refl, by (Command.single_step state)),
        (refl, by (Command.optional_stop state)),
        (refl, by (Command.feed_override percent)),
        (refl, by (Command.spindle_override percent)),
        (refl, by (Command.rapid_override percent)),
        (refl, by (Command.jog_vel velocities)),
        (refl, by Command.cycle_start),
        rw known (refl, by (Command.home (put axis true bool_zero))),
        (refl, by (Command.home (fill true))),
      )

  -- Over a network that delivers, the client's `CycleStop` does not stop the cycle: it carries out
  -- the driver's `CycleStart`.
  cycle_stop-CarriesOut :
      (s : Joined w host drv local) → CarriesOut (cycle_stop w peer) drv.cycle_start s
  unfolding cycle_stop direct
  cycle_stop-CarriesOut s =
      (refl, take_notify-command (w.bool.pack false) Command.cycle_start s.world)

  -- Over a network that delivers, the client's lists of G codes and of M codes are those that the
  -- driver returns; but `GetMCodes` on an idle call object of the caller's leaves the G codes there,
  -- as `GetGCodes` does.
  get_m_codes_on-get_g_codes :
      (c : RemoteCall w.Any) (s : Joined w host drv local) (gs ms : List ℤ)
      (after_g after_m : Server W M)
      → c.busy ≡ false
      → drv.get_g_codes s.world.server ≡ (ok gs, after_g)
      → drv.get_m_codes s.world.server ≡ (ok ms, after_m)
      → (get_g_codes w peer s ≡ (ok gs, with_server w host drv local after_g s))
        × (get_m_codes w peer s ≡ (ok ms, with_server w host drv local after_m s))
        × ((get_g_codes_on w peer (c, s)).0 ≡ ok (success w 0 (pack_ints w gs)))
        × ((get_m_codes_on w peer (c, s)).0 ≡ ok (success w 0 (pack_ints w gs)))
  unfolding get_g_codes get_m_codes get_g_codes_on get_m_codes_on clear_response
  get_m_codes_on-get_g_codes c s gs ms after_g after_m idle g_ok m_ok =
      let any = w.int.pack (pos 0) in
      let on : (b : RemoteCall w.Any) → b.busy ≡ false → _ = λ b free.
        invoke-ok w host drv local any Query.get_g_codes (pack_ints w gs) b s after_g free
          (rw g_ok refl) in
      let g =
        remote-ok w host drv local any Query.get_g_codes (pack_ints w gs) s after_g
          (rw g_ok refl) in
      let m =
        remote-ok w host drv local any Query.get_m_codes (pack_ints w ms) s after_m
          (rw m_ok refl) in
      (
        rw (g, as_ints-pack w gs) refl,
        rw (m, as_ints-pack w ms) refl,
        ap (λ r. r.0) (on (clear_response c) idle),
        ap (λ r. r.0) (on (clear_response c) idle),
      )
