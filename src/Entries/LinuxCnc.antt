-- ===== src/Entries/LinuxCnc.antt =====
-- The server's program for LinuxCNC (drivers/linuxcnc/server/main.cpp): `main` from the call of `Bind` on, and the
-- handler of SIGINT.
pub mod Laws
use cncremote.Prelude.{
  ℕ, zero, suc, ℤ, Bool, true, false, Option, none, some, Result, ok, raised, undefined,
}
use cncremote.Comms.Arithmetic.{Double}
use cncremote.Server.{Server}
use cncremote.Client.Polling.{ComError, err_ok}
use cncremote.LinuxCnc.{Controller, Lcnc}
use cncremote.LinuxCnc.Reports.{poll}
use cncremote.LinuxCnc.Connecting.{
  Nml, Joining, drop_channels, Outcome, returned, exited, connect_lcnc,
}
use cncremote.Entries.{Listener, bind}

-- `machine`, with its other two channels as they were when `ConnectLCnc` or `DisconnectNml` last saw them.
pub record Machine (W C : Type 0) : Type 0 where
  pub has_command : Bool
  pub has_error : Bool
  pub server : Server W (Lcnc W C)

-- What goes on beside the loop: the time of a call of `ConnectLCnc`, and what the requests of clients do to the server
-- before a poll; each by its number in the run.
pub record Beside (W C : Type 0) : Type 0 where
  pub clock : ℕ → ℤ
  pub serves : ℕ → ℕ → Server W (Lcnc W C) → Server W (Lcnc W C)

-- How a pass of the outer loop ends, if it does within the attempts and the polls that are followed.
pub data Pass (W C : Type 0) : Type 0 where
  again : Machine W C → Pass W C
  stopped : Pass W C

module _ {W C : Type 0} ⦃d : Double W⦄ (ctl : Controller W C) (nml : Nml W C) (b : Beside W C) where
  abbrev pub joining : Machine W C → Joining W C
  joining v = record {
    has_command = v.has_command;
    has_error = v.has_error;
    lcnc = v.server.machine;
  }

  abbrev pub with_joining : Joining W C → Machine W C → Machine W C
  with_joining j v = record {
    has_command = j.has_command;
    has_error = j.has_error;
    server = record (v.server) { machine = j.lcnc };
  }

  -- `machine.DisconnectNml()`
  abbrev pub disconnect : Machine W C → Machine W C
  disconnect v = with_joining (drop_channels ctl nml (joining v)) v

  -- `sigQuit` before it ends the process.
  abbrev pub sig_quit : Machine W C → Machine W C
  sig_quit v = disconnect v

  abbrev pub served : ℕ → ℕ → Server W (Lcnc W C) → Server W (Lcnc W C)
  served pass i s = b.serves pass i s

  abbrev pub polled : ℕ → ℕ → Server W (Lcnc W C) → Result Bool × Server W (Lcnc W C)
  polled pass i s = poll ctl (served pass i s)

  abbrev pub unless_ended :
      Result Bool × Server W (Lcnc W C)
      → (Server W (Lcnc W C) → Option (Server W (Lcnc W C)))
      → Option (Server W (Lcnc W C))
  unless_ended (ok true, s) next = next s
  unless_ended (ok false, s) next = some s
  unless_ended (raised e, s) next = none
  unless_ended (undefined f, s) next = none

  -- The inner loop, which polls until `Poll` returns false, from the poll `i` on; `none` if it goes on for longer
  -- than a number of polls.
  unfoldable pub poll_while : ℕ → ℕ → ℕ → Server W (Lcnc W C) → Option (Server W (Lcnc W C))
  unfolding poll
  poll_while zero pass i s = none
  poll_while (suc fuel) pass i s = unless_ended (polled pass i s) (poll_while fuel pass (suc i))

  abbrev pub left : Joining W C → Option (Server W (Lcnc W C)) → Option (Pass W C)
  left j none = none
  left j (some s) = some (
      again
        (disconnect (record { has_command = j.has_command; has_error = j.has_error; server = s })))

  abbrev pub polling : ℕ → ℕ → Machine W C → Option (Outcome ctl nml) → Option (Pass W C)
  polling fuel pass v none = none
  polling fuel pass v (some exited) = some stopped
  polling fuel pass v (some (returned joined j)) =
      left j (poll_while fuel pass 0 (record (v.server) { machine = j.lcnc }))

  -- A pass of the outer loop: `ConnectLCnc`, whose result is not looked at, for a number of attempts, and the polls.
  unfoldable pub pass_once : ℕ → ℕ → ℕ → Machine W C → Option (Pass W C)
  unfolding connect_lcnc poll_while
  pass_once attempts fuel pass v =
      polling fuel pass v (connect_lcnc ctl nml attempts (b.clock pass) (joining v))

  abbrev pub next_pass : Option (Pass W C) → (Machine W C → Option (Pass W C)) → Option (Pass W C)
  next_pass none next = none
  next_pass (some stopped) next = some stopped
  next_pass (some (again v)) next = next v

  -- The outer loop, for a number of passes, from the pass `pass` on.
  unfoldable pub run : ℕ → ℕ → ℕ → ℕ → Machine W C → Option (Pass W C)
  unfolding pass_once
  run attempts fuel zero pass v = some (again v)
  run attempts fuel (suc passes) pass v =
      next_pass (pass_once attempts fuel pass v) (run attempts fuel passes (suc pass))

  -- What `main` returns: -1 if the port cannot be had, or what the loop does, which never returns.
  pub data Exit : Type 0 where
    minus_one : Exit
    loops : Option (Pass W C) → Exit

  module _ {X : Type 0} (l : Listener X) where
    abbrev after_bind : ComError × X → Option (Pass W C) → Exit
    after_bind (err_ok, x) r = loops r
    after_bind (_, x) r = minus_one

    -- `main` from the call of `Bind` on.
    unfoldable pub main : ℕ → ℕ → ℕ → ℕ → Machine W C → Exit
    unfolding bind run
    main port attempts fuel passes v =
        after_bind (bind l port l.idle) (run attempts fuel passes 0 v)
