-- ===== src/Entries/Eding.antt =====
-- The library that a client loads for Eding CNC (drivers/EdingCNC402/main.cpp).
pub mod Polls
pub mod Laws
use cncremote.Prelude.{
  ℕ, ◌==◌, Bool, true, false, Bytes, List, [], ◌∷◌, Option, none, some, Exec, Result, ok, raised,
  undefined, null_pointer, pure, crash, continue, if◌then◌else◌,
}
use cncremote.Comms.Arithmetic.{Double}
use cncremote.Server.{Server}
use cncremote.EdingCnc.{Library, Eding}
use cncremote.EdingCnc.Registry.{Windows, load_dll}
use cncremote.EdingCnc.Connection.{poll as poll_server}
use cncremote.Client.Polling.{ComError, err_ok}
use cncremote.Client.Plugins.{
  Call, opens, closes, asks, starts, stops, polls, quits, logs, connects, History,
}
use cncremote.Entries.{Listener, default_port, bind}

abbrev is_ok : ComError → Bool
is_ok err_ok = true
is_ok _ = false

-- A server with the object that listens for it.
pub record Running (W C X : Type 0) : Type 0 where
  pub server : Server W (Eding W C)
  pub listener : X

-- `g_cnc`, unless it is NULL.
abbrev pub Global : Type 0 → Type 0 → Type 0 → Type 0
Global W C X = Option (Running W C X)

module _ {W C X : Type 0} (lib : Library W C) (l : Listener X) (fresh : Server W (Eding W C)) where
  -- `if(!g_cnc) g_cnc = new EdingCncServer;`, where `fresh` is what the constructor makes.
  abbrev pub made : Global W C X → Running W C X
  made none = record { server = fresh; listener = l.idle }
  made (some r) = r

  abbrev bound : Running W C X → Bool × Global W C X
  bound r =
      let (e, x) = bind l default_port r.listener in (is_ok e, some (record r { listener = x }))

  -- `Start`
  unfoldable pub start : Global W C X → Bool × Global W C X
  unfolding bind
  start g = bound (made g)

  -- `Stop`
  abbrev pub stop : Global W C X → Global W C X
  stop g = g

  abbrev asked : Windows → Running W C X → Bool × Global W C X
  asked w r =
      let (b, e) = load_dll w r.server.machine in
      (b, some (record r { server = record server { machine = e } }))
    where
      open r use {server}

  -- `ControlExists`
  unfoldable pub control_exists : Windows → Global W C X → Bool × Global W C X
  control_exists w g = asked w (made g)

  -- `Quit`
  abbrev pub quit : Global W C X → Global W C X
  quit g = none

  abbrev pub polled :
      Running W C X → Result (Unit {0}) × Server W (Eding W C) → Result (Unit {0}) × Global W C X
  polled r (res, s) = (res, some (record r { server = s }))

  -- `Poll`, which does not test whether the server is there.
  unfoldable pub poll : Option (List Bytes) → Windows → Exec (Global W C X) (Unit {0})
  poll processes w none = (undefined null_pointer, none)
  poll processes w (some r) = polled r (poll_server lib processes w r.server)
