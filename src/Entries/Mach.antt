-- ===== src/Entries/Mach.antt =====
-- What Mach3 calls (drivers/Mach3/Plugin.cpp, the code that is compiled): `piPostInitControl`, `piStopPlug` and
-- `piUpdate`.
pub mod Laws
use cncremote.Prelude.{
  ℕ, Option, Bool, true, false, Exec, Result, ok, raised, undefined, freed_object, continue,
}
use cncremote.Comms.Arithmetic.{Double}
use cncremote.Server.{Server}
use cncremote.Mach3.{Mach, Server3}
use cncremote.Mach3.Settings.{construct, start_loop, Profile}
use cncremote.Mach3.Polling.{poll}
use cncremote.Client.Polling.{ComError, err_ok}
use cncremote.Entries.{Listener, default_port, bind}

-- The global variable `server`: NULL, a server with its listener, or what was deleted.
pub data Pointer (W C X : Type 0) : Type 0 where
  null : Pointer W C X
  points : Server W (Server3 W C) → X → Pointer W C X
  dangling : Pointer W C X

-- What a new server finds: the memory and the files of the process, the profile by its name, and whether the object
-- of Mach3 can be created and gives its script interface.
pub record Start (W C : Type 0) : Type 0 where
  pub blank : Server W (Server3 W C)
  pub profile : Option (Profile W)
  pub created : Bool
  pub scripted : Bool

module _ {W C X : Type 0} ⦃d : Double W⦄ (m : Mach W C) (l : Listener X) where
  abbrev pub looped : Start W C → Server W (Server3 W C) → X → Result (Unit {0}) × Pointer W C X
  looped t s x = started (start_loop t.created t.scripted s)
    where
      started : Result (Unit {0}) × Server W (Server3 W C) → Result (Unit {0}) × Pointer W C X
      started (r, s') = (r, points s' x)

  -- The server is deleted again if it cannot be bound.
  abbrev pub bound :
      Start W C → Server W (Server3 W C) → ComError × X → Result (Unit {0}) × Pointer W C X
  bound t s (err_ok, x) = looped t s x
  bound t s (_, x) = (ok tt, null)

  abbrev pub constructed :
      Start W C → Result (Unit {0}) × Server W (Server3 W C) → Result (Unit {0}) × Pointer W C X
  constructed t (ok tt, s) = bound t s (bind l default_port l.idle)
  constructed t (raised e, s) = (raised e, null)
  constructed t (undefined f, s) = (undefined f, null)

  -- `piPostInitControl`; a server that is there already is lost.
  unfoldable pub post_init_control : Start W C → Exec (Pointer W C X) (Unit {0})
  unfolding bind construct start_loop
  post_init_control t p = constructed t (construct t.profile t.blank)

  -- `piStopPlug`, which leaves the pointer as it is; the server is no longer `running` in its last moment.
  unfoldable pub stop_plug : Exec (Pointer W C X) (Unit {0})
  stop_plug null = (ok tt, null)
  stop_plug (points s x) = (ok tt, dangling)
  stop_plug dangling = (undefined freed_object, dangling)

  -- `piUpdate`
  unfoldable pub update : Exec (Pointer W C X) (Unit {0})
  unfolding poll
  update null = (ok tt, null)
  update (points s x) = (ok tt, points (poll m s) x)
  update dangling = (undefined freed_object, dangling)
