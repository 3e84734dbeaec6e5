-- ===== src/Mach3/Settings.antt =====
-- The constructor of `MachServer`, `LoadSettings` and `StartLoop` (drivers/Mach3/MachServer.cpp).
use cncremote.Prelude.{
  ℕ, zero as nat_zero, suc, pos, Bool, true, false, codes, [], Option, none, some, Exec, ok,
  if◌then◌else◌,
}
use cncremote.Comms.Arithmetic.{Double}
use cncremote.Comms.Vectors.{at, Axes, fill, put}
use cncremote.Server.{Server}
use cncremote.Server.Logs.{log_error}
use cncremote.Mach3.{World, AxisData, Server3}

-- What tinyxml2 reads of the profile: its element `Preferences`, and in it, for the element `RefSpeed` of an axis,
-- its text as a `double`, `none` if it is none.
abbrev pub Profile : Type 0 → Type 0
Profile W = Option (ℕ → Option (Option W))

module _ {W : Type 0} ⦃d : Double W⦄ where
  abbrev with_speed : ℕ → W → Axes (AxisData W) → Axes (AxisData W)
  with_speed axis v axes =
      put axis (record (at axes.x axis axes) { home_speed = d.div v (d.literal (pos 100) 1) }) axes

  -- The loop over the axes, from `axis` on for a number of rounds.
  unfoldable pub read_speeds :
      (ℕ → Option (Option W)) → ℕ → ℕ → Axes (AxisData W) → Bool × Axes (AxisData W)
  read_speeds prefs nat_zero axis axes = (true, axes)
  read_speeds prefs (suc rounds) axis axes = elim (prefs axis) [
    | none ↦ (false, axes)
    | some none ↦ (false, axes)
    | some (some v) ↦ read_speeds prefs rounds (suc axis) (with_speed axis v axes)
  ]

  -- `LoadSettings`
  unfoldable pub load_settings : Profile W → Axes (AxisData W) → Bool × Axes (AxisData W)
  unfolding read_speeds
  load_settings none axes = (false, axes)
  load_settings (some prefs) axes = read_speeds prefs 6 0 axes

  abbrev pub blank : AxisData W
  blank = record {
    target_jog = pos 0;
    jogging = false;
    acc = pos 0;
    index = pos 0;
    home_speed = d.nought;
  }

  module _ {C : Type 0} where
    abbrev pub fresh : Axes (AxisData W) → World W C → Server3 W C
    fresh axes v = record {
      running = true;
      file_path = [];
      has_app = false;
      has_scripter = false;
      jog_axes = axes;
      world = v;
    }

    abbrev pub loaded : Bool × Axes (AxisData W) → Exec (Server W (Server3 W C)) (Unit {0})
    loaded (true, axes) s = (ok tt, record s { machine = fresh axes (s.machine.world) })
    loaded (false, axes) s =
        log_error (codes "Failed to load profile")
          (record s { machine = fresh axes (s.machine.world) })

    -- `MachServer::MachServer`, by the profile if it has a name.
    unfoldable pub construct : Option (Profile W) → Exec (Server W (Server3 W C)) (Unit {0})
    unfolding load_settings
    construct none = loaded (false, fill blank)
    construct (some profile) = loaded (load_settings profile (fill blank))

    -- `StartLoop`: whether the object is created, and whether it gives its script interface.
    unfoldable pub start_loop : Bool → Bool → Exec (Server W (Server3 W C)) (Unit {0})
    start_loop created scripted s =
        if created
        then (
          ok tt,
          record s { machine = record machine { has_app = true; has_scripter = scripted } },
        )
        else log_error (codes "OLE registry keys missing. Install registry keys.") s
      where
        open s use {machine}
