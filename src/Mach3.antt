-- ===== src/Mach3.antt =====
-- The server for Mach3 (drivers/Mach3/MachServer.cpp and MachServer.h). What Mach3 keeps in shared memory is
-- a record; what it does when it is called is a parameter.
pub mod Polling
pub mod Members
pub mod Settings
use cncremote.Prelude.{ℕ, ℤ, Bool, Bytes, List, Option}
use cncremote.Comms.Vectors.{Axes}

-- What the server reads and writes of Mach3's `AxisInfo`.
pub record AxisInfo : Type 0 where
  pub index : ℤ
  pub cur_velocity : ℤ
  pub max_velocity : ℤ
  pub acceleration : ℤ
  pub dec : Bool
  pub jogging : Bool
  pub jogg_dir : ℤ

-- What it reads and writes of `Engine`, `MainPlanner` and `_setup`. `axis_words` and `origin_words` are the
-- six doubles in memory from `axis_offset_x` and from `origin_offset_x` on, of which three are offsets.
pub record Shared (W : Type 0) : Type 0 where
  pub axes : Axes AxisInfo
  pub e_stop : Bool
  pub traj_index : ℤ
  pub traj_head : ℤ
  pub current_units : ℤ
  pub display_line : ℤ
  pub referenced : Axes Bool
  pub pulse_count : ℤ
  pub steps_per_axis : Axes W
  pub velocities : Axes W
  pub accelerations : Axes W
  pub axis_words : Axes W
  pub origin_words : Axes W
  pub active_g_codes : List ℤ
  pub active_m_codes : List ℤ

-- The shared memory with the rest of Mach3.
pub record World (W C : Type 0) : Type 0 where
  pub shared : Shared W
  pub rest : C

-- The functions of Mach3 that the server calls, and what C++ does with a `double` that `Double` has not:
-- `-v`, and the conversions from and to `int`. `wide` is a path as `MultiByteToWideChar` writes it, which fails
-- if it is too long.
pub record Mach (W C : Type 0) : Type 0 where
  pub do_button : ℕ → World W C → World W C
  pub get_led : ℕ → World W C → Bool
  pub set_led : ℕ → Bool → World W C → World W C
  pub get_dro : ℕ → World W C → W
  pub set_dro : ℕ → W → World W C → World W C
  pub code : Bytes → World W C → World W C
  pub load : Bytes → World W C → World W C
  pub wide : Bytes → Option Bytes
  pub negate : W → W
  pub to_int : W → ℤ
  pub of_int : ℤ → W

-- AXISDATA
pub record AxisData (W : Type 0) : Type 0 where
  pub target_jog : ℤ
  pub jogging : Bool
  pub acc : ℤ
  pub index : ℤ
  pub home_speed : W

-- The members of `MachServer` with Mach3. `has_app` and `has_scripter` unless the pointers are NULL;
-- `file_path` is empty if its first character is NUL.
pub record Server3 (W C : Type 0) : Type 0 where
  pub running : Bool
  pub file_path : Bytes
  pub has_app : Bool
  pub has_scripter : Bool
  pub jog_axes : Axes (AxisData W)
  pub world : World W C
