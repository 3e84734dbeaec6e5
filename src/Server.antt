-- ===== src/Server.antt =====
-- src/cncserver.cpp and include/cncserver.h: the server's state, and what a driver overrides.
pub mod Stdio
pub mod Files
pub mod Logs
pub mod Handlers
pub mod Bindings
pub mod Protocol
pub mod Dispatch
use cncremote.Prelude.{ℕ, ℤ, Bool, Bytes, List, Option, none, Exec, Result}
use cncremote.Comms.{State, PreviewAxes}
use cncremote.Comms.Vectors.{Axes}
use Stdio.{Disk}

-- The members of `Server` with the process's files; `machine` is what the driver's class adds.
-- `none` is the NULL of `m_file`.
pub record Server (W M : Type 0) : Type 0 where
  pub disk : Disk
  pub file : Option ℕ
  pub cur_block : ℤ
  pub cur_file : Bytes
  pub errors : List Bytes
  pub messages : List Bytes
  pub state : State W
  pub machine : M

-- The pure virtual members and the preview members. A call holds the state lock throughout. No member throws
-- `std::bad_cast`, which a handler would take for arguments of the wrong types.
pub record Driver (W M : Type 0) : Type 0 where
  pub update_state : Exec (Server W M) (Unit {0})
  pub drives_on : Bool → Exec (Server W M) (Unit {0})
  pub jog_vel : Axes W → Exec (Server W M) (Unit {0})
  pub jog_step : Axes W → W → Exec (Server W M) (Unit {0})
  pub mdi : Bytes → Exec (Server W M) Bool
  pub spindle_override : W → Exec (Server W M) (Unit {0})
  pub feed_override : W → Exec (Server W M) (Unit {0})
  pub rapid_override : W → Exec (Server W M) (Unit {0})
  pub load_file : Bytes → Exec (Server W M) Bool
  pub close_file : Exec (Server W M) Bool
  pub cycle_start : Exec (Server W M) (Unit {0})
  pub cycle_stop : Exec (Server W M) (Unit {0})
  pub feed_hold : Bool → Exec (Server W M) (Unit {0})
  pub block_delete : Bool → Exec (Server W M) (Unit {0})
  pub single_step : Bool → Exec (Server W M) (Unit {0})
  pub optional_stop : Bool → Exec (Server W M) (Unit {0})
  pub home : Axes Bool → Exec (Server W M) (Unit {0})
  pub get_offset : ℕ → Exec (Server W M) (Axes W)
  pub get_g_codes : Exec (Server W M) (List ℤ)
  pub get_m_codes : Exec (Server W M) (List ℤ)
  pub start_preview : ℤ → Exec (Server W M) Bool
  pub get_preview : Exec (Server W M) (List (PreviewAxes W))
  pub end_preview : Exec (Server W M) (Unit {0})
