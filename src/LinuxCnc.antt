-- ===== src/LinuxCnc.antt =====
-- The server for LinuxCNC (drivers/linuxcnc/server/linuxcnc.cpp), built for a LinuxCNC with joints. The NML
-- channels and what is behind them are a parameter.
pub mod Channel
pub mod Members
pub mod Reports
pub mod Connecting
pub mod Settings
pub mod Laws
use cncremote.Prelude.{ℕ, ℤ, Bool, Bytes, List, Option}
use cncremote.Comms.Vectors.{Axes}
use cncremote.Server.{Server}

pub data TaskState : Type 0 where
  estop_reset off on : TaskState

pub data TaskMode : Type 0 where
  manual auto mdi : TaskMode

-- The messages that the server sends, by the library's types. A jog is of a joint or in teleop.
pub data Message (W : Type 0) : Type 0 where
  set_state : TaskState → Message W
  set_mode : TaskMode → Message W
  jog_cont : Bool → ℕ → W → Message W
  jog_stop : Bool → ℕ → Message W
  jog_incr : ℕ → W → W → Message W
  teleop_enable : Bool → Message W
  plan_execute : Bytes → Message W
  plan_open : Bytes → Message W
  plan_run : ℤ → Message W
  plan_pause : Message W
  plan_resume : Message W
  plan_step : Message W
  set_block_delete : Bool → Message W
  set_optional_stop : Bool → Message W
  set_spindle_scale : W → Message W
  set_scale : W → Message W
  set_rapid_scale : W → Message W
  abort : Message W
  joint_home : ℤ → Message W

-- What a look at the error channel gives: an error, nothing, or a message at an address. A message is to be
-- logged as an error or as a message, or is of a type that is not known.
pub data NewsKind : Type 0 where
  error_text message_text unknown_text : NewsKind

pub data News : Type 0 where
  unreadable : News
  nothing : News
  arrived : ℕ → NewsKind → Bytes → News

-- What the members below read of EMC_STAT.
pub record Status (W : Type 0) : Type 0 where
  pub mode : TaskMode
  pub is_free : Bool
  pub is_linear : Axes Bool
  pub units : Axes W
  pub tool_offset : Axes W
  pub g5x_offset : Axes W
  pub g92_offset : Axes W
  pub active_g_codes : List ℤ
  pub active_m_codes : List ℤ
  pub heartbeat : ℕ
  pub task_on : Bool
  pub interp_busy : Bool
  pub actual_position : Axes W
  pub current_vel : W
  pub spindle_enabled : ℤ
  pub spindle_speed : W
  pub task_paused : Bool
  pub linear_units : W
  pub angular_units : W
  pub optional_stop : Bool
  pub block_delete : Bool
  pub mist : Bool
  pub flood : Bool
  pub motion_line : ℤ
  pub homed : Axes Bool

-- The channels to LinuxCNC in a state `C`. `write` is true if it fails; `peek` is true if it fails, and time
-- goes on with it; `serial` is the number that `write` gave to the last command, `echo_serial` the one in the status,
-- both `int`s, which C++ does not let overflow. `is_valid` is what `OK` asks of
-- the channels besides; `news` the look at the error channel; `line_len` is LINELEN.
pub record Controller (W C : Type 0) : Type 0 where
  pub write : Message W → C → Bool × C
  pub peek : C → Bool × C
  pub serial : C → ℤ
  pub echo_serial : C → ℤ
  pub status : C → Status W
  pub is_valid : C → Bool
  pub disconnect : C → C
  pub news : C → News
  pub line_len : ℕ

-- The members of `LinuxCnc` with the file's global variables; `has_status` unless `m_emcStatus` is NULL.
pub record Lcnc (W C : Type 0) : Type 0 where
  pub has_status : Bool
  pub channel : C
  pub heartbeat : ℕ
  pub next_time : ℤ
  pub last_message : Option ℕ
  pub jog_axes : Axes W
  pub max_speed_lin : W
  pub max_speed_ang : W
