-- ===== src/EdingCnc.antt =====
-- The server for EdingCNC (drivers/EdingCNC402/EdingCNC.cpp and EdingCNC.h). The library cncapi.dll, with
-- the machine behind it, is a parameter.
pub mod Registry
pub mod Connection
pub mod Reports
pub mod Members
pub mod Pauses
pub mod Overrides
pub mod Previews
use cncremote.Prelude.{ℕ, ℤ, Bool, Bytes, List, Option, Exec, crash, if◌then◌else◌, ok}
use cncremote.Comms.Vectors.{Axes}
use cncremote.Server.{Server}

-- CNC_IE_STATE
pub data CncState : Type 0 where
  powerup idle ready exec_error int_error aborted : CncState
  running_job running_line running_sub running_sub_search running_line_search : CncState
  paused_line paused_job paused_sub paused_line_search paused_sub_search : CncState
  running_handwheel running_line_handwheel running_line_paused : CncState
  running_axis_jog running_ip_jog : CncState
  rendering_graph searching searched_done : CncState

-- The enumerator's value.
abbrev pub place : CncState → ℕ
place powerup = 0
place idle = 1
place ready = 2
place exec_error = 3
place int_error = 4
place aborted = 5
place running_job = 6
place running_line = 7
place running_sub = 8
place running_sub_search = 9
place running_line_search = 10
place paused_line = 11
place paused_job = 12
place paused_sub = 13
place paused_line_search = 14
place paused_sub_search = 15
place running_handwheel = 16
place running_line_handwheel = 17
place running_line_paused = 18
place running_axis_jog = 19
place running_ip_jog = 20
place rendering_graph = 21
place searching = 22
place searched_done = 23

-- The outputs that the server names, of CNC_IO_ID.
pub data Output : Type 0 where
  drive_enable coolant1 coolant2 tool : Output

-- The calls of the library that act on the machine.
pub data Command (W : Type 0) : Type 0 where
  run_single_line : Bytes → Command W
  load_job : Bytes → Command W
  start_jog : Axes W → W → Bool → Command W
  stop_jog : ℤ → Command W
  start_velocity_tracking : Command W
  set_tracking_velocity : Axes W → Axes Bool → Command W
  stop_tracking : Command W
  move_to : Axes W → Axes Bool → W → Command W
  set_output : Output → ℤ → Command W
  set_feed_override : W → Command W
  set_speed_override : W → Command W
  run_or_resume_job : Command W
  pause_job : Command W
  reset : Command W
  reset2 : ℕ → Command W
  single_step_mode : Bool → Command W
  enable_block_delete : Bool → Command W
  enable_optional_stop : Bool → Command W
  start_render_graph : ℤ → ℤ → Command W

-- What the server reads of CNC_PAUSE_STS.
pub record Pause (W : Type 0) : Type 0 where
  pub manual_action : Bool
  pub position : Axes W
  pub valid : Bool
  pub line : ℤ
  pub spindle : ℤ
  pub flood : ℤ
  pub mist : ℤ

-- What it reads of CNC_SPINDLE_STS.
pub record Spindle (W : Type 0) : Type 0 where
  pub is_on : Bool
  pub direction : Bool
  pub programmed_speed : W
  pub actual_speed : W
  pub override_factor : W

-- CNC_MOVE_TYPE: the kinds of points of the preview that the server tells apart.
pub data MoveKind : Type 0 where
  move_g0 move_g1 move_probe move_start_position move_origin_offset move_other : MoveKind

pub record GraphPoint (W : Type 0) : Type 0 where
  pub kind : MoveKind
  pub pos : Axes W

-- The library in a state `C`, which holds the machine and goes on with time: `later` is a sleep of 50
-- ms. `call` is true if CNC_RC_OK is returned, `connect` if CNC_RC_ALREADY_RUNS is. The records
-- that it gives by a pointer are there, except a joint's configuration, of which `max_velocity` is read.
-- `same` compares the bytes of two positions.
pub record Library (W C : Type 0) : Type 0 where
  pub call : Command W → C → Bool × C
  pub connect : C → Bool × C
  pub is_connected : C → Bool
  pub later : C → C
  pub state : C → CncState
  pub output : Output → C → Bool
  pub em_stop : C → Bool
  pub is_handwheel : C → Bool
  pub machine_pos : C → Axes W
  pub work_pos : C → Axes W
  pub pause : C → Pause W
  pub feed_override : C → W
  pub optional_stop : C → Bool
  pub block_delete : C → Bool
  pub interpreter_line : C → ℤ
  pub single_step : C → Bool
  pub spindle : C → Spindle W
  pub homed : C → Axes Bool
  pub max_velocity : ℕ → C → Option W
  pub in_millimeters : C → Bool
  pub programmed_feed : C → W
  pub actual_feed : C → W
  pub tool_number : C → ℤ
  pub settings_text : C → Bytes
  pub tool_offset : C → Axes W
  pub current_g5x : C → Axes W
  pub g92_offset : C → Axes W
  pub spindle_offset : C → Axes W
  pub log_fifo : C → Option Bytes × C
  pub graph_fifo : C → Option (GraphPoint W) × C
  pub same : Axes W → Axes W → Bool

-- The pointers to the functions of the library: not set, set, or set while the library is unloaded.
-- `m_cncDll` is NULL if they are not set.
pub data Linkage : Type 0 where
  unset linked unloaded : Linkage

-- The members of `EdingCncServer`, `tracking` unless `CncStartVelocityTracking` is NULL.
pub record Eding (W C : Type 0) : Type 0 where
  pub linkage : Linkage
  pub tracking : Bool
  pub connected : Bool
  pub connect_count : ℕ
  pub z_max : W
  pub rec_size : ℤ
  pub graph_offset : Axes W
  pub library : C
