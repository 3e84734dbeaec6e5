-- ===== src/Comms.antt =====
-- include/cnccomms.h and src/cnccomms.cpp: what client and server share. `double` is any type `W`
-- with the operations of `Double`; unions of an array with named fields are the named fields.
pub mod Arithmetic
pub mod Vectors
pub mod Wire
pub mod Messages
pub mod States
use cncremote.Prelude.{ℕ, ℤ, pos, Bool, false, Bytes, codes, []}
use Arithmetic.{Double}
use Vectors.{Axes, zero, bool_zero}

abbrev pub max_axes : ℕ
max_axes = 6

abbrev pub file_block_size : ℕ
file_block_size = 16000

pub data SpindleState : Type 0 where
  spin_off spin_fwd spin_rev : SpindleState

pub data ControlState : Type 0 where
  mc_no_server mc_offline mc_off mc_idle mc_moving mc_mdi mc_running : ControlState

-- The enumerator's value: the comparisons of the source are on it.
abbrev pub rank : ControlState → ℕ
rank mc_no_server = 0
rank mc_offline = 1
rank mc_off = 2
rank mc_idle = 3
rank mc_moving = 4
rank mc_mdi = 5
rank mc_running = 6

pub data PreviewType : Type 0 where
  prev_start prev_move prev_rapid : PreviewType

pub record PreviewAxes (W : Type 0) : Type 0 where
  pub axes : Axes W
  pub kind : PreviewType

pub record State (W : Type 0) : Type 0 where
  pub position : Axes W
  pub machine_pos : Axes W
  pub feed_hold : Bool
  pub feed_override : W
  pub optional_stop : Bool
  pub block_delete : Bool
  pub machine_state : ControlState
  pub current_line : ℤ
  pub single_step : Bool
  pub spindle_cmd : W
  pub spindle_actual : W
  pub spindle_state : SpindleState
  pub mist : Bool
  pub flood : Bool
  pub homed : Axes Bool
  pub axis_angular : Axes Bool
  pub max_feed_lin : W
  pub max_feed_ang : W
  pub gcode_units : W
  pub spindle_override : W
  pub rapid_override : W
  pub feed_cmd : W
  pub feed_actual : W
  pub tool : ℤ
  pub error_count : ℕ
  pub message_count : ℕ
  pub file_count : ℕ
  pub interp_state : Bytes

pub record ExceptionData : Type 0 where
  pub message : Bytes
  pub function : Bytes

module _ {W : Type 0} ⦃d : Double W⦄ where
  -- `State::State()`: all memory before `interpState` is zeroed.
  unfoldable pub new_state : State W
  unfolding zero bool_zero
  new_state = record {
    position = zero;
    machine_pos = zero;
    feed_hold = false;
    feed_override = d.nought;
    optional_stop = false;
    block_delete = false;
    machine_state = mc_no_server;
    current_line = pos 0;
    single_step = false;
    spindle_cmd = d.nought;
    spindle_actual = d.nought;
    spindle_state = spin_off;
    mist = false;
    flood = false;
    homed = bool_zero;
    axis_angular = bool_zero;
    max_feed_lin = d.nought;
    max_feed_ang = d.nought;
    gcode_units = d.nought;
    spindle_override = d.nought;
    rapid_override = d.nought;
    feed_cmd = d.nought;
    feed_actual = d.nought;
    tool = pos 0;
    error_count = 0;
    message_count = 0;
    file_count = 0;
    interp_state = [];
  }
