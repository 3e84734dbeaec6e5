-- ===== src/Sim.antt =====
-- The simulated machine of drivers/Sim/server: the members of class `Sim` (sim.h) and its constructor.
-- What it prints is left out.
pub mod Members
pub mod Motion
pub mod Safety
use cncremote.Prelude.{ℕ, ℤ, pos, Bool, true, false, [], none}
use cncremote.Comms.{State, new_state}
use cncremote.Comms.Arithmetic.{Double}
use cncremote.Comms.Vectors.{Axes, zero}
use cncremote.Server.{Server}
use cncremote.Server.Stdio.{Disk}

-- `MACHINESTATE`
pub record Machine (W : Type 0) : Type 0 where
  pub control_on : Bool
  pub paused : Bool
  pub block_delete : Bool
  pub opt_stop : Bool
  pub running : Bool
  pub step : Bool
  pub feed_override : W
  pub cur_line : ℤ
  pub busy : ℤ
  pub spindle_cmd : W
  pub spindle_speed : W
  pub spindle_override : W
  pub jog_vel : Axes W
  pub target : Axes W
  pub feed_rate : W
  pub run_count : ℤ

abbrev pub Sim : Type 0 → Type 0
Sim W = Server W (Machine W)

module _ {W : Type 0} ⦃d : Double W⦄ where
  -- All zero but for `controlOn`.
  unfoldable pub new_machine : Machine W
  unfolding zero
  new_machine = record {
    control_on = true;
    paused = false;
    block_delete = false;
    opt_stop = false;
    running = false;
    step = false;
    feed_override = d.nought;
    cur_line = pos 0;
    busy = pos 0;
    spindle_cmd = d.nought;
    spindle_speed = d.nought;
    spindle_override = d.nought;
    jog_vel = zero;
    target = zero;
    feed_rate = d.nought;
    run_count = pos 0;
  }

  -- `Sim::Sim()` after `Server::Server()`, in a process with the files `disk`.
  unfoldable pub new_sim : Disk → Sim W
  unfolding new_machine new_state
  new_sim disk = record {
    disk = disk;
    file = none;
    cur_block = pos 0;
    cur_file = [];
    errors = [];
    messages = [];
    state = record new_state { max_feed_lin = d.literal (pos 1000) 1 };
    machine = new_machine;
  }
