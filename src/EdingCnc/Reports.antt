-- ===== src/EdingCnc/Reports.antt =====
-- `UpdateState` of drivers/EdingCNC402/EdingCNC.cpp.
pub mod Laws
use cncremote.Prelude.{
  ℕ, zero as nat_zero, suc, ℤ, pos, Bool, true, false, not, Bytes, Option, none, some, Exec, Result,
  ok, if◌then◌else◌,
}
use cncremote.Comms.{
  State, SpindleState, spin_off, spin_fwd, spin_rev, ControlState, mc_offline, mc_off, mc_idle,
  mc_moving, mc_mdi, mc_running,
}
use cncremote.Comms.Arithmetic.{Double}
use cncremote.Comms.Vectors.{Axes}
use cncremote.Server.{Server}
use cncremote.EdingCnc.{
  CncState, powerup, idle, ready, exec_error, int_error, aborted, running_handwheel,
  running_axis_jog, running_ip_jog, rendering_graph, searching, searched_done, drive_enable,
  coolant1, coolant2, Spindle, Library, Eding,
}
use cncremote.EdingCnc.Connection.{linked_only}

-- The switch over the state; `enabled` is the output that enables the drives. `none` is the return.
abbrev pub machine_state : CncState → Bool → Option ControlState
machine_state powerup enabled = none
machine_state idle enabled = none
machine_state ready enabled = some (if not enabled then mc_off else mc_idle)
machine_state exec_error enabled = some mc_off
machine_state int_error enabled = some mc_off
machine_state aborted enabled = some mc_off
machine_state running_handwheel enabled = some mc_moving
machine_state running_axis_jog enabled = some mc_moving
machine_state running_ip_jog enabled = some mc_moving
machine_state rendering_graph enabled = some mc_mdi
machine_state searching enabled = some mc_mdi
machine_state searched_done enabled = some mc_mdi
machine_state _ enabled = some mc_running

module _ {W C : Type 0} ⦃d : Double W⦄ (lib : Library W C) where
  abbrev spindle_state : Spindle W → SpindleState
  spindle_state spin =
      if spin.is_on then (if spin.direction then spin_rev else spin_fwd) else spin_off

  -- `feed += joint->maxVelocity * joint->maxVelocity` for the joints from `first` on.
  abbrev squares : ℕ → ℕ → C → W → W
  squares nat_zero first c feed = feed
  squares (suc count) first c feed =
      squares count (suc first) c
        (elim (lib.max_velocity first c) [ none ↦ feed | some v ↦ d.add feed (d.mul v v) ])

  abbrev pub units : C → W
  units c =
      if lib.in_millimeters c
      then d.literal (pos 1) 1
      else d.div (d.literal (pos 1) 1) (d.literal (pos 254) 10)

  -- What is copied out of the library, once the machine's state is known.
  unfoldable pub report : ControlState → C → State W → State W
  report mode c st = record st {
    machine_state = mode;
    machine_pos = lib.machine_pos c;
    position = lib.work_pos c;
    feed_hold = (lib.pause c).manual_action;
    feed_override = lib.feed_override c;
    optional_stop = lib.optional_stop c;
    block_delete = lib.block_delete c;
    current_line = lib.interpreter_line c;
    single_step = lib.single_step c;
    spindle_cmd = (lib.spindle c).programmed_speed;
    spindle_actual = (lib.spindle c).actual_speed;
    spindle_state = spindle_state (lib.spindle c);
    spindle_override = (lib.spindle c).override_factor;
    mist = lib.output coolant2 c;
    flood = lib.output coolant1 c;
    homed = lib.homed c;
    max_feed_lin = d.sqrt (squares 3 0 c d.nought);
    gcode_units = units c;
    rapid_override = d.literal (pos 1) 1;
    feed_cmd = lib.programmed_feed c;
    feed_actual = lib.actual_feed c;
    tool = lib.tool_number c;
    interp_state = lib.settings_text c;
  }

  -- `if (v > m_zMax) m_zMax = v;`
  abbrev pub raised_to : W → W → W
  raised_to v z = if d.lt z v then v else z

  abbrev pub reported : Option ControlState → Exec (Server W (Eding W C)) (Unit {0})
  reported none s = (ok tt, record s { state = record state { machine_state = mc_offline } })
    where
      open s use {state}
  reported (some mode) s = (
    ok tt,
    record s {
      state = report mode machine.library state;
      machine = record machine {
        z_max = raised_to (lib.machine_pos machine.library).z machine.z_max;
      };
    },
  )
    where
      open s use {state, machine}

  -- `UpdateState`
  unfoldable pub update_state : Exec (Server W (Eding W C)) (Unit {0})
  unfolding report
  update_state = linked_only λ s.
      reported
        (machine_state (lib.state s.machine.library) (lib.output drive_enable s.machine.library)) s
