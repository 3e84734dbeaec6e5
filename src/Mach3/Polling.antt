-- ===== src/Mach3/Polling.antt =====
-- `Poll`, `JogVel` and `UpdateState` of drivers/Mach3/MachServer.cpp.
pub mod Laws
use cncremote.Prelude.{
  ℕ, ℤ, pos, negsuc, pos_part, neg_part, ◌+◌, ◌+ℤ◌, ◌==◌, Bool, true, false, not, ◌&&◌, ◌||◌, Exec,
  ok, if◌then◌else◌, ltb_ℤ,
}
use cncremote.Comms.{
  State, SpindleState, spin_off, spin_fwd, spin_rev, ControlState, mc_off, mc_idle, mc_moving,
  mc_running,
}
use cncremote.Comms.Arithmetic.{Double}
use cncremote.Comms.Vectors.{Axes, map_axes, zip_axes}
use cncremote.Server.{Server}
use cncremote.Mach3.{AxisInfo, Shared, World, Mach, AxisData, Server3}

abbrev pub int_eq : ℤ → ℤ → Bool
int_eq a b = (pos_part a + neg_part b) == (pos_part b + neg_part a)

abbrev pub same_bool : Bool → Bool → Bool
same_bool true b = b
same_bool false b = not b

abbrev pub is_zero : ℤ → Bool
is_zero a = int_eq a (pos 0)

abbrev pub as_int : Bool → ℤ
as_int b = if b then pos 1 else pos 0

abbrev magnitude : ℤ → ℤ
magnitude a = pos (pos_part a + neg_part a)

abbrev pub slow : AxisInfo → AxisInfo
slow e = record e { dec = true; jogging = true }

module _ {W : Type 0} where
  abbrev pub has_moved : AxisData W → AxisInfo → Bool
  has_moved a e = not (int_eq e.index a.index)

  abbrev stop_axis : AxisData W → AxisInfo → AxisData W
  stop_axis a e = record a { index = e.index; jogging = has_moved a e }

  -- `dir == (eng.JoggDir == 0) && eng.CurVelocity != 0`
  abbrev pub turns : AxisData W → AxisInfo → Bool
  turns a e =
      same_bool (ltb_ℤ a.target_jog (pos 0)) (is_zero e.jogg_dir) && not (is_zero e.cur_velocity)

  abbrev drive : AxisData W → AxisInfo → AxisInfo
  drive a e = record e {
    acceleration = a.acc;
    jogg_dir = as_int (ltb_ℤ a.target_jog (pos 0));
    max_velocity = magnitude a.target_jog;
    dec = false;
    jogging = true;
  }

  -- A round of the loop over the axes in `Poll`.
  unfoldable pub jog_axis : AxisData W → AxisInfo → AxisData W × AxisInfo
  jog_axis a e =
      if not a.jogging
      then (a, e)
      else if is_zero a.target_jog
      then (stop_axis a e, slow e)
      else (record a { index = e.index }, if turns a e then slow e else drive a e)

abbrev pub any_axis : Axes Bool → Bool
any_axis v = v.x || v.y || v.z || v.a || v.b || v.c

module _ {W C : Type 0} ⦃d : Double W⦄ (m : Mach W C) where
  abbrev one : W
  one = d.literal (pos 1) 1

  abbrev percent : W → W
  percent v = d.div v (d.literal (pos 100) 1)

  abbrev pub machine_state : Shared W → ControlState
  machine_state t =
      if t.e_stop
      then mc_off
      else if not (int_eq t.traj_index t.traj_head)
      then mc_running
      else if any_axis (map_axes (λ (e : AxisInfo). e.jogging) t.axes)
      then mc_moving
      else mc_idle

  abbrev spindle_state : World W C → SpindleState
  spindle_state v =
      if m.get_led 164 v then spin_fwd else if m.get_led 165 v then spin_rev else spin_off

  abbrev positions : World W C → Axes W
  positions v = record {
    x = m.get_dro 800 v;
    y = m.get_dro 801 v;
    z = m.get_dro 802 v;
    a = m.get_dro 803 v;
    b = m.get_dro 804 v;
    c = m.get_dro 805 v;
  }

  -- What `Poll` copies into the state.
  unfoldable pub report : World W C → State W → State W
  report v st = record st {
    gcode_units =
        if int_eq (v.shared.current_units) (pos 1) then d.div one (d.literal (pos 254) 10) else one;
    feed_hold = m.get_led 111 v;
    feed_override = percent (m.get_dro 821 v);
    optional_stop = m.get_led 65 v;
    block_delete = m.get_led 66 v;
    machine_state = machine_state v.shared;
    current_line = v.shared.display_line;
    single_step = m.get_led 82 v;
    spindle_actual = m.get_dro 39 v;
    spindle_cmd = m.get_dro 817 v;
    spindle_state = spindle_state v;
    mist = m.get_led 12 v;
    flood = m.get_led 13 v;
    spindle_override = percent (m.get_dro 74 v);
    rapid_override = percent (m.get_dro 223 v);
    homed = v.shared.referenced;
    position = positions v;
  }

  abbrev pub jogged : Server3 W C → Server3 W C
  jogged s =
      let both = zip_axes jog_axis s.jog_axes s.world.shared.axes in
      record s {
        jog_axes = map_axes (λ (p : AxisData W × AxisInfo). p.0) both;
        world = record (s.world) {
          shared = record (s.world.shared) {
            axes = map_axes (λ (p : AxisData W × AxisInfo). p.1) both;
          };
        };
      }

  -- `Poll`
  unfoldable pub poll : Server W (Server3 W C) → Server W (Server3 W C)
  unfolding jog_axis report
  poll s = record s { machine = jogged s.machine; state = report (jogged s.machine).world s.state }

  -- A velocity for an axis, no faster than the planner's.
  abbrev clamp : W → W → W
  clamp cmd most =
      if d.lt cmd d.nought
      then (if d.lt cmd (m.negate most) then m.negate most else cmd)
      else if d.lt most cmd
      then most
      else cmd

  abbrev lin_scale : W
  lin_scale = d.literal (pos 2048) 1

  abbrev acc_scale : Shared W → W
  acc_scale t = d.div lin_scale (m.of_int (t.pulse_count +ℤ t.pulse_count))

  abbrev aim : ℤ → ℤ → AxisData W → AxisData W
  aim acc amount a = record a {
    acc = acc;
    target_jog = amount;
    jogging = if not (is_zero amount) then true else a.jogging;
  }

  -- The amount and the acceleration of the jog of an axis, in Mach3's units.
  abbrev amounts : Axes W → Shared W → Axes ℤ
  amounts velocities t =
      let cmd = zip_axes (λ (v most : W). clamp (d.mul v most) most) velocities t.velocities in
      zip_axes (λ (c steps : W). m.to_int (d.mul (d.mul c steps) lin_scale)) cmd t.steps_per_axis

  abbrev accs : Shared W → Axes ℤ
  accs t =
      zip_axes (λ (a steps : W). m.to_int (d.mul (d.mul a steps) (acc_scale t))) t.accelerations
        t.steps_per_axis

  -- `JogVel`
  unfoldable pub jog_vel : Axes W → Exec (Server W (Server3 W C)) (Unit {0})
  jog_vel velocities s = (ok tt, record s { machine = record machine { jog_axes = aimed } })
    where
      open s use {machine}

      aimed : Axes (AxisData W)
      aimed =
          zip_axes (λ (f : AxisData W → AxisData W) (a : AxisData W). f a)
            (zip_axes aim (accs machine.world.shared) (amounts velocities machine.world.shared))
            machine.jog_axes

  abbrev machine_pos : Shared W → Axes W
  machine_pos t =
      let counts =
        zip_axes (λ (e : AxisInfo) (steps : W). d.div (m.of_int e.index) steps) t.axes
          t.steps_per_axis in
      if int_eq t.current_units (pos 1)
      then map_axes (λ (p : W). d.mul p (d.literal (pos 254) 10)) counts
      else counts

  -- The loops start at the second axis.
  abbrev but_first : Axes W → Axes W → Axes W
  but_first old new = record new { x = old.x }

  -- `UpdateState`
  unfoldable pub update_state : Exec (Server W (Server3 W C)) (Unit {0})
  update_state s = (
    ok tt,
    record s {
      state = record state {
        machine_pos = but_first state.machine_pos (machine_pos s.machine.world.shared);
      };
    },
  )
    where
      open s use {state}
