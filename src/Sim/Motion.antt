-- ===== src/Sim/Motion.antt =====
-- `Sim::Poll` (drivers/Sim/server/sim.cpp), which its main loop calls over and over.
use cncremote.Prelude.{pos, negsuc, ◌+ℤ◌, Bool, true, false, not, ◌&&◌, ◌||◌, if◌then◌else◌}
use cncremote.Comms.{ControlState, mc_idle, mc_mdi, mc_moving, mc_off, mc_running}
use cncremote.Comms.Arithmetic.{Double}
use cncremote.Comms.Vectors.{Axes, zero, add, sub, scale, divide, length}
use cncremote.Server.Files.{eqb_ℤ}
use cncremote.Sim.{Sim, Machine}

-- The machine, its position and its state while `Poll` works.
pub record Moving (W : Type 0) : Type 0 where
  pub machine : Machine W
  pub position : Axes W
  pub busy : ControlState

abbrev is_idle : ControlState → Bool
is_idle mc_idle = true
is_idle mc_moving = true
is_idle _ = false

module _ {W : Type 0} ⦃d : Double W⦄ where
  unfoldable pub is_jogging : Axes W → Bool
  is_jogging v =
      not (d.eq v.x d.nought)
      || not (d.eq v.y d.nought)
      || not (d.eq v.z d.nought)
      || not (d.eq v.a d.nought)
      || not (d.eq v.b d.nought)
      || not (d.eq v.c d.nought)

  abbrev pub count_down : Machine W → Machine W
  count_down m = if eqb_ℤ m.busy (pos 0) then m else record m { busy = m.busy +ℤ negsuc 0 }

  -- What the machine is doing before it moves.
  abbrev pub occupation : Machine W → ControlState
  occupation m =
      if not m.control_on
      then mc_off
      else if m.running
      then mc_running
      else if eqb_ℤ m.busy (pos 0)
      then mc_idle
      else mc_mdi

  unfoldable pub jog : Moving W → Moving W
  unfolding is_jogging add scale zero
  jog g =
      if is_jogging g.machine.jog_vel
      then (if is_idle g.busy
          then record {
            machine = record machine {
              target = add g.position (scale machine.jog_vel (d.literal (pos 1) 1));
            };
            position = add g.position (scale machine.jog_vel (d.literal (pos 1) 1));
            busy = mc_moving;
          }
          else record g { machine = record machine { jog_vel = zero } })
      else g
    where
      open g use {machine}

  -- `dist > 0.0001`
  abbrev pub is_far : Axes W → Axes W → Bool
  is_far target position = d.lt (d.literal (pos 1) 10000) (length (sub target position))

  abbrev stride : Axes W → W → W → Axes W → Axes W
  stride dtg dist speed position = add position (scale (divide dtg dist) speed)

  unfoldable pub approach : Moving W → Moving W
  unfolding add sub scale divide length
  approach g =
      if is_far g.machine.target g.position
      then record g {
        position =
            stride (sub g.machine.target g.position) (length (sub g.machine.target g.position))
              (d.mul g.machine.feed_rate g.machine.feed_override) g.position;
        busy = mc_running;
      }
      else g

  abbrev run : Machine W → Machine W
  run m = if m.running && not m.paused then record (count m) { paused = m.step || m.paused } else m
    where
      count : Machine W → Machine W
      count n =
          if eqb_ℤ n.run_count (pos 0)
          then record n { run_count = pos 1000; cur_line = n.cur_line +ℤ pos 1 }
          else record n { run_count = n.run_count +ℤ negsuc 0 }

  abbrev pub started : Sim W → Moving W
  started s =
      let m = count_down s.machine in
      record { machine = m; position = s.state.position; busy = occupation m }

  abbrev ended : Sim W → Moving W → Sim W
  ended s g = record s {
    machine = run g.machine;
    state = record state { position = g.position; machine_state = g.busy };
  }
    where
      open s use {state}

  -- `Poll`, which always returns true.
  unfoldable pub poll : Sim W → Sim W
  unfolding ◌+ℤ◌
  poll s = ended s (approach (jog (started s)))
