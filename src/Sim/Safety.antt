-- ===== src/Sim/Safety.antt =====
-- What `Sim::Poll` does with the drives off, and with them on (drivers/Sim/server/sim.cpp).
use cncremote.Prelude.{
  pos, ◌≡◌, refl, Bool, true, false, List, [], ◌∷◌, if◌then◌else◌, Bool-cases, inl, inr,
}
use cncremote.Comms.{mc_idle, mc_moving, mc_off, mc_running}
use cncremote.Comms.Arithmetic.{Double}
use cncremote.Comms.Vectors.{Axes, add, sub, scale, divide, length}
use cncremote.Server.Files.{eqb_ℤ}
use cncremote.Sim.{Sim, Machine}
use cncremote.Sim.Members.{drives_on, jog_vel, jog_step, feed_override, home}
use cncremote.Sim.Motion.{Moving, poll, jog, approach, is_far, is_jogging, started, count_down}

-- What can happen to the machine without a step being asked for.
pub data Act (W : Type 0) : Type 0 where
  polls : Act W
  jogs : Axes W → Act W
  overrides : W → Act W
  homes : Axes Bool → Act W

module _ {W : Type 0} ⦃d : Double W⦄ where
  abbrev pub act : Act W → Sim W → Sim W
  act polls s = poll s
  act (jogs velocities) s = (jog_vel velocities s).1
  act (overrides percent) s = (feed_override percent s).1
  act (homes which) s = (home which s).1

  abbrev pub acts : List (Act W) → Sim W → Sim W
  acts [] s = s
  acts (a ∷ rest) s = acts rest (act a s)

  -- The drives are off and the machine stands at `p`.
  pub record IsOff (p : Axes W) (s : Sim W) : Type 0 where
    pub control : s.machine.control_on ≡ false
    pub running : s.machine.running ≡ false
    pub target : s.machine.target ≡ p
    pub position : s.state.position ≡ p

  count_down_lem : (m : Machine W) → count_down m ≡ record m { busy = (count_down m).busy }
  count_down_lem m = elim (Bool-cases (eqb_ℤ m.busy (pos 0))) [
    | inl e ↦ rw e refl
    | inr e ↦ rw e refl
  ]

  poll-IsOff :
      (p : Axes W) (s : Sim W)
      → is_far p p ≡ false
      → IsOff p s
      → IsOff p (poll s) × ((poll s).state.machine_state ≡ mc_off)
  unfolding poll jog approach
  poll-IsOff p s near v = elim (Bool-cases (is_jogging s.machine.jog_vel)) [
    | inl j ↦
        rw (count_down_lem s.machine, v.control, j, v.target, v.position, near, v.running)
          (record { control = refl; running = refl; target = refl; position = refl }, refl)
    | inr j ↦
        rw (count_down_lem s.machine, v.control, j, v.target, v.position, near, v.running)
          (record { control = refl; running = refl; target = refl; position = refl }, refl)
  ]

  act-IsOff :
      (p : Axes W) (a : Act W) (s : Sim W) → is_far p p ≡ false → IsOff p s → IsOff p (act a s)
  unfolding jog_vel feed_override home
  act-IsOff p polls s near v = (poll-IsOff p s near v).0
  act-IsOff p (jogs velocities) s near v = record {
    control = v.control;
    running = v.running;
    target = v.target;
    position = v.position;
  }
  act-IsOff p (overrides percent) s near v = record {
    control = v.control;
    running = v.running;
    target = v.target;
    position = v.position;
  }
  act-IsOff p (homes which) s near v = record {
    control = v.control;
    running = v.running;
    target = v.target;
    position = v.position;
  }

  acts-IsOff :
      (p : Axes W) (todo : List (Act W)) (s : Sim W)
      → is_far p p ≡ false
      → IsOff p s
      → IsOff p (acts todo s)
  acts-IsOff p [] s near v = v
  acts-IsOff p (a ∷ rest) s near v = acts-IsOff p rest (act a s) near (act-IsOff p a s near v)

  -- Once the drives are turned off, no sequence of polls, jogs, feed overrides and homings moves the machine,
  -- and each poll reports it as off, until a step is asked for or the drives are turned on. Of the
  -- arithmetic only this is used: a position is not far from itself.
  pub drives_on-off :
      (todo : List (Act W)) (s : Sim W)
      → is_far s.state.position s.state.position ≡ false
      → let after = poll (acts todo (drives_on false s).1) in
        (after.state.position ≡ s.state.position) × (after.state.machine_state ≡ mc_off)
  unfolding drives_on
  drives_on-off todo s near =
      let off =
        acts-IsOff s.state.position todo (drives_on false s).1 near
          (record { control = refl; running = refl; target = refl; position = refl }) in
      let (still, reported) =
        poll-IsOff s.state.position (acts todo (drives_on false s).1) near off in
      (still.position, reported)

  abbrev pub way_of : Sim W → Axes W
  way_of s = sub s.machine.target s.state.position

  poll_far :
      (s : Sim W)
      → s.machine.control_on ≡ false
      → is_far s.machine.target s.state.position ≡ true
      → ((poll s).state.machine_state ≡ mc_running)
        × ((poll s).state.position
            ≡ add s.state.position (
                scale
                  (divide (way_of s) (length (way_of s)))
                  (d.mul s.machine.feed_rate s.machine.feed_override)))
  unfolding poll jog approach
  poll_far s off far = elim (Bool-cases (is_jogging s.machine.jog_vel)) [
    | inl j ↦ rw (count_down_lem s.machine, off, j, far) (refl, refl)
    | inr j ↦ rw (count_down_lem s.machine, off, j, far) (refl, refl)
  ]

  -- Where the jog leads in a poll.
  abbrev pub jogged : Sim W → Axes W
  jogged s = add s.state.position (scale s.machine.jog_vel (d.literal (pos 1) 1))

  abbrev idle : Sim W → Moving W
  idle s = record { machine = s.machine; position = s.state.position; busy = mc_idle }

  abbrev moved : Moving W → Moving W
  moved g = record {
    machine = record machine {
      target = add g.position (scale machine.jog_vel (d.literal (pos 1) 1));
    };
    position = add g.position (scale machine.jog_vel (d.literal (pos 1) 1));
    busy = mc_moving;
  }
    where
      open g use {machine}

  idle_start :
      (s : Sim W)
      → s.machine.control_on ≡ true
      → s.machine.running ≡ false
      → s.machine.busy ≡ pos 0
      → started s ≡ idle s
  idle_start s on stopped free = rw (on, stopped, free) refl

  jog_moves :
      (g : Moving W) → is_jogging g.machine.jog_vel ≡ true → g.busy ≡ mc_idle → jog g ≡ moved g
  unfolding jog
  jog_moves g j free = rw (j, free) refl

  jog_stands : (g : Moving W) → is_jogging g.machine.jog_vel ≡ false → jog g ≡ g
  unfolding jog
  jog_stands g j = rw j refl

  approach_near : (g : Moving W) → is_far g.machine.target g.position ≡ false → approach g ≡ g
  unfolding approach
  approach_near g near = rw near refl

  -- With the drives on, nothing else to do and the target reached but for the rounding, a jog moves the
  -- machine by the velocities in a poll and takes the target along, if the place that it leads to is not
  -- far from itself; without a jog the machine stands, and is idle.
  poll-idle :
      (s : Sim W)
      → s.machine.control_on ≡ true
      → s.machine.running ≡ false
      → s.machine.busy ≡ pos 0
      → is_far s.machine.target s.state.position ≡ false
      → is_far (jogged s) (jogged s) ≡ false
      → let jogging = is_jogging s.machine.jog_vel in
        ((poll s).state.position ≡ (if jogging then jogged s else s.state.position))
        × ((poll s).machine.target ≡ (if jogging then jogged s else s.machine.target))
        × ((poll s).state.machine_state ≡ (if jogging then mc_moving else mc_idle))
  unfolding poll
  poll-idle s on stopped free reached near = elim (Bool-cases (is_jogging s.machine.jog_vel)) [
    | inl j ↦
        rw
          (
            idle_start s on stopped free,
            jog_moves (idle s) j refl,
            approach_near (moved (idle s)) near,
            stopped,
            j,
          )
          (refl, refl, refl)
    | inr j ↦
        rw
          (
            idle_start s on stopped free,
            jog_stands (idle s) j,
            approach_near (idle s) reached,
            stopped,
            j,
          )
          (refl, refl, refl)
  ]

  -- A step moves the machine even with the drives off, and the machine is then reported as running: the
  -- next poll goes on by the speed and the override in the direction of the target.
  jog_step-off :
      (distance : Axes W) (speed : W) (s : Sim W)
      → s.machine.control_on ≡ false
      → is_far (add s.state.position distance) s.state.position ≡ true
      → let after = poll (jog_step distance speed s).1 in
        let way = sub (add s.state.position distance) s.state.position in
        (after.state.machine_state ≡ mc_running)
        × (after.state.position
            ≡ add s.state.position
                (scale (divide way (length way)) (d.mul speed s.machine.feed_override)))
  unfolding jog_step
  jog_step-off distance speed s off far = poll_far (jog_step distance speed s).1 off far
