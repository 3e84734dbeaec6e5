-- ===== src/Comms/States.antt =====
-- `State` of include/cnccomms.h on the wire, an array of its members.
pub mod Laws
use cncremote.Prelude.{List, [], ◌∷◌, Option, some}
use cncremote.Comms.{State, new_state}
use cncremote.Comms.Arithmetic.{Double}
use cncremote.Comms.Wire.{Wire, ◌>>=◌, member}
use cncremote.Comms.Messages.{axes, bool_axes}

module _ {W : Type 0} ⦃d : Double W⦄ (w : Wire W) where
  -- MSGPACK_DEFINE_ARRAY(machinePos, position, ..., fileCount)
  unfoldable pub state_array : State W → List w.Any
  state_array s =
      (axes w).pack s.machine_pos
      ∷ (axes w).pack s.position
      ∷ w.real.pack s.feed_override
      ∷ w.bool.pack s.feed_hold
      ∷ w.bool.pack s.optional_stop
      ∷ w.bool.pack s.block_delete
      ∷ w.control_state.pack s.machine_state
      ∷ w.int.pack s.current_line
      ∷ w.bool.pack s.single_step
      ∷ w.real.pack s.spindle_cmd
      ∷ w.real.pack s.spindle_actual
      ∷ w.spindle_state.pack s.spindle_state
      ∷ w.bool.pack s.mist
      ∷ w.bool.pack s.flood
      ∷ (bool_axes w).pack s.homed
      ∷ (bool_axes w).pack s.axis_angular
      ∷ w.nat.pack s.error_count
      ∷ w.nat.pack s.message_count
      ∷ w.real.pack s.max_feed_lin
      ∷ w.real.pack s.max_feed_ang
      ∷ w.real.pack s.gcode_units
      ∷ w.real.pack s.spindle_override
      ∷ w.real.pack s.rapid_override
      ∷ w.real.pack s.feed_cmd
      ∷ w.real.pack s.feed_actual
      ∷ w.int.pack s.tool
      ∷ w.text.pack s.interp_state
      ∷ w.nat.pack s.file_count
      ∷ []

  take_members_1 : List w.Any → State W → Option (State W × List w.Any)
  take_members_1 e0 s = do
    (v1, e1) ← member (axes w) e0 s.machine_pos
    (v2, e2) ← member (axes w) e1 s.position
    (v3, e3) ← member w.real e2 s.feed_override
    (v4, e4) ← member w.bool e3 s.feed_hold
    (v5, e5) ← member w.bool e4 s.optional_stop
    (v6, e6) ← member w.bool e5 s.block_delete
    (v7, e7) ← member w.control_state e6 s.machine_state
    some (
      record s {
        machine_pos = v1;
        position = v2;
        feed_override = v3;
        feed_hold = v4;
        optional_stop = v5;
        block_delete = v6;
        machine_state = v7;
      },
      e7,
    )

  take_members_2 : List w.Any → State W → Option (State W × List w.Any)
  take_members_2 e0 s = do
    (v1, e1) ← member w.int e0 s.current_line
    (v2, e2) ← member w.bool e1 s.single_step
    (v3, e3) ← member w.real e2 s.spindle_cmd
    (v4, e4) ← member w.real e3 s.spindle_actual
    (v5, e5) ← member w.spindle_state e4 s.spindle_state
    (v6, e6) ← member w.bool e5 s.mist
    (v7, e7) ← member w.bool e6 s.flood
    some (
      record s {
        current_line = v1;
        single_step = v2;
        spindle_cmd = v3;
        spindle_actual = v4;
        spindle_state = v5;
        mist = v6;
        flood = v7;
      },
      e7,
    )

  take_members_3 : List w.Any → State W → Option (State W × List w.Any)
  take_members_3 e0 s = do
    (v1, e1) ← member (bool_axes w) e0 s.homed
    (v2, e2) ← member (bool_axes w) e1 s.axis_angular
    (v3, e3) ← member w.nat e2 s.error_count
    (v4, e4) ← member w.nat e3 s.message_count
    (v5, e5) ← member w.real e4 s.max_feed_lin
    (v6, e6) ← member w.real e5 s.max_feed_ang
    (v7, e7) ← member w.real e6 s.gcode_units
    some (
      record s {
        homed = v1;
        axis_angular = v2;
        error_count = v3;
        message_count = v4;
        max_feed_lin = v5;
        max_feed_ang = v6;
        gcode_units = v7;
      },
      e7,
    )

  take_members_4 : List w.Any → State W → Option (State W × List w.Any)
  take_members_4 e0 s = do
    (v1, e1) ← member w.real e0 s.spindle_override
    (v2, e2) ← member w.real e1 s.rapid_override
    (v3, e3) ← member w.real e2 s.feed_cmd
    (v4, e4) ← member w.real e3 s.feed_actual
    (v5, e5) ← member w.int e4 s.tool
    (v6, e6) ← member w.text e5 s.interp_state
    (v7, e7) ← member w.nat e6 s.file_count
    some (
      record s {
        spindle_override = v1;
        rapid_override = v2;
        feed_cmd = v3;
        feed_actual = v4;
        tool = v5;
        interp_state = v6;
        file_count = v7;
      },
      e7,
    )

  unfoldable pub fill_state : List w.Any → State W → Option (State W)
  unfolding take_members_1 take_members_2 take_members_3 take_members_4
  fill_state es blank = do
    (s1, r1) ← take_members_1 es blank
    (s2, r2) ← take_members_2 r1 s1
    (s3, r3) ← take_members_3 r2 s2
    (s4, r4) ← take_members_4 r3 s3
    some s4

  unfoldable pub pack_state : State W → w.Any
  pack_state s = w.list.pack (state_array s)

  -- `as<State>()` fills a new `State`.
  unfoldable pub unpack_state : w.Any → Option (State W)
  unpack_state e = do es ← w.list.unpack e; fill_state es new_state
