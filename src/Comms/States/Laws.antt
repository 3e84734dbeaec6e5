-- ===== src/Comms/States/Laws.antt =====
-- The layout of `State` on the wire (include/cnccomms.h) loses nothing.
use cncremote.Prelude.{◌≡◌, List, ◌∷◌, some}
use cncremote.Comms.{State, new_state}
use cncremote.Comms.Arithmetic.{Double}
use cncremote.Comms.Wire.{Wire, member-pack}
use cncremote.Comms.Messages.{axes, bool_axes}
use cncremote.Comms.States.{
  state_array, take_members_1, take_members_2, take_members_3, take_members_4, fill_state,
  pack_state, unpack_state,
}

module _ {W : Type 0} ⦃d : Double W⦄ (w : Wire W) where
  members_1 :
      (s old : State W) (rest : List w.Any)
      → take_members_1 w
          ((axes w).pack s.machine_pos
            ∷ (axes w).pack s.position
            ∷ w.real.pack s.feed_override
            ∷ w.bool.pack s.feed_hold
            ∷ w.bool.pack s.optional_stop
            ∷ w.bool.pack s.block_delete
            ∷ w.control_state.pack s.machine_state
            ∷ rest)
          old
        ≡ some (
          record old {
            machine_pos = s.machine_pos;
            position = s.position;
            feed_override = s.feed_override;
            feed_hold = s.feed_hold;
            optional_stop = s.optional_stop;
            block_delete = s.block_delete;
            machine_state = s.machine_state;
          },
          rest,
        )
  unfolding take_members_1
  members_1 s old rest = simp member-pack

  members_2 :
      (s old : State W) (rest : List w.Any)
      → take_members_2 w
          (w.int.pack s.current_line
            ∷ w.bool.pack s.single_step
            ∷ w.real.pack s.spindle_cmd
            ∷ w.real.pack s.spindle_actual
            ∷ w.spindle_state.pack s.spindle_state
            ∷ w.bool.pack s.mist
            ∷ w.bool.pack s.flood
            ∷ rest)
          old
        ≡ some (
          record old {
            current_line = s.current_line;
            single_step = s.single_step;
            spindle_cmd = s.spindle_cmd;
            spindle_actual = s.spindle_actual;
            spindle_state = s.spindle_state;
            mist = s.mist;
            flood = s.flood;
          },
          rest,
        )
  unfolding take_members_2
  members_2 s old rest = simp member-pack

  members_3 :
      (s old : State W) (rest : List w.Any)
      → take_members_3 w
          ((bool_axes w).pack s.homed
            ∷ (bool_axes w).pack s.axis_angular
            ∷ w.nat.pack s.error_count
            ∷ w.nat.pack s.message_count
            ∷ w.real.pack s.max_feed_lin
            ∷ w.real.pack s.max_feed_ang
            ∷ w.real.pack s.gcode_units
            ∷ rest)
          old
        ≡ some (
          record old {
            homed = s.homed;
            axis_angular = s.axis_angular;
            error_count = s.error_count;
            message_count = s.message_count;
            max_feed_lin = s.max_feed_lin;
            max_feed_ang = s.max_feed_ang;
            gcode_units = s.gcode_units;
          },
          rest,
        )
  unfolding take_members_3
  members_3 s old rest = simp member-pack

  members_4 :
      (s old : State W) (rest : List w.Any)
      → take_members_4 w
          (w.real.pack s.spindle_override
            ∷ w.real.pack s.rapid_override
            ∷ w.real.pack s.feed_cmd
            ∷ w.real.pack s.feed_actual
            ∷ w.int.pack s.tool
            ∷ w.text.pack s.interp_state
            ∷ w.nat.pack s.file_count
            ∷ rest)
          old
        ≡ some (
          record old {
            spindle_override = s.spindle_override;
            rapid_override = s.rapid_override;
            feed_cmd = s.feed_cmd;
            feed_actual = s.feed_actual;
            tool = s.tool;
            interp_state = s.interp_state;
            file_count = s.file_count;
          },
          rest,
        )
  unfolding take_members_4
  members_4 s old rest = simp member-pack

  state-pack : (s blank : State W) → fill_state w (state_array w s) blank ≡ some s
  unfolding fill_state state_array
  state-pack s blank = rw (members_1 s) (rw (members_2 s) (rw (members_3 s) (rw (members_4 s))))

  -- A `State` comes out of the wire as it went in, all of its 28 members.
  pub unpack_state-pack_state : (s : State W) → unpack_state w (pack_state w s) ≡ some s
  unfolding pack_state unpack_state
  unpack_state-pack_state s = rw (w.list.unpack-pack (state_array w s)) (state-pack s new_state)
