-- ===== src/EdingCnc/Members.antt =====
-- The members of `EdingCncServer` that send one command or a few
-- (drivers/EdingCNC402/EdingCNC.cpp). Texts are UTF-8 also where the library takes UTF-16.
use cncremote.Prelude.{
  ℕ, zero as nat_zero, suc, ℤ, pos, negsuc, leb, ltb, Bool, true, false, not, ◌&&◌, ◌||◌, Bytes,
  codes, c_string, List, [], Exec, ok, pure, if◌then◌else◌,
}
use cncremote.Comms.Arithmetic.{Double}
use cncremote.Comms.Vectors.{Axes, fill, zero, map_axes}
use cncremote.Server.{Server}
use cncremote.Server.Logs.{log_message}
use cncremote.EdingCnc.{
  CncState, place, ready, exec_error, aborted, running_job, running_line, running_sub,
  running_sub_search, running_line_search, running_handwheel, running_axis_jog, running_ip_jog,
  drive_enable, Command, run_single_line, load_job, start_jog, stop_jog, start_velocity_tracking,
  set_tracking_velocity, stop_tracking, set_output, set_feed_override, set_speed_override,
  pause_job, reset, reset2, single_step_mode, enable_block_delete, enable_optional_stop, Library,
  Eding,
}
use cncremote.EdingCnc.Connection.{linked_only, with_library}

abbrev is_running : CncState → Bool
is_running running_job = true
is_running running_line = true
is_running running_sub = true
is_running running_line_search = true
is_running running_sub_search = true
is_running _ = false

abbrev pub is_jogging : CncState → Bool
is_jogging running_axis_jog = true
is_jogging running_ip_jog = true
is_jogging _ = false

-- `wasMoving` of `JogVel`.
abbrev was_moving : CncState → Bool
was_moving running_axis_jog = true
was_moving running_handwheel = true
was_moving _ = false

-- "drives already on"
abbrev pub is_up : CncState → Bool → Bool
is_up cnc enabled =
    leb (place ready) (place cnc)
    && enabled
    && (ltb (place cnc) (place exec_error) || ltb (place aborted) (place cnc))

abbrev pub every : Axes Bool → Bool
every v = v.x && v.y && v.z && v.a && v.b && v.c

abbrev some_axis : Axes Bool → Bool
some_axis v = v.x || v.y || v.z || v.a || v.b || v.c

module _ {W C : Type 0} (lib : Library W C) where
  abbrev pub Does : Type 0 → Type 0
  Does A = Exec (Server W (Eding W C)) A

  -- A command whose result is not looked at.
  abbrev pub send : Command W → C → C
  send command c = (lib.call command c).1

  abbrev pub does : (C → C) → Does (Unit {0})
  does f = linked_only λ s. (ok tt, with_library (f s.machine.library) s)

  -- A command whose success is returned.
  abbrev pub succeeds : Command W → Does Bool
  succeeds command = linked_only λ s.
      (ok (lib.call command s.machine.library).0, with_library (send command s.machine.library) s)

  abbrev pub drives_off : CncState → C → C
  drives_off cnc c = send (set_output drive_enable (pos 0)) (
      if is_running cnc
      then send pause_job c
      else if is_jogging cnc
      then send (stop_jog (negsuc 0)) c
      else c)

  abbrev no_handwheel : C → C
  no_handwheel c = if lib.is_handwheel c then send stop_tracking c else c

  abbrev drives_up : CncState → C → C
  drives_up cnc c =
      if is_up cnc (lib.output drive_enable c)
      then c
      else no_handwheel (send (set_output drive_enable (pos 1)) (send (reset2 1) c))

  unfoldable pub drives_on : Bool → Does (Unit {0})
  drives_on on = does λ c.
      if lib.em_stop c
      then c
      else if on
      then drives_up (lib.state c) c
      else drives_off (lib.state c) c

  unfoldable pub mdi : Bytes → Does Bool
  mdi line = succeeds (run_single_line (c_string line))

  unfoldable pub spindle_override : W → Does (Unit {0})
  spindle_override percent = does (send (set_speed_override percent))

  unfoldable pub feed_override : W → Does (Unit {0})
  feed_override percent = does (send (set_feed_override percent))

  unfoldable pub rapid_override : W → Does (Unit {0})
  rapid_override percent = log_message (codes "Rapid override not supported")

  unfoldable pub load_file : Bytes → Does Bool
  load_file file = succeeds (load_job (c_string file))

  unfoldable pub close_file : Does Bool
  close_file = succeeds (load_job [])

  unfoldable pub cycle_stop : Does (Unit {0})
  cycle_stop = does λ c. send reset (send pause_job c)

  unfoldable pub feed_hold : Bool → Does (Unit {0})
  feed_hold state = does (send pause_job)

  unfoldable pub block_delete : Bool → Does (Unit {0})
  block_delete state = does (send (enable_block_delete state))

  unfoldable pub single_step : Bool → Does (Unit {0})
  single_step state = does (send (single_step_mode state))

  unfoldable pub optional_stop : Bool → Does (Unit {0})
  optional_stop state = does (send (enable_optional_stop state))

  abbrev home_if : Bool → Bytes → C → C
  home_if asked line c = if asked then send (run_single_line line) c else c

  abbrev home_axes : Axes Bool → C → C
  home_axes axes c =
      let z = home_if axes.z (codes "gosub home_z") c in
      let x = home_if axes.x (codes "gosub home_x") z in
      let y = home_if axes.y (codes "gosub home_y") x in
      let a = home_if axes.a (codes "gosub home_a") y in
      let b = home_if axes.b (codes "gosub home_b") a in home_if axes.c (codes "gosub home_c") b

  -- `Home`, which calls the library only if an axis is asked for.
  unfoldable pub home : Axes Bool → Does (Unit {0})
  home axes =
      if every axes
      then does (send (run_single_line (codes "gosub home_all")))
      else if some_axis axes
      then does (home_axes axes)
      else pure tt

  unfoldable pub get_g_codes : Does (List ℤ)
  get_g_codes = linked_only (pure [])

  unfoldable pub get_m_codes : Does (List ℤ)
  get_m_codes = pure []

  module _ ⦃d : Double W⦄ where
    abbrev pub moves : Axes W → Bool
    moves v = some_axis (map_axes (λ e. not (d.eq e d.nought)) v)

    -- By velocity tracking, if the library has it.
    abbrev track : Axes W → W → Bool → C → C
    track velocities max_feed was c =
        send (set_tracking_velocity (map_axes (λ e. d.mul e max_feed) velocities) (fill true))
          (if not was then send start_velocity_tracking c else c)

    abbrev pub speed : Axes W → W
    speed v =
        let sq = λ (e : W). d.mul e e in
        d.sqrt (
          d.add
            (d.add (d.add (d.add (d.add (d.add d.nought (sq v.x)) (sq v.y)) (sq v.z)) (sq v.a))
              (sq v.b))
            (sq v.c))

    abbrev jog : Axes W → W → Bool → Bool → C → C
    jog velocities max_feed tracking was c =
        if moves velocities
        then (if tracking
            then track velocities max_feed was c
            else send (start_jog velocities (d.mul (speed velocities) max_feed) true) c)
        else if not was
        then c
        else if tracking
        then send stop_tracking c
        else send (stop_jog (negsuc 0)) c

    unfoldable pub jog_vel : Axes W → Does (Unit {0})
    jog_vel velocities = linked_only λ s. (
      ok tt,
      with_library
          (jog velocities s.state.max_feed_lin s.machine.tracking
            (was_moving (lib.state s.machine.library)) s.machine.library)
          s,
    )

    abbrev step : Axes W → W → C → C
    step distance feed c =
        if leb (place (lib.state c)) (place aborted)
        then c
        else send (start_jog distance feed false) c

    unfoldable pub jog_step : Axes W → W → Does (Unit {0})
    jog_step distance speed s =
        if d.lt speed d.nought || d.eq speed d.nought
        then (ok tt, s)
        else does (step distance (d.mul speed s.state.max_feed_lin)) s

    -- Case 4 falls through to the default.
    abbrev offset : ℕ → C → Axes W
    offset nat_zero c = record zero {
      x = (lib.tool_offset c).x;
      y = (lib.tool_offset c).y;
      z = (lib.tool_offset c).z;
    }
    offset (suc nat_zero) c = lib.current_g5x c
    offset (suc (suc nat_zero)) c = lib.g92_offset c
    offset (suc (suc (suc nat_zero))) c = lib.spindle_offset c
    offset _ c = zero

    unfoldable pub get_offset : ℕ → Does (Axes W)
    unfolding zero
    get_offset index = linked_only λ s. (ok (offset index s.machine.library), s)
