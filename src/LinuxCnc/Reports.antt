-- ===== src/LinuxCnc/Reports.antt =====
-- `UpdateState` and `Poll` of drivers/linuxcnc/server/linuxcnc.cpp, and the driver.
pub mod Laws
use cncremote.Prelude.{
  ℕ, zero as nat_zero, suc, ℤ, pos, negsuc, ◌+ℤ◌, ltb_ℤ, ◌==◌, Bool, true, false, not, ◌&&◌, ◌||◌,
  Bytes, codes, c_string, List, [], take, Option, none, some, Exec, Result, ok, raised, undefined,
  pure, continue, ◌>>=◌, ◌>>◌, if◌then◌else◌,
}
use cncremote.Comms.{
  State, SpindleState, spin_off, spin_fwd, spin_rev, ControlState, mc_offline, mc_off, mc_idle,
  mc_moving, mc_mdi, mc_running,
}
use cncremote.Comms.Arithmetic.{Double}
use cncremote.Comms.Vectors.{Axes, zip_axes}
use cncremote.Server.{Server, Driver}
use cncremote.Server.Logs.{log_error, log_message}
use cncremote.LinuxCnc.{
  TaskMode, mdi, Status, Controller, Lcnc, NewsKind, error_text, message_text, unknown_text, News,
  unreadable, nothing, arrived,
}
use cncremote.LinuxCnc.Channel.{same_mode, status}
use cncremote.LinuxCnc.Members

-- Any other value leaves the state as it is.
abbrev spindle_state : ℤ → SpindleState → SpindleState
spindle_state (pos nat_zero) old = spin_off
spindle_state (pos (suc nat_zero)) old = spin_fwd
spindle_state (negsuc nat_zero) old = spin_rev
spindle_state _ old = old

module _ {W : Type 0} ⦃d : Double W⦄ where
  abbrev pub machine_state : Status W → ControlState
  machine_state t =
      if not t.task_on
      then mc_off
      else if t.interp_busy
      then (if same_mode t.mode mdi then mc_mdi else mc_running)
      else if d.eq t.current_vel d.nought
      then mc_idle
      else mc_moving

  abbrev per_minute : W → W → W
  per_minute speed units = d.div (d.mul speed (d.literal (pos 60) 1)) units

  -- What `UpdateState` copies out of the status; `ZeroJog` does nothing.
  unfoldable pub report : Status W → W → W → State W → State W
  report t lin ang st = record st {
    machine_pos = zip_axes d.div t.actual_position t.units;
    position =
        zip_axes d.div (zip_axes d.sub (zip_axes d.sub t.actual_position t.g5x_offset) t.g92_offset)
          t.units;
    machine_state = machine_state t;
    spindle_state = spindle_state t.spindle_enabled st.spindle_state;
    spindle_cmd = t.spindle_speed;
    spindle_actual = t.spindle_speed;
    feed_hold = t.task_paused;
    max_feed_lin = per_minute lin t.linear_units;
    max_feed_ang = per_minute ang t.angular_units;
    optional_stop = t.optional_stop;
    block_delete = t.block_delete;
    mist = t.mist;
    flood = t.flood;
    current_line = t.motion_line;
    homed = t.homed;
    gcode_units = t.linear_units;
  }

  module _ {C : Type 0} (ctl : Controller W C) where
    -- `OK`
    abbrev pub is_ok : Lcnc W C → Bool
    is_ok l = l.has_status && ctl.is_valid l.channel

    -- `DisconnectNml`
    abbrev pub disconnect_nml : Lcnc W C → Lcnc W C
    disconnect_nml l = record l { has_status = false; channel = ctl.disconnect channel }
      where
        open l use {channel}

    abbrev offline : State W → State W
    offline st = record st { machine_state = mc_offline }

    abbrev reported : State W × Lcnc W C → State W × Lcnc W C
    reported (st, l) = (report (status ctl l) l.max_speed_lin l.max_speed_ang st, l)

    abbrev beats : Lcnc W C → Bool
    beats l = not (l.heartbeat == (status ctl l).heartbeat)

    -- The check each second that LinuxCNC is alive.
    abbrev checked : ℤ → State W × Lcnc W C → State W × Lcnc W C
    checked now (st, l) =
        if ltb_ℤ l.next_time now
        then (if beats l
            then reported
                (st, record l { heartbeat = (status ctl l).heartbeat; next_time = now +ℤ pos 1 })
            else (offline st, disconnect_nml l))
        else reported (st, l)

    abbrev looked : ℤ → Bool × C → State W × Lcnc W C → State W × Lcnc W C
    looked now (failed, c) (st, l) =
        if failed
        then (st, record l { channel = c })
        else checked now (st, record l { channel = c })

    abbrev pub updated : ℤ → State W × Lcnc W C → State W × Lcnc W C
    updated now (st, l) =
        if not l.has_status
        then (offline st, l)
        else if not (is_ok l)
        then (st, l)
        else looked now (ctl.peek l.channel) (st, l)

    -- `UpdateState` at the time `now`, in seconds.
    unfoldable pub update_state : ℤ → Exec (Server W (Lcnc W C)) (Unit {0})
    unfolding report ◌+ℤ◌
    update_state now s =
        let r = updated now (s.state, s.machine) in (ok tt, record s { state = r.0; machine = r.1 })

    abbrev pub log : NewsKind → Bytes → Exec (Server W (Lcnc W C)) (Unit {0})
    log error_text text = log_error (take ctl.line_len (c_string text))
    log message_text text = log_message (take ctl.line_len (c_string text))
    log unknown_text text = log_error (codes "Unknown error")

    abbrev pub is_last : Option ℕ → ℕ → Bool
    is_last none address = false
    is_last (some last) address = last == address

    abbrev pub told : ℕ → NewsKind → Bytes → Exec (Server W (Lcnc W C)) Bool
    told address kind text s =
        if is_last s.machine.last_message address
        then (ok true, s)
        else (do log kind text; pure true)
            (record s { machine = record (s.machine) { last_message = some address } })

    abbrev pub read_news : News → Exec (Server W (Lcnc W C)) Bool
    read_news unreadable s = (ok true, s)
    read_news nothing s = (ok true, s)
    read_news (arrived address kind text) s = told address kind text s

    -- `Poll`
    unfoldable pub poll : Exec (Server W (Lcnc W C)) Bool
    poll s =
        if not (is_ok s.machine) then (ok false, s) else read_news (ctl.news s.machine.channel) s

    -- The driver, which has no preview of its own.
    unfoldable pub lcnc : ℤ → Driver W (Lcnc W C)
    unfolding update_state
    lcnc now = record {
      update_state = update_state now;
      drives_on = Members.drives_on ctl;
      jog_vel = Members.jog_vel ctl;
      jog_step = Members.jog_step ctl;
      mdi = Members.mdi ctl;
      spindle_override = Members.spindle_override ctl;
      feed_override = Members.feed_override ctl;
      rapid_override = Members.rapid_override ctl;
      load_file = Members.load_file ctl;
      close_file = Members.close_file ctl;
      cycle_start = Members.cycle_start ctl;
      cycle_stop = Members.cycle_stop ctl;
      feed_hold = Members.feed_hold ctl;
      block_delete = Members.block_delete ctl;
      single_step = Members.single_step ctl;
      optional_stop = Members.optional_stop ctl;
      home = Members.home ctl;
      get_offset = Members.get_offset ctl;
      get_g_codes = Members.get_g_codes ctl;
      get_m_codes = Members.get_m_codes ctl;
      start_preview = λ size. pure false;
      get_preview = pure [];
      end_preview = pure tt;
    }
