-- ===== src/LinuxCnc/Members.antt =====
-- The members of `LinuxCnc` that the server calls (drivers/linuxcnc/server/linuxcnc.cpp).
use cncremote.Prelude.{
  ℕ, zero as nat_zero, suc, ℤ, pos, negsuc, ◌-◌, leb_ℤ, Bool, true, false, not, ◌&&◌, Bytes, List,
  [], ◌∷◌, take, c_string, Exec, ok, if◌then◌else◌,
}
use cncremote.Comms.Arithmetic.{Double}
use cncremote.Comms.Vectors.{Axes, zero, zip_axes}
use cncremote.Server.{Server}
use cncremote.LinuxCnc.{
  estop_reset, off, on, manual, auto, mdi as mdi_mode, set_state, teleop_enable, plan_execute,
  plan_open, plan_run, plan_pause, plan_resume, plan_step, set_block_delete, set_optional_stop,
  set_spindle_scale, set_scale, set_rapid_scale, abort, joint_home, Controller, Lcnc,
}
use cncremote.LinuxCnc.Channel.{command_send, send, set_mode, send_jog_vel, send_jog_step, status}

abbrev pub listed : List ℤ → List ℤ
listed [] = []
listed (n ∷ ns) = if leb_ℤ (pos 0) n then n ∷ listed ns else listed ns

module _ {W C : Type 0} ⦃d : Double W⦄ (ctl : Controller W C) where
  abbrev pub Does : Type 0 → Type 0
  Does A = Exec (Server W (Lcnc W C)) A

  -- `if(!m_emcStatus) return;`
  abbrev if_status : {A : Type 0} → A → (Lcnc W C → A × Lcnc W C) → Does A
  if_status blank f s =
      if s.machine.has_status
      then (ok (f s.machine).0, record s { machine = (f s.machine).1 })
      else (ok blank, s)

  abbrev pub does : (Lcnc W C → Lcnc W C) → Does (Unit {0})
  does f = if_status tt λ l. (tt, f l)

  -- Into an array of LINELEN bytes, the last of which is NUL.
  abbrev pub line : Bytes → Bytes
  line text = take (ctl.line_len - 1) (c_string text)

  unfoldable pub drives_on : Bool → Does (Unit {0})
  drives_on state = does λ l.
      if state
      then send ctl (set_state on) (send ctl (set_state estop_reset) l)
      else send ctl (set_state off) l

  unfoldable pub jog_vel : Axes W → Does (Unit {0})
  jog_vel velocities = does λ l. send_jog_vel ctl velocities (set_mode ctl manual l)

  abbrev step_if : ℕ → W → Lcnc W C → Lcnc W C
  step_if axis val l = if not (d.eq val d.nought) then send_jog_step ctl axis val l else l

  abbrev steps : Axes W → Bool × Lcnc W C → Lcnc W C
  steps v (false, l) = l
  steps v (true, l) =
      step_if 5 v.c
        (step_if 4 v.b (step_if 3 v.a (step_if 2 v.z (step_if 1 v.y (step_if 0 v.x l)))))

  -- The speed is not used.
  unfoldable pub jog_step : Axes W → W → Does (Unit {0})
  jog_step distance speed =
      does λ l. steps distance (command_send ctl (teleop_enable true) (set_mode ctl manual l))

  unfoldable pub mdi : Bytes → Does Bool
  mdi text =
      if_status false λ l. command_send ctl (plan_execute (line text)) (set_mode ctl mdi_mode l)

  abbrev not_negative : W → W
  not_negative percent = if d.lt percent d.nought then d.nought else percent

  unfoldable pub spindle_override : W → Does (Unit {0})
  spindle_override percent = does λ l. send ctl (set_spindle_scale (not_negative percent)) l

  unfoldable pub feed_override : W → Does (Unit {0})
  feed_override percent = does λ l. send ctl (set_scale (not_negative percent)) l

  unfoldable pub rapid_override : W → Does (Unit {0})
  rapid_override percent = does λ l. send ctl (set_rapid_scale (not_negative percent)) l

  unfoldable pub load_file : Bytes → Does Bool
  load_file file = if_status false λ l. command_send ctl (plan_open (line file)) l

  unfoldable pub close_file : Does Bool
  close_file = if_status false λ l. command_send ctl (plan_open []) l

  unfoldable pub cycle_start : Does (Unit {0})
  cycle_start = does λ l. send ctl (plan_run (pos 0)) (set_mode ctl auto l)

  unfoldable pub cycle_stop : Does (Unit {0})
  cycle_stop = does λ l. send ctl abort l

  unfoldable pub feed_hold : Bool → Does (Unit {0})
  feed_hold state = does λ l. if state then send ctl plan_pause l else send ctl plan_resume l

  unfoldable pub block_delete : Bool → Does (Unit {0})
  block_delete state = does λ l. send ctl (set_block_delete state) l

  unfoldable pub single_step : Bool → Does (Unit {0})
  single_step state = does λ l. send ctl plan_step l

  unfoldable pub optional_stop : Bool → Does (Unit {0})
  optional_stop state = does λ l. send ctl (set_optional_stop state) l

  -- `for (ct = first; ct < first + count; ct++)`
  abbrev home_each : ℕ → ℕ → Lcnc W C → Lcnc W C
  home_each nat_zero first l = l
  home_each (suc count) first l = home_each count (suc first) (send ctl (joint_home (pos first)) l)

  unfoldable pub home : Axes Bool → Does (Unit {0})
  home axes = does λ l.
      let l' = send ctl (teleop_enable true) (set_mode ctl manual l) in
      if axes.x && axes.y && axes.z then send ctl (joint_home (negsuc 0)) l' else home_each 6 0 l'

  abbrev in_units : Lcnc W C → Axes W → Axes W
  in_units l pose = zip_axes d.div pose (status ctl l).units

  abbrev offset : ℕ → Lcnc W C → Axes W
  offset nat_zero l = in_units l (status ctl l).tool_offset
  offset (suc nat_zero) l = in_units l (status ctl l).g5x_offset
  offset (suc (suc nat_zero)) l = in_units l (status ctl l).g92_offset
  offset _ l = zero

  unfoldable pub get_offset : ℕ → Does (Axes W)
  unfolding zero
  get_offset index = if_status zero λ l. (offset index l, l)

  unfoldable pub get_g_codes : Does (List ℤ)
  get_g_codes = if_status [] λ l. (listed (status ctl l).active_g_codes, l)

  unfoldable pub get_m_codes : Does (List ℤ)
  get_m_codes = if_status [] λ l. (listed (status ctl l).active_m_codes, l)
