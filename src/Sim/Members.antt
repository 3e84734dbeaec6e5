-- ===== src/Sim/Members.antt =====
-- The members of `Sim` that the server calls (drivers/Sim/server/sim.cpp), and the driver they make.
use cncremote.Prelude.{
  ℕ, ℤ, pos, Bool, true, false, Bytes, codes, List, [], ◌∷◌, ◌++◌, Exec, ok, pure, ◌>>◌,
  if◌then◌else◌,
}
use cncremote.Comms.{State, ControlState, mc_idle, mc_mdi}
use cncremote.Comms.Arithmetic.{Double}
use cncremote.Comms.Vectors.{Axes, zero, add, zip_axes}
use cncremote.Server.{Driver}
use cncremote.Server.Logs.{log_message}
use cncremote.Sim.{Sim, Machine}

abbrev pub Does : Type 0 → Type 0 → Type 0
Does W A = Exec (Sim W) A

abbrev takes_mdi : ControlState → Bool
takes_mdi mc_idle = true
takes_mdi mc_mdi = true
takes_mdi _ = false

abbrev pub set_where : Bool → Bool → Bool
set_where asked old = if asked then true else old

module _ {W : Type 0} ⦃d : Double W⦄ where
  abbrev pub with_machine : (Machine W → Machine W) → Sim W → Sim W
  with_machine f s = record s { machine = f s.machine }

  abbrev pub with_state : (State W → State W) → Sim W → Sim W
  with_state f s = record s { state = f s.state }

  -- `UpdateState` is empty.
  unfoldable pub update_state : Does W (Unit {0})
  update_state = pure tt

  abbrev stop_at : Axes W → Machine W → Machine W
  stop_at position m = record m { running = false; jog_vel = zero; target = position }

  abbrev set_control : Bool → Machine W → Machine W
  set_control status m = record m { control_on = status }

  unfoldable pub drives_on : Bool → Does W (Unit {0})
  unfolding zero
  drives_on status s =
      if status
      then (ok tt, with_machine (set_control status) s)
      else (ok tt, with_machine (λ m. stop_at s.state.position (set_control status m)) s)

  unfoldable pub jog_vel : Axes W → Does W (Unit {0})
  jog_vel velocities s = (ok tt, with_machine (λ m. record m { jog_vel = velocities }) s)

  unfoldable pub jog_step : Axes W → W → Does W (Unit {0})
  unfolding add
  jog_step distance speed s = (
    ok tt,
    with_machine (λ m. record m { target = add s.state.position distance; feed_rate = speed }) s,
  )

  abbrev mdi_taken : Does W Bool
  mdi_taken s = (ok (takes_mdi s.state.machine_state), s)

  unfoldable pub mdi : Bytes → Does W Bool
  unfolding log_message
  mdi line = do log_message (codes "MDI:" ++ line); mdi_taken

  unfoldable pub spindle_override : W → Does W (Unit {0})
  spindle_override percent s =
      (ok tt, with_machine (λ m. record m { spindle_override = percent }) s)

  unfoldable pub feed_override : W → Does W (Unit {0})
  feed_override percent s = (ok tt, with_machine (λ m. record m { feed_override = percent }) s)

  unfoldable pub feed_hold : Bool → Does W (Unit {0})
  feed_hold status s = (ok tt, with_state (λ st. record st { feed_hold = status }) s)

  unfoldable pub block_delete : Bool → Does W (Unit {0})
  block_delete status s = (ok tt, with_state (λ st. record st { block_delete = status }) s)

  unfoldable pub single_step : Bool → Does W (Unit {0})
  single_step status s = (ok tt, with_state (λ st. record st { single_step = status }) s)

  unfoldable pub optional_stop : Bool → Does W (Unit {0})
  optional_stop status s = (ok tt, with_state (λ st. record st { optional_stop = status }) s)

  unfoldable pub home : Axes Bool → Does W (Unit {0})
  home axes s = (ok tt, with_state (λ st. record st { homed = zip_axes set_where axes st.homed }) s)

  unfoldable pub get_offset : ℕ → Does W (Axes W)
  unfolding zero
  get_offset index = pure zero

  unfoldable pub get_g_codes : Does W (List ℤ)
  get_g_codes = pure (pos 90 ∷ pos 0 ∷ [])

  unfoldable pub get_m_codes : Does W (List ℤ)
  get_m_codes = pure (pos 3 ∷ [])

  -- The members that only print are `pure`; those of the preview are the server's own.
  unfoldable pub sim : Driver W (Machine W)
  unfolding update_state
  sim = record {
    update_state = update_state;
    drives_on = drives_on;
    jog_vel = jog_vel;
    jog_step = jog_step;
    mdi = mdi;
    spindle_override = spindle_override;
    feed_override = feed_override;
    rapid_override = λ percent. pure tt;
    load_file = λ file. pure true;
    close_file = pure true;
    cycle_start = pure tt;
    cycle_stop = pure tt;
    feed_hold = feed_hold;
    block_delete = block_delete;
    single_step = single_step;
    optional_stop = optional_stop;
    home = home;
    get_offset = get_offset;
    get_g_codes = get_g_codes;
    get_m_codes = get_m_codes;
    start_preview = λ size. pure false;
    get_preview = pure [];
    end_preview = pure tt;
  }
