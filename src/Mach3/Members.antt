-- ===== src/Mach3/Members.antt =====
-- The other members of `MachServer` (drivers/Mach3/MachServer.cpp), and the driver that they make.
pub mod Laws
use cncremote.Prelude.{
  ℕ, zero as nat_zero, suc, ℤ, pos, leb_ℤ, leb, ltb, Bool, true, false, not, ◌&&◌, ◌||◌, Bytes,
  List, [], ◌∷◌, get_elem?, Option, none, some, Exec, ok, pure, crash, out_of_range, overlap,
  is_empty, c_string, if◌then◌else◌,
}
use cncremote.Comms.{ControlState, mc_off, mc_idle, mc_running, rank}
use cncremote.Comms.Arithmetic.{Double}
use cncremote.Comms.Vectors.{Axes, fill, map_axes, zip_axes}
use cncremote.Server.{Server, Driver}
use cncremote.Mach3.{World, Mach, Server3}
use cncremote.Mach3.Polling.{any_axis, same_bool, update_state, jog_vel}

-- The codes of an array that are not negative, from an index on for a number of rounds.
unfoldable pub collect : ℕ → ℕ → List ℤ → Option (List ℤ)
collect nat_zero i codes = some []
collect (suc rounds) i codes =
    let rest = collect rounds (suc i) codes in
    elim (get_elem? codes i) [
      | none ↦ none
      | some a ↦ elim rest [
        | none ↦ none
        | some more ↦ some (if leb_ℤ (pos 0) a then a ∷ more else more)
      ]
    ]

-- RS274NGC_ACTIVE_G_CODES, which bounds both loops.
abbrev active_codes : ℕ
active_codes = 13

abbrev pub Does : Type 0 → Type 0 → Type 0 → Type 0
Does W C A = Exec (Server W (Server3 W C)) A

module _ {W C : Type 0} where
  abbrev pub with_world : World W C → Server W (Server3 W C) → Server W (Server3 W C)
  with_world v s = record s { machine = record machine { world = v } }
    where
      open s use {machine}

  abbrev pub does : (World W C → World W C) → Does W C (Unit {0})
  does f s = (ok tt, with_world (f s.machine.world) s)

  abbrev collected : Option (List ℤ) → Does W C (List ℤ)
  collected none = crash out_of_range
  collected (some codes) = pure codes

  unfoldable pub get_g_codes : Does W C (List ℤ)
  unfolding collect
  get_g_codes s = collected (collect active_codes 0 s.machine.world.shared.active_g_codes) s

  unfoldable pub get_m_codes : Does W C (List ℤ)
  unfolding collect
  get_m_codes s = collected (collect active_codes 0 s.machine.world.shared.active_m_codes) s

  abbrev pub mode : Server W (Server3 W C) → ControlState
  mode s = s.state.machine_state

  -- `state->machineState >= mcRUNNING`
  abbrev pub is_busy : Server W (Server3 W C) → Bool
  is_busy s = leb (rank mc_running) (rank (mode s))

  module _ ⦃d : Double W⦄ (m : Mach W C) where
    -- A button that toggles is pressed if the light is not as it is to be.
    abbrev pub toggle : ℕ → ℕ → Bool → World W C → World W C
    toggle button led state v =
        if same_bool (m.get_led led v) state then v else m.do_button button v

    unfoldable pub drives_on : Bool → Does W C (Unit {0})
    drives_on state s =
        if same_bool state (ltb (rank mc_off) (rank (mode s)))
        then (ok tt, s)
        else does (m.do_button 1021) s

    -- `JogStep`, whose body is a comment.
    unfoldable pub jog_step : Axes W → W → Does W C (Unit {0})
    jog_step distance speed s = (ok tt, s)

    unfoldable pub mdi : Bytes → Does W C Bool
    mdi line s =
        if leb (rank (mode s)) (rank mc_off) || is_busy s
        then (ok false, s)
        else (ok true, with_world (m.code (c_string line) s.machine.world) s)

    abbrev hundredfold : W → W
    hundredfold percent = d.mul percent (d.literal (pos 100) 1)

    unfoldable pub spindle_override : W → Does W C (Unit {0})
    spindle_override percent = does (m.set_dro 74 (hundredfold percent))

    unfoldable pub feed_override : W → Does W C (Unit {0})
    feed_override percent = does (m.set_dro 821 (hundredfold percent))

    unfoldable pub rapid_override : W → Does W C (Unit {0})
    rapid_override percent = does (m.set_dro 223 (hundredfold percent))

    -- The lock is taken a second time while it is held, which is taken to return.
    unfoldable pub close_file : Does W C Bool
    close_file s =
        if is_busy s
        then (ok false, s)
        else (ok true, with_world (m.do_button 169 s.machine.world) s)

    unfoldable pub cycle_start : Does W C (Unit {0})
    cycle_start = does (m.do_button 1000)

    unfoldable pub cycle_stop : Does W C (Unit {0})
    cycle_stop = does λ v. m.do_button 1002 (m.do_button 1003 v)

    unfoldable pub feed_hold : Bool → Does W C (Unit {0})
    feed_hold state = does (toggle 1001 111 state)

    unfoldable pub block_delete : Bool → Does W C (Unit {0})
    block_delete state = does (toggle 176 66 state)

    unfoldable pub single_step : Bool → Does W C (Unit {0})
    single_step state = does λ v. m.set_led 82 state (toggle 1004 82 state v)

    unfoldable pub optional_stop : Bool → Does W C (Unit {0})
    optional_stop state = does λ v. toggle 177 65 state (m.set_led 65 state v)

    abbrev pub every : Axes Bool → Bool
    every v = v.x && v.y && v.z && v.a && v.b && v.c

    -- `sprintf(buf, "%s …", buf, …)` reads and writes the same array, from the first axis that is asked for.
    unfoldable pub home : Axes Bool → Does W C (Unit {0})
    home axes =
        if every axes
        then does (m.do_button 105)
        else if any_axis axes
        then crash overlap
        else pure tt

    abbrev offset : ℕ → World W C → Axes W
    offset (suc nat_zero) v = v.shared.axis_words
    offset (suc (suc nat_zero)) v = v.shared.origin_words
    offset _ v = fill d.nought

    unfoldable pub get_offset : ℕ → Does W C (Axes W)
    get_offset index s = (ok (offset index s.machine.world), s)

    abbrev pub loading : Bytes → Server W (Server3 W C) → Server W (Server3 W C)
    loading path s = record s {
      state = record state { machine_state = mc_running };
      machine = record machine { file_path = path };
    }
      where
        open s use {state, machine}

    abbrev load_wide : Option Bytes → Does W C Bool
    load_wide none s = (ok false, record s { machine = record (s.machine) { file_path = [] } })
    load_wide (some path) s = (ok true, loading path s)

    -- `LoadFile`, which starts a thread that runs `LoadThread` if it returns true.
    unfoldable pub load_file : Bytes → Does W C Bool
    load_file file s =
        if not s.machine.has_scripter || is_busy s
        then (ok false, s)
        else load_wide (m.wide (c_string file)) s

    abbrev invoked : Server3 W C → World W C
    invoked e = if e.has_app then m.load (e.file_path) e.world else e.world

    -- `LoadThread`, which holds the state's lock from its test on.
    unfoldable pub load_thread : Server W (Server3 W C) → Server W (Server3 W C)
    load_thread s =
        if s.machine.running && not (is_empty s.machine.file_path)
        then record s {
          state = record state { machine_state = mc_idle };
          machine = record machine { world = invoked machine; file_path = [] };
        }
        else s
      where
        open s use {state, machine}

    -- The driver, which has no preview.
    unfoldable pub mach : Driver W (Server3 W C)
    mach = record {
      update_state = update_state m;
      drives_on = drives_on;
      jog_vel = jog_vel m;
      jog_step = jog_step;
      mdi = mdi;
      spindle_override = spindle_override;
      feed_override = feed_override;
      rapid_override = rapid_override;
      load_file = load_file;
      close_file = close_file;
      cycle_start = cycle_start;
      cycle_stop = cycle_stop;
      feed_hold = feed_hold;
      block_delete = block_delete;
      single_step = single_step;
      optional_stop = optional_stop;
      home = home;
      get_offset = get_offset;
      get_g_codes = get_g_codes;
      get_m_codes = get_m_codes;
      start_preview = λ size. pure false;
      get_preview = pure [];
      end_preview = pure tt;
    }
