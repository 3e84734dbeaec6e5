-- ===== src/Examples/MachServers.antt =====
-- The server for Mach3, whose lights are a function and whose loaded files are a list, the last one first.
use cncremote.Prelude.{
  ℕ, ℤ, pos, negsuc, ◌==◌, ==_refl, ◌≡◌, refl, Bool, true, false, not, Bytes, codes, List, [], ◌∷◌,
  none, some, ok, leb, length, if◌then◌else◌,
}
use cncremote.Sample.{whole_numbers, negate}
use cncremote.Comms.{new_state, mc_idle}
use cncremote.Comms.Vectors.{fill, zip_axes}
use cncremote.Server.{Server}
use cncremote.Mach3.{AxisInfo, World, Mach, AxisData, Server3}
use cncremote.Mach3.Polling.{poll}
use cncremote.Mach3.Polling.Laws.{is_steady, every, poll-IsSteady}
use cncremote.Mach3.Members.{is_busy, load_file, load_thread}
use cncremote.Mach3.Members.Laws.{attempts, load_file-first, polled, load_file-overtaken}

pub record Rest : Type 0 where
  pub lights : ℕ → Bool
  pub loaded : List Bytes

abbrev pub Here : Type 0
Here = World ℤ Rest

abbrev set_light : ℕ → Bool → Here → Here
set_light led b v = record v { rest = record rest { lights = lit } }
  where
    open v use {rest}

    lit : ℕ → Bool
    lit n = if n == led then b else rest.lights n

abbrev press : ℕ → Here → Here
press button v =
    if button == 1001
    then set_light 111 (not (v.rest.lights 111)) v
    else if button == 176
    then set_light 66 (not (v.rest.lights 66)) v
    else v

abbrev pub mach3 : Mach ℤ Rest
mach3 = record {
  do_button = press;
  get_led = λ led v. v.rest.lights led;
  set_led = set_light;
  get_dro = λ dro v. pos 1;
  set_dro = λ dro x v. v;
  code = λ line v. v;
  load = λ path v. record v {
    rest = record { lights = v.rest.lights; loaded = path ∷ v.rest.loaded };
  };
  wide = λ path. if leb (length path) 260 then some path else none;
  negate = negate;
  to_int = λ x. x;
  of_int = λ x. x;
}

abbrev axis : AxisInfo
axis = record {
  index = pos 0;
  cur_velocity = pos 5;
  max_velocity = pos 9;
  acceleration = pos 1;
  dec = false;
  jogging = true;
  jogg_dir = pos 0;
}

abbrev g_codes : List ℤ
g_codes =
    pos 10
    ∷ negsuc 0
    ∷ pos 170
    ∷ pos 400
    ∷ pos 200
    ∷ pos 900
    ∷ pos 940
    ∷ pos 540
    ∷ pos 490
    ∷ pos 990
    ∷ pos 640
    ∷ negsuc 0
    ∷ pos 970
    ∷ []

abbrev m_codes : List ℤ
m_codes = pos 0 ∷ pos 5 ∷ negsuc 0 ∷ pos 9 ∷ negsuc 0 ∷ pos 48 ∷ negsuc 0 ∷ []

abbrev pub world : Here
world = record {
  shared = record {
    axes = fill axis;
    e_stop = false;
    traj_index = pos 4;
    traj_head = pos 4;
    current_units = pos 0;
    display_line = pos 3;
    referenced = fill true;
    pulse_count = pos 1;
    steps_per_axis = fill (pos 2);
    velocities = fill (pos 7);
    accelerations = fill (pos 1);
    axis_words = fill (pos 0);
    origin_words = fill (pos 0);
    active_g_codes = g_codes;
    active_m_codes = m_codes;
  };
  rest = record { lights = λ led. false; loaded = [] };
}

-- An axis that goes forward is to go back.
abbrev back : AxisData ℤ
back = record {
  target_jog = negsuc 3;
  jogging = true;
  acc = pos 1;
  index = pos 0;
  home_speed = pos 0;
}

abbrev pub server : Server ℤ (Server3 ℤ Rest)
server = record {
  disk = record { files = λ _. none; streams = []; space = 0 };
  file = none;
  cur_block = pos 0;
  cur_file = [];
  errors = [];
  messages = [];
  state = record new_state { machine_state = mc_idle };
  machine = record {
    running = true;
    file_path = [];
    has_app = true;
    has_scripter = true;
    jog_axes = fill back;
    world = world;
  };
}

poll-IsSteady_example :
    every (zip_axes is_steady world.shared.axes (poll mach3 server).machine.world.shared.axes)
    ≡ true
poll-IsSteady_example = poll-IsSteady mach3 server

set_light-shows : (led : ℕ) (b : Bool) (v : Here) → (set_light led b v).rest.lights led ≡ b
set_light-shows led b v = rw (==_refl led) refl

abbrev calls : List Bytes
calls = codes "part.nc" ∷ codes "other.nc" ∷ []

load_file-first_example :
    let done = load_thread mach3 (attempts mach3 calls server).1 in
    ((attempts mach3 calls server).0 ≡ ok true ∷ ok false ∷ [])
    × (done.machine.world ≡ mach3.load (codes "part.nc") world)
    × (done.machine.file_path ≡ [])
    × (is_busy done ≡ false)
    × (load_thread mach3 done ≡ done)
load_file-first_example =
    load_file-first mach3 calls (codes "part.nc") server refl refl refl refl refl refl

load_file-overtaken_example :
    let again = load_file mach3 (codes "b.nc") (polled mach3 (codes "a.nc") server) in
    let first = load_thread mach3 again.1 in
    ((load_file mach3 (codes "a.nc") server).0 ≡ ok true)
    × (again.0 ≡ ok true)
    × (first.machine.world
        ≡ mach3.load (codes "b.nc") (polled mach3 (codes "a.nc") server).machine.world)
    × (load_thread mach3 first ≡ first)
unfolding load_file poll
load_file-overtaken_example =
    load_file-overtaken mach3 (codes "a.nc") (codes "b.nc") (codes "a.nc") (codes "b.nc") server
      refl refl refl refl refl refl refl refl
