-- ===== src/Examples/Controllers.antt =====
-- The server for LinuxCNC, with a controller that answers at once.
use cncremote.Prelude.{
  ℕ, zero as nat_zero, suc, ◌<◌, ◌==◌, ℤ, pos, leb_ℤ, ◌+ℤ◌, some, ◌≡◌, refl, Bool, true, false,
  codes, [], ◌∷◌, none, arith,
}
use cncremote.Sample.{whole_numbers}
use cncremote.Comms.{new_state}
use cncremote.Comms.Vectors.{fill}
use cncremote.Server.{Server}
use cncremote.LinuxCnc.{abort, manual, Status, Controller, Lcnc, arrived, error_text}
use cncremote.LinuxCnc.Connecting.{Nml, Joining, connect_nml, connect_lcnc, returned}
use cncremote.LinuxCnc.Connecting.Laws.{is_whole, attempt, connect_lcnc-returns}
use cncremote.LinuxCnc.Channel.{command_send}
use cncremote.LinuxCnc.Laws.{peeked, command_send-echo}

abbrev status : Status ℤ
status = record {
  mode = manual;
  is_free = true;
  is_linear = fill true;
  units = fill (pos 1);
  tool_offset = fill (pos 0);
  g5x_offset = fill (pos 0);
  g92_offset = fill (pos 0);
  active_g_codes = pos 10 ∷ [];
  active_m_codes = [];
  heartbeat = 7;
  task_on = true;
  interp_busy = false;
  actual_position = fill (pos 2);
  current_vel = pos 0;
  spindle_enabled = pos 0;
  spindle_speed = pos 0;
  task_paused = false;
  linear_units = pos 1;
  angular_units = pos 1;
  optional_stop = false;
  block_delete = false;
  mist = false;
  flood = false;
  motion_line = pos 0;
  homed = fill false;
}

-- Its state counts the looks at the status.
abbrev pub controller : Controller ℤ ℕ
controller = record {
  write = λ message c. (false, c);
  peek = λ c. (false, suc c);
  serial = λ c. pos 2;
  echo_serial = λ c. pos c;
  status = λ c. status;
  is_valid = λ c. true;
  disconnect = λ c. c;
  news = λ c. arrived 1 error_text (codes "limit");
  line_len = 255;
}

abbrev pub lcnc : Bool → Lcnc ℤ ℕ
lcnc has_status = record {
  has_status = has_status;
  channel = 0;
  heartbeat = 7;
  next_time = pos 10;
  last_message = none;
  jog_axes = fill (pos 0);
  max_speed_lin = pos 1;
  max_speed_ang = pos 1;
}

abbrev pub server : Bool → Server ℤ (Lcnc ℤ ℕ)
server has_status = record {
  disk = record { files = λ _. none; streams = []; space = 0 };
  file = none;
  cur_block = pos 0;
  cur_file = [];
  errors = [];
  messages = [];
  state = new_state;
  machine = lcnc has_status;
}

-- The command has the number 2.
not_yet :
    (i : ℕ) → i < 1 → leb_ℤ (pos 2) (controller.echo_serial (peeked controller (suc i) 0)) ≡ false
not_yet nat_zero h = refl
not_yet (suc i) h = absurd (omega arith)

command_send-echo_example :
    command_send controller abort (lcnc true) ≡ (true, record (lcnc true) { channel = 2 })
command_send-echo_example =
    command_send-echo controller abort 1 (lcnc true) (omega arith) refl refl (λ i h. refl) not_yet
      refl

-- The channel of the errors cannot be opened at first.
abbrev pub nml : Nml ℤ ℕ
nml = record {
  open_command = λ c. (true, c);
  open_status = λ c. (true, c);
  open_error = λ c. (c == 1, c);
  has_size = λ c. true;
  max_velocity = λ c. pos 40;
  later = λ c. suc c;
}

abbrev pub alone : Joining ℤ ℕ
alone = record {
  has_command = false;
  has_error = false;
  lcnc = record {
    has_status = false;
    channel = 0;
    heartbeat = 0;
    next_time = pos 0;
    last_message = none;
    jog_axes = fill (pos 0);
    max_speed_lin = pos 1;
    max_speed_ang = pos 1;
  };
}

first_fails :
    (i : ℕ) → i < 1 → (connect_nml controller nml (attempt controller nml i alone)).0 ≡ false
unfolding connect_nml
first_fails nat_zero h = refl
first_fails (suc i) h = absurd (omega arith)

connect_lcnc-returns_example :
    (b : Bool) × (e : Joining ℤ ℕ) × (connect_lcnc controller nml 5 (pos 3) alone
      ≡ some (returned b e))
    × (is_whole e ≡ true)
    × (e.lcnc.heartbeat ≡ 7)
    × (e.lcnc.next_time ≡ pos 3 +ℤ pos 1)
unfolding connect_nml
connect_lcnc-returns_example =
    connect_lcnc-returns controller nml 5 1 (pos 3) alone (omega arith) first_fails refl refl refl
