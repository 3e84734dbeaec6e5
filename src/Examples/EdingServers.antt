-- ===== src/Examples/EdingServers.antt =====
-- The server for EdingCNC, with a library that keeps the list of the commands that it was given, the last one first.
use cncremote.Prelude.{
  zero as nat_zero, ℤ, pos, ◌+◌, ◌==◌, ltb_ℤ, pos_part, neg_part, ◌≡◌, ◌≢◌, refl, Bool, true, false,
  Bytes, codes, List, [], ◌∷◌, Option, none, some, ok, All, arith,
}
use cncremote.Sample.{whole_numbers}
use cncremote.Comms.{new_state, mc_idle}
use cncremote.Comms.Vectors.{Axes, fill, put, zip_axes}
use cncremote.Server.{Server}
use cncremote.EdingCnc.{
  CncState, ready, paused_job, paused_line, Output, drive_enable, coolant1, coolant2, tool, Command,
  set_output, move_to, run_or_resume_job, move_g1, GraphPoint, Library, Eding, linked,
}
use cncremote.EdingCnc.Registry.{Windows}
use cncremote.EdingCnc.Reports.{update_state}
use cncremote.EdingCnc.Reports.Laws.{IsOrder, watch, watch-highest}
use cncremote.EdingCnc.Members.{drives_on, every}
use cncremote.EdingCnc.Overrides.Laws.{drives_on-reported}
use cncremote.EdingCnc.Pauses.{cycle_start}
use cncremote.EdingCnc.Pauses.Laws.{IsAside, cycle_start-resumes, cycle_start-stops}
use cncremote.EdingCnc.Previews.Laws.{IsDry}

abbrev pub Log : Type 0
Log = List (Command ℤ)

abbrev is_drive : Output → Bool
is_drive drive_enable = true
is_drive _ = false

abbrev is_set : ℤ → Bool
is_set (pos nat_zero) = false
is_set _ = true

-- The drives as they were set last.
abbrev enabled : Log → Bool
enabled [] = true
enabled (set_output drive_enable v ∷ cs) = is_set v
enabled (c ∷ cs) = enabled cs

abbrev shows : Output → Log → Bool
shows drive_enable cs = enabled cs
shows _ cs = false

abbrev int_eq : ℤ → ℤ → Bool
int_eq a b = (pos_part a + neg_part b) == (pos_part b + neg_part a)

abbrev next_point : Log → Option (GraphPoint ℤ) × Log
next_point [] = (none, [])
next_point (c ∷ cs) = (some (record { kind = move_g1; pos = fill (pos 1) }), cs)

abbrev here : Axes ℤ
here = fill (pos 1)

abbrev there : Axes ℤ
there = put 2 (pos 0) (fill (pos 5))

abbrev pub library : CncState → Library ℤ Log
library st = record {
  call = λ command c. (true, command ∷ c);
  connect = λ c. (true, c);
  is_connected = λ c. true;
  later = λ c. c;
  state = λ c. st;
  output = shows;
  em_stop = λ c. false;
  is_handwheel = λ c. false;
  machine_pos = λ c. here;
  work_pos = λ c. here;
  pause = λ c. record {
    manual_action = false;
    position = there;
    valid = true;
    line = pos 7;
    spindle = pos 1;
    flood = pos 0;
    mist = pos 1;
  };
  feed_override = λ c. pos 1;
  optional_stop = λ c. false;
  block_delete = λ c. false;
  interpreter_line = λ c. pos 7;
  single_step = λ c. false;
  spindle = λ c. record {
    is_on = true;
    direction = false;
    programmed_speed = pos 100;
    actual_speed = pos 100;
    override_factor = pos 1;
  };
  homed = λ c. fill true;
  max_velocity = λ joint c. some (pos 10);
  in_millimeters = λ c. true;
  programmed_feed = λ c. pos 1;
  actual_feed = λ c. pos 1;
  tool_number = λ c. pos 1;
  settings_text = λ c. codes "G1";
  tool_offset = λ c. fill (pos 0);
  current_g5x = λ c. fill (pos 0);
  g92_offset = λ c. fill (pos 0);
  spindle_offset = λ c. fill (pos 0);
  log_fifo = λ c. (none, c);
  graph_fifo = next_point;
  same = λ p q. every (zip_axes int_eq p q);
}

abbrev parts : Bool → Eding ℤ Log
parts connected = record {
  linkage = linked;
  tracking = true;
  connected = connected;
  connect_count = 0;
  z_max = pos 3;
  rec_size = pos 0;
  graph_offset = fill (pos 0);
  library = [];
}

abbrev pub server : Eding ℤ Log → Server ℤ (Eding ℤ Log)
server e = record {
  disk = record { files = λ _. none; streams = []; space = 0 };
  file = none;
  cur_block = pos 0;
  cur_file = [];
  errors = [];
  messages = [];
  state = new_state;
  machine = e;
}

abbrev aside : IsAside (library paused_job) 9 (server (parts true))
unfolding whole_numbers
aside = record {
  there = refl;
  waiting = refl;
  automatic = refl;
  valid = refl;
  moved = refl;
  aside = refl;
}

lt_part : (u v : ℤ) → ltb_ℤ u v ≡ true → ltb_ℤ v u ≡ false
lt_part u v h = ground arith

whole_numbers-IsOrder : IsOrder whole_numbers
unfolding whole_numbers
whole_numbers-IsOrder = record {
  trans = λ u v w h k. ground arith;
  asym = lt_part;
  irrefl = λ u. ground arith;
}

cycle_start-resumes_example :
    (z : ℤ) × ((whole_numbers.lt z (here.z) ≡ false)
      × (whole_numbers.lt z (there.z) ≡ false)
      × (whole_numbers.lt z (pos 3) ≡ false))
    × (cycle_start (library paused_job) 9 (server (parts true)) ≡ (
      ok tt,
      server (record (parts true) {
        z_max = z;
        library =
            run_or_resume_job
            ∷ move_to there (fill true) (whole_numbers.literal (pos 2) 10)
            ∷ move_to (put 2 z there) (fill true) (whole_numbers.literal (pos 2) 10)
            ∷ set_output tool (pos 1)
            ∷ set_output coolant1 (pos 0)
            ∷ set_output coolant2 (pos 1)
            ∷ move_to (put 2 z here) (fill true) (whole_numbers.literal (pos 2) 10)
            ∷ [];
      }),
    ))
unfolding whole_numbers
cycle_start-resumes_example =
    cycle_start-resumes (library paused_job) 9 (server (parts true)) whole_numbers-IsOrder 0 0 0
      aside (omega arith) (omega arith) (omega arith) (refl, refl) (refl, refl) (refl, refl)

abbrev aside_line : IsAside (library paused_line) 9 (server (parts true))
unfolding whole_numbers
aside_line = record {
  there = refl;
  waiting = refl;
  automatic = refl;
  valid = refl;
  moved = refl;
  aside = refl;
}

cycle_start-stops_example :
    (z : ℤ) × ((whole_numbers.lt z (here.z) ≡ false)
      × (whole_numbers.lt z (there.z) ≡ false)
      × (whole_numbers.lt z (pos 3) ≡ false))
    × (cycle_start (library paused_line) 9 (server (parts true)) ≡ (
      ok tt,
      server (record (parts true) {
        z_max = z;
        library = move_to (put 2 z here) (fill true) (whole_numbers.literal (pos 2) 10) ∷ [];
      }),
    ))
unfolding whole_numbers
cycle_start-stops_example =
    cycle_start-stops (library paused_line) 9 (server (parts true)) whole_numbers-IsOrder 0
      paused_line aside_line (omega arith) (refl, refl) refl

watch-highest_example :
    All {A = Log}
      (λ c.
        whole_numbers.lt
          (watch (library ready) ([] ∷ [] ∷ []) (server (parts true))).machine.z_max
          (pos 1)
        ≡ false)
      ([] ∷ ([] ∷ []))
unfolding whole_numbers
watch-highest_example =
    watch-highest (library ready) ([] ∷ [] ∷ []) (server (parts true)) whole_numbers-IsOrder refl
      (refl, (refl, tt))

drives_on-reported_example :
    (update_state
      (library ready)
      (drives_on (library ready) false (server (parts true))).1).1.state.machine_state
    ≢ mc_idle
unfolding whole_numbers
drives_on-reported_example =
    drives_on-reported (library ready) (server (parts true)) (λ c. refl) refl refl

abbrev pub windows : Windows
windows = record {
  registry = record {
    wow64 = none;
    native = some (
        some (record {
          name = codes "CNC4.03";
          opens = true;
          publisher = some (codes "EDING CNC B.V.");
          location = some (codes "C:");
        })
        ∷ none
        ∷ some (record {
          name = codes "CNC4.01";
          opens = true;
          publisher = some (codes "EDING CNC B.V.");
          location = some (codes "D:");
        })
        ∷ []);
  };
  loads = λ path. true;
  has = λ path symbol. true;
}

abbrev processes : Option (List Bytes)
processes = some (codes "CNCSERVER.EXE" ∷ codes "cnc.exe" ∷ [])

abbrev rest : Option (List Bytes) × Windows
rest = (processes, windows)

dry : (st : CncState) → IsDry (library st)
dry st [] h = (refl, refl)
dry st (c ∷ cs) h = absurd cc
