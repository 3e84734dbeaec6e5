-- ===== src/Examples/Programs.antt =====
-- The programs and libraries that create a server.
use cncremote.Prelude.{
  ℕ, zero, suc, ℤ, pos, ◌<◌, ◌==◌, if◌then◌else◌, arith, freed_object, ◌≡◌, refl, ◌⊎◌, true, false,
  [], Option, none, some, ok, undefined, unset_function, ◌∙◌, ap,
}
use cncremote.Sample.{whole_numbers}
use cncremote.Comms.Vectors.{fill}
use cncremote.Server.{Server}
use cncremote.EdingCnc.{Eding, ready}
use cncremote.EdingCnc.Connection.{new_eding}
use cncremote.Client.Plugins.{new_plugged}
use cncremote.Client.Plugins.Laws.{replay}
use cncremote.Client.Plugins.Sessions.{acts, acts-IsOrderly}
use cncremote.Server.Logs.{log_error}
use cncremote.LinuxCnc.{Lcnc}
use cncremote.LinuxCnc.Reports.{is_ok, update_state, poll}
use cncremote.LinuxCnc.Connecting.{Joining, returned, connect_lcnc, connect_nml}
use cncremote.Entries.{Listener}
use cncremote.Entries.Mach.{Start, null, points, stop_plug, update}
use cncremote.Entries.Mach.Laws.{life, built, life_lem}
use cncremote.Entries.Mach
use cncremote.Entries.LinuxCnc.{Machine, Beside, again, joining, pass_once}
use cncremote.Entries.LinuxCnc.Laws.{faces, joined, pass_once-ends}
use cncremote.Examples.MachServers.{Rest, mach3}
use cncremote.Examples.MachServers
use cncremote.Examples.Controllers.{controller, nml}
use cncremote.Examples.Controllers
use cncremote.Entries.Eding.{Running}
use cncremote.Entries.Eding.Laws.{Around, run, run-there}
use cncremote.Examples.EdingServers.{Log, library, server, windows}
use cncremote.Examples.PluginSessions.{outside, visit, visit-plugin}

-- A listener by the port that it has.
abbrev listener : Listener (Option ℕ)
listener = record { idle = none; stop = λ x. none; start = λ port x. (true, some port) }

abbrev fresh_server : Server ℤ (Eding ℤ Log)
fresh_server = server (new_eding false (pos 0) (fill (pos 0)) [])

abbrev around : Around ℤ Log (Option ℕ)
around = record {
  windows = λ past. windows;
  processes = λ past. none;
  serves = λ past r. r;
  unmaps = λ past. true;
}

runs : replay (acts outside visit new_plugged).history ≡ some (some 8)
runs = (acts-IsOrderly outside visit).accepted ∙ ap (λ p. some p) visit-plugin

run-there_example :
    let past = (acts outside visit new_plugged).history in
    let done = run (library ready) listener fresh_server around 8 past in
    (done.0 ≡ undefined unset_function)
    ⊎ ((done.0 ≡ ok tt) × (r : Running ℤ Log (Option ℕ)) × (done.1 ≡ some r))
run-there_example =
    run-there (library ready) listener fresh_server around 8
      (acts outside visit new_plugged).history runs

abbrev starting : Start ℤ Rest
starting = record { blank = MachServers.server; profile = none; created = true; scripted = true }

life_lem_example :
    let (ran, p) = life mach3 listener 2 starting 3 null in
    (ran ≡ ok tt)
    × (p ≡ points (Mach.Laws.polls mach3 listener 3 (built mach3 listener starting)) (some 5090))
    × ((stop_plug mach3 listener p).0 ≡ ok tt)
    × ((update mach3 listener (stop_plug mach3 listener p).1).0 ≡ undefined freed_object)
    × ((stop_plug mach3 listener (stop_plug mach3 listener p).1).0 ≡ undefined freed_object)
life_lem_example = life_lem mach3 listener 2 starting 3

-- A client asks for the state before each poll; before the second of the first pass LinuxCNC has stopped beating.
abbrev beside : Beside ℤ ℕ
beside = record {
  clock = λ pass. pos 3;
  serves = λ pass i s. if i == 0 then s else (update_state controller (pos 20) s).1;
}

abbrev machine : Machine ℤ ℕ
machine = record { has_command = false; has_error = false; server = Controllers.server false }

abbrev linked : Joining ℤ ℕ
linked = record {
  has_command = true;
  has_error = true;
  lcnc = record (machine.server.machine) {
    has_status = true;
    channel = 2;
    heartbeat = 7;
    next_time = pos 4;
    max_speed_lin = pos 40;
    max_speed_ang = pos 40;
  };
}

abbrev fallen : Server ℤ (Lcnc ℤ ℕ)
fallen = faces controller nml beside 0 0 1 (joined controller nml beside 0 machine linked)

connects :
    connect_lcnc controller nml 5 (pos 3) (joining controller nml beside machine)
    ≡ some (returned true linked)
unfolding connect_lcnc connect_nml whole_numbers
connects = refl

valid_first :
    (i : ℕ)
    → i < 1
    → is_ok controller
        (faces controller nml beside 0 0 i (joined controller nml beside 0 machine linked)).machine
      ≡ true
valid_first zero h = refl
valid_first (suc i) h = absurd (omega arith)

pass_once-ends_example :
    (v : Machine ℤ ℕ) × (pass_once controller nml beside 5 9 0 machine ≡ some (again v))
    × (v.has_command ≡ false)
    × (v.has_error ≡ false)
    × (v.server ≡ record fallen {
      machine = record (fallen.machine) { has_status = false; channel = fallen.machine.channel };
    })
unfolding update_state whole_numbers poll log_error
pass_once-ends_example =
    pass_once-ends controller nml beside 0 5 9 1 machine true linked connects (omega arith)
      valid_first refl
