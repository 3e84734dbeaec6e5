-- ===== src/Examples/Readings.antt =====
-- A client that reads the errors of the simulator's server, and hears of an exception.
use cncremote.Prelude.{
  ℤ, pos, ◌≡◌, refl, true, false, Bytes, codes, List, [], ◌∷◌, map, drop, ok, raised, arith,
}
use cncremote.Sample.{whole_numbers, Tree, trees}
use cncremote.Server.{Driver}
use cncremote.Server.Handlers.{on_notify}
use cncremote.Server.Bindings.{notify_handlers}
use cncremote.Server.Protocol.{Command}
use cncremote.Server.Dispatch.{command_notify}
use cncremote.Client.Session.{Session}
use cncremote.Client.Commands.{has_errors}
use cncremote.Network.{Net, direct}
use cncremote.Network.Reading.{read_errors, read_errors-all}
use cncremote.Network.Exceptions.{hears, told_of, command-told}
use cncremote.Sim.{Machine}
use cncremote.Sim.Members.{sim}
use cncremote.EdingCnc.{ready}
use cncremote.EdingCnc.Overrides.{eding}
use cncremote.LinuxCnc.Reports.{lcnc}
use cncremote.Mach3.Members.{mach}
use cncremote.Network.Polls.{OnlyReports}
use cncremote.Network.Drivers.{drivers-OnlyReports}
use cncremote.Examples.Controllers.{controller}
use cncremote.Examples.EdingServers.{library}
use cncremote.Examples.MachServers.{mach3}
use cncremote.Examples.Data.{host, machine, session}

abbrev errors : List Bytes
errors = codes "limit" ∷ codes "stall" ∷ codes "limit" ∷ []

-- One of three errors has been read.
abbrev reading : Session ℤ Tree (Net ℤ Tree (Machine ℤ))
reading = record {
  client = record (session.client) {
    err_index = 1;
    state = record (session.client.state) { error_count = 3 };
  };
  world = record { server = record machine { errors = errors }; mailbox = [] };
}

read_errors-all_example :
    let r = read_errors trees host sim false 5 reading in
    (r.0 ≡ map ok (drop 1 errors))
    × (r.1.world ≡ reading.world)
    × (has_errors trees (direct trees host sim false) r.1 ≡ false)
read_errors-all_example =
    read_errors-all trees host sim false 5 reading refl (omega arith) (omega arith) (omega arith)

-- A driver on which the hold fails.
abbrev failing : Driver ℤ (Machine ℤ)
failing = record sim { feed_hold = λ state s. (raised (codes "no program"), s) }

command-told_example :
    hears trees host failing
      (on_notify trees
        (notify_handlers trees host failing)
        (command_notify trees host failing (trees.nat.pack 0) 0 (Command.feed_hold true))
        machine).0
      session.client
    ≡ told_of trees host failing (codes "FeedHold") (raised (codes "no program")) session.client
command-told_example =
    command-told trees host failing (trees.nat.pack 0) (Command.feed_hold true) machine
      session.client

drivers-OnlyReports_example :
    OnlyReports (lcnc controller (pos 5))
    × OnlyReports (eding (library ready) 9)
    × OnlyReports (mach mach3)
    × OnlyReports {W = ℤ} sim
drivers-OnlyReports_example = drivers-OnlyReports controller (pos 5) (library ready) 9 mach3
