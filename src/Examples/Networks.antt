-- ===== src/Examples/Networks.antt =====
-- A client and the simulator's server, joined.
use cncremote.Prelude.{ℤ, pos, ◌≡◌, refl, true, false, [], ◌∷◌, arith}
use cncremote.Sample.{whole_numbers, Tree, trees}
use cncremote.Comms.Vectors.{Axes, fill, put, bool_zero}
use cncremote.Client.Calls.{new_call}
use cncremote.Client.Session.{on_connect, Session, Peer, new_client}
use cncremote.Client.Commands.{
  drives_on, jog_vel, feed_override, spindle_override, rapid_override, cycle_start, feed_hold,
  block_delete, single_step, optional_stop, home, home_all,
}
use cncremote.Client.Polling.{poll, err_ok}
use cncremote.Network.{Net, direct}
use cncremote.Network.Commands.{CarriesOut, commands-CarriesOut}
use cncremote.Network.States.{IsIdle, IsFresh, ComparesVersions, poll-state, poll-connects}
use cncremote.Sim.{Machine}
use cncremote.Sim.Members.{sim, update_state}
use cncremote.Examples.Data.{host, machine, session}

abbrev peer : Peer Tree (Net ℤ Tree (Machine ℤ))
peer = direct trees host sim false

abbrev jog : Axes ℤ
jog = fill (pos 7)

commands-CarriesOut_example :
    CarriesOut trees host sim false (drives_on trees peer true) (sim.drives_on true) session
    × CarriesOut trees host sim false (feed_hold trees peer true) (sim.feed_hold true) session
    × CarriesOut trees host sim false (block_delete trees peer true) (sim.block_delete true) session
    × CarriesOut trees host sim false (single_step trees peer true) (sim.single_step true) session
    × CarriesOut trees host sim false
        (optional_stop trees peer true)
        (sim.optional_stop true)
        session
    × CarriesOut trees host sim false
        (feed_override trees peer (pos 2))
        (sim.feed_override (pos 2))
        session
    × CarriesOut trees host sim false
        (spindle_override trees peer (pos 2))
        (sim.spindle_override (pos 2))
        session
    × CarriesOut trees host sim false
        (rapid_override trees peer (pos 2))
        (sim.rapid_override (pos 2))
        session
    × CarriesOut trees host sim false (jog_vel trees peer jog) (sim.jog_vel jog) session
    × CarriesOut trees host sim false (cycle_start trees peer) sim.cycle_start session
    × CarriesOut trees host sim false (home trees peer 1) (sim.home (put 1 true bool_zero)) session
    × CarriesOut trees host sim false (home_all trees peer) (sim.home (fill true)) session
commands-CarriesOut_example =
    commands-CarriesOut trees host sim false session true (pos 2) jog 1 (omega arith)

order : ComparesVersions {W = ℤ} whole_numbers
unfolding whole_numbers
order = record { not_below = refl; same = refl; fits = refl; positive = refl; apart = refl }

fresh : IsFresh trees host sim false session
unfolding new_client new_call
fresh = record { unversioned = refl; idle = refl; unanswered = refl; empty = refl }

poll-connects_example :
    ((poll trees peer (poll trees peer session).1).1.client.notices ≡ on_connect ∷ [])
    × IsIdle trees host sim false (poll trees peer (poll trees peer session).1).1
unfolding new_client
poll-connects_example = poll-connects trees host sim false session order fresh

abbrev known : Session ℤ Tree (Net ℤ Tree (Machine ℤ))
known = record session { client = record (session.client) { server_ver = pos 3 } }

poll-state_example :
    ((poll trees peer known).0 ≡ err_ok)
    × ((poll trees peer (poll trees peer known).1).0 ≡ err_ok)
    × ((poll trees peer (poll trees peer known).1).1.client.state ≡ machine.state)
unfolding new_client new_call sim update_state whole_numbers
poll-state_example =
    poll-state trees host sim false machine known
      (record { known = refl; versioned = refl; idle = refl; unanswered = refl; empty = refl }) refl
