-- ===== src/Examples/PluginSessions.antt =====
-- A client with a directory of two libraries, of which one lacks the symbol "Poll", and a file that is none.
use cncremote.Prelude.{
  ℕ, ◌==◌, ◌≡◌, refl, true, false, not, ◌&&◌, Bytes, codes, bytes_eq, List, [], ◌∷◌, Option, none,
  some, if◌then◌else◌,
}
use cncremote.Client.Plugins.{
  Entry, Outside, new_plugged, load_plugins, connect, poll_plugin, destroy,
}
use cncremote.Client.Plugins.Laws.{replay, times, opening, closing, quitting, occurs, IsOrderly}
use cncremote.Client.Plugins.Sessions.{
  Act, loads, joins, waits, acts, acts-IsOrderly, destroy-closes,
}

abbrev entries : List Entry
entries =
    record { is_file = false; name = codes "." }
    ∷ record { is_file = true; name = codes "old.so" }
    ∷ record { is_file = true; name = codes "notes" }
    ∷ record { is_file = true; name = codes "sim.so" }
    ∷ []

abbrev handle : Bytes → Option ℕ
handle name =
    if bytes_eq name (codes "p/sim.so")
    then some 8
    else if bytes_eq name (codes "p/old.so")
    then some 7
    else none

abbrev pub outside : Outside
outside = record {
  entries = λ path past. some entries;
  load = λ name past. handle name;
  error = λ past. codes "invalid ELF header";
  has = λ h symbol past. not (h == 7 && bytes_eq symbol (codes "Poll"));
  exists = λ h path past. h == 8;
}

abbrev pub visit : List Act
visit =
    loads (codes "p") true
    ∷ joins 1 (codes "10.0.0.2") 15000
    ∷ waits
    ∷ joins 1 (codes "10.0.0.2") 15000
    ∷ joins 5 (codes "10.0.0.2") 15000
    ∷ joins 1 (codes "10.0.0.2") 15000
    ∷ []

acts-IsOrderly_example : IsOrderly (acts outside visit new_plugged)
acts-IsOrderly_example = acts-IsOrderly outside visit

destroy-closes_example :
    let s = acts outside visit new_plugged in
    (replay (destroy s).history ≡ some none)
    × ((h : ℕ) → times (opening h) (destroy s).history ≡ times (closing h) (destroy s).history)
    × ((h : ℕ) → times (quitting h) (destroy s).history ≡ occurs h s.plugins)
destroy-closes_example = destroy-closes outside visit

-- The example keeps a plugin, runs it, and leaves it running until the client ends.
pub visit-plugin : (acts outside visit new_plugged).plugin ≡ some 8
unfolding load_plugins connect poll_plugin bytes_eq
visit-plugin = refl
