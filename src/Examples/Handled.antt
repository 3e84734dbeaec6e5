-- ===== src/Examples/Handled.antt =====
-- The client in the build that hands exceptions to the application.
use cncremote.Prelude.{
  ℤ, ◌≡◌, ◌⊎◌, Bool, false, Bytes, codes, [], ◌∷◌, Option, some, Result, ok, raised,
}
use cncremote.Sample.{whole_numbers, Tree, trees}
use cncremote.Comms.{new_state}
use cncremote.Client.Session.{Session}
use cncremote.Client.Uploads
use cncremote.Client.Handled.{Handled, load_file, get_next_error}
use cncremote.Client.Handled.Laws.{moved_on, load_file-answers, get_next_error-told}
use cncremote.Network.{Net, direct}
use cncremote.Sim.{Machine}
use cncremote.Sim.Members.{sim}
use cncremote.Examples.Data.{host, session}

abbrev files : Bytes → Option Bytes
files _ = some (71 ∷ 48 ∷ [])

abbrev joined : Handled ℤ Tree (Net ℤ Tree (Machine ℤ))
joined = record { session = session; handed = [] }

abbrev plain : Result (Option Bool) × Session ℤ Tree (Net ℤ Tree (Machine ℤ))
plain = Uploads.load_file trees (direct trees host sim false) files (codes "/a.nc") session

load_file-answers_example :
    ((b : Bool) × (plain.0 ≡ ok (some b))
      × (load_file trees (direct trees host sim false) files (codes "/a.nc") joined
          ≡ (ok (some b), record { session = plain.1; handed = [] })))
    ⊎ ((e : Bytes) × (plain.0 ≡ raised e)
        × (load_file trees (direct trees host sim false) files (codes "/a.nc") joined
            ≡ (ok (some false), record { session = plain.1; handed = e ∷ [] })))
load_file-answers_example =
    load_file-answers trees (direct trees host sim false) files (codes "/a.nc") joined

-- The server has told of two errors.
abbrev behind : Handled ℤ Tree (Net ℤ Tree (Machine ℤ))
behind = record joined {
  session = record session {
    client = record session.client { err_index = 0; state = record new_state { error_count = 2 } };
  };
}

abbrev after : Result Bytes × Handled ℤ Tree (Net ℤ Tree (Machine ℤ))
after = get_next_error trees (direct trees host sim false) behind

get_next_error-told_example :
    ((text : Bytes) × (after.0 ≡ ok text)
      × (after.1.handed ≡ [])
      × (after.1.session.client
          ≡ moved_on trees (direct trees host sim false) behind.session.client))
    ⊎ ((e : Bytes) × (after.0 ≡ ok [])
        × (after.1.handed ≡ e ∷ [])
        × (after.1.session.client ≡ behind.session.client))
unfolding new_state
get_next_error-told_example = get_next_error-told trees (direct trees host sim false) behind
