-- ===== src/Examples/Transfers.antt =====
-- Transfers of files.
use cncremote.Prelude.{
  ℤ, ◌≡◌, refl, Bool, true, false, Bytes, codes, [], ◌∷◌, Option, some, Result, ok, arith,
}
use cncremote.Sample.{whole_numbers, Tree, trees}
use cncremote.Server.Files.Starts.{never}
use cncremote.Client.Session.{Session}
use cncremote.Client.Uploads.{load_file, upload_name, find_last_of, substr}
use cncremote.Network.{Net, direct}
use cncremote.Network.Loads.{load_file-delivers}
use cncremote.Sim.{Sim, Machine, new_sim}
use cncremote.Sim.Members.{sim}
use cncremote.Examples.Data.{host, machine, sim-OnlyReports, session}

abbrev content : Bytes
content = 71 ∷ 48 ∷ []

abbrev files : Bytes → Option Bytes
files _ = some content

abbrev result : Result (Option Bool) × Session ℤ Tree (Net ℤ Tree (Machine ℤ))
result = load_file trees (direct trees host sim false) files (codes "/a.nc") session

load_file-delivers_example :
    (srv : Sim ℤ) × (srv.disk.files (codes "/tmp/CncRemoteaXXXXXX") ≡ some content)
    × (result.0 ≡ ok (some true))
    × (result.1.world.server ≡ srv)
unfolding sim new_sim upload_name find_last_of substr
load_file-delivers_example =
    load_file-delivers trees host sim files (codes "/a.nc") content (codes "a")
      (codes "/tmp/CncRemoteaXXXXXX") session machine (λ s. true) (λ s. s) sim-OnlyReports refl refl
      (omega arith) refl (never refl) refl refl (omega arith) (λ s. refl)
