-- ===== src/Examples/Openings.antt =====
-- A file that is sent to a server for LinuxCNC.
use cncremote.Prelude.{ℕ, ℤ, pos, ◌≡◌, refl, true, false, Bytes, codes, [], Option, some, ok, arith}
use cncremote.Sample.{whole_numbers, Tree, trees}
use cncremote.Server.{Server}
use cncremote.Server.Files.Starts.{never}
use cncremote.Client.Session.{Session, new_client}
use cncremote.Client.Uploads.{load_file, upload_name, find_last_of, substr}
use cncremote.LinuxCnc.{Lcnc, plan_open}
use cncremote.LinuxCnc.Channel.{command_send, await_echo}
use cncremote.LinuxCnc.Members.{close_file}
use cncremote.LinuxCnc.Reports.{lcnc}
use cncremote.Network.{Net, direct}
use cncremote.Network.Openings.{load_file-opens}
use cncremote.Examples.Data.{host, disk}
use cncremote.Examples.Controllers.{controller, server}

abbrev here : Server ℤ (Lcnc ℤ ℕ)
here = record (server true) { disk = disk 100 }

abbrev session : Session ℤ Tree (Net ℤ Tree (Lcnc ℤ ℕ))
session = record {
  client = new_client (pos 0) (pos 0) (pos 0);
  world = record { server = here; mailbox = [] };
}

abbrev content : Bytes
content = codes "G0 X1"

abbrev files : Bytes → Option Bytes
files _ = some content

abbrev path : Bytes
path = codes "/tmp/CncRemoteaXXXXXX"

load_file-opens_example :
    let (r, s) =
      load_file trees
        (direct trees host (lcnc controller (pos 3)) false)
        files
        (codes "/a.nc")
        session in
    (s.world.server.disk.files path ≡ some content)
    × (srv : Server ℤ (Lcnc ℤ ℕ)) × (srv.disk.files path ≡ some content)
    × (s.world.server
        ≡ record srv { machine = (command_send controller (plan_open path) srv.machine).1 })
    × (r ≡ ok (some (command_send controller (plan_open path) srv.machine).0))
    × (srv.machine.has_status ≡ false → (r ≡ ok (some false)) × (s.world.server ≡ srv))
unfolding upload_name find_last_of substr close_file command_send await_echo
load_file-opens_example =
    load_file-opens controller trees host (pos 3) files (codes "/a.nc") content (codes "a") path
      session (close_file controller here).1 {b = true} refl refl (omega arith) refl (never refl)
      refl refl (omega arith) refl (omega arith)
