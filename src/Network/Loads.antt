-- ===== src/Network/Loads.antt =====
-- `Client::LoadFile` of a file for a server on another machine, from the call to the driver.
use cncremote.Prelude.{
  pos, ◌<◌, ◌≤◌, ◌≡◌, refl, ap, Bool, true, false, Bytes, codes, [], ◌∷◌, Option, some, ok, arith,
  length, is_empty,
}
use cncremote.Comms.Arithmetic.{Double}
use cncremote.Comms.Wire.{Wire}
use cncremote.Server.{Server, Driver}
use cncremote.Server.Files.{Host, send_init, template, path_max}
use cncremote.Server.Files.Starts.{IsReady, sweep, send_init_starts}
use cncremote.Server.Handlers.{success}
use cncremote.Server.Protocol.{Query}
use cncremote.Server.Dispatch.{packed}
use cncremote.Client.Calls.{new_call}
use cncremote.Client.Session.{Peer}
use cncremote.Client.Uploads.{call_as, send_blocks, enough, load_file, upload_name}
use cncremote.Network.{Net, direct}
use cncremote.Network.Calls.{Joined, with_server, answered_call}
use cncremote.Network.Polls.{OnlyReports}
use cncremote.Network.Uploads.{Doing, call_as-ok, send_blocks-Delivers}

long_path : (hint path : Bytes) → length path ≡ length (template hint) → is_empty path ≡ false
long_path hint [] e = absurd (omega arith)
long_path hint (b ∷ path) e = refl

module _ {W M : Type 0} ⦃d : Double W⦄ (w : Wire W) (host : Host) (drv : Driver W M) where
  abbrev peer : Peer w.Any (Net W w.Any M)
  peer = direct w host drv false

  -- The parts of `LoadFile` one after the other.
  load_file-runs :
      (files : Bytes → Option Bytes) (file : Bytes) {content name path : Bytes}
      (s : Joined w host drv false)
      → files file ≡ some content
      → upload_name file ≡ some name
      → (t u : Doing w host drv false) (loaded : Bool) (server : Server W M)
      → call_as w peer (codes "SendInit") (w.text.pack name) w.text (new_call, s) ≡ (ok path, t)
      → is_empty path ≡ false
      → send_blocks w peer (enough content) content (pos 0) t ≡ (ok (some true), u)
      → u.0.busy ≡ false
      → drv.load_file path u.1.world.server ≡ (ok loaded, server)
      → load_file w peer files file s ≡ (ok (some loaded), with_server w host drv false server u.1)
  unfolding load_file direct
  load_file-runs files file {path} s readable named t u loaded server init long runs idle loads =
      let final =
        call_as-ok w host drv false w.bool loaded w.nil (Query.load_file path) u.0 u.1 server idle
          (rw loads refl) in
      rw (readable, named, init, long, runs, final) refl

  module _ (files : Bytes → Option Bytes) (file content name path : Bytes)
      (s : Joined w host drv false) (t : Server W M) {b : Bool} (loaded : Server W M → Bool)
      (after : Server W M → Server W M) where
    -- A file that the client can read, whose name gives a hint that is short enough, is sent to a server on
    -- another machine that answers every call, if a transfer can start there: no stream that was closed is
    -- held, a temporary file is made and opened, and there is room for the content; and if the driver's
    -- `UpdateState` leaves the transfer alone and its `CloseFile` and `LoadFile` do not throw. Then the loop
    -- ends, and the driver is made to load, under the path that the host made, a file that holds exactly
    -- the content; the client returns what the driver did.
    pub load_file-delivers :
        OnlyReports drv
        → files file ≡ some content
        → upload_name file ≡ some name
        → length (template name) < path_max
        → drv.close_file s.world.server ≡ (ok b, t)
        → IsReady t
        → host.mkstemp (sweep t.cur_file t.disk).files (template name) ≡ some path
        → host.fdopen_works path ≡ true
        → length content ≤ t.disk.space
        → ((srv : Server W M) → drv.load_file path srv ≡ (ok (loaded srv), after srv))
        → (srv : Server W M) × (srv.disk.files path ≡ some content)
          × ((load_file w (direct w host drv false) files file s).0 ≡ ok (some (loaded srv)))
          × ((load_file w (direct w host drv false) files file s).1.world.server ≡ after srv)
    unfolding new_call
    load_file-delivers only readable named short closes ready made works fits loads =
        let (starts, receiving) =
          send_init_starts drv host name s.world.server t closes ready short path made works in
        let init =
          call_as-ok w host drv false w.text path w.nil (Query.send_init name) new_call s
            (send_init drv host name s.world.server).1 refl
            (ap (packed w host drv w.text.pack)
              (ap (λ r. (r, (send_init drv host name s.world.server).1)) starts)) in
        let (u, runs, delivered) =
          send_blocks-Delivers w host drv false (enough content) path [] content (pos 0)
            t.disk.space (answered_call w host drv false (success w 0 (w.text.pack path)))
            (with_server w host drv false (send_init drv host name s.world.server).1 s) only refl
            receiving fits (omega arith) in
        let full =
          load_file-runs files file s readable named _ u (loaded u.1.world.server)
            (after u.1.world.server) init (long_path name path (host.mkstemp_length _ _ _ made))
            runs delivered.idle (loads _) in
        (u.1.world.server, delivered.whole, ap (λ r. r.0) full, ap (λ r. r.1.world.server) full)
