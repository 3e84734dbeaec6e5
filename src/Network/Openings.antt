-- ===== src/Network/Openings.antt =====
-- A file that a client sends to the server for LinuxCNC (src/cncclient.cpp, src/cncserver.cpp,
-- drivers/linuxcnc/server/linuxcnc.cpp), from `LoadFile` to the command that LinuxCNC is sent.
use cncremote.Prelude.{
  ℤ, ◌-◌, ◌<◌, ◌≤◌, ◌≡◌, refl, ap, ◌∙◌, Bool, true, false, Bytes, Option, some, ok, arith, length,
  take_all, c_string, Bool-cases, inl, inr,
}
use cncremote.Comms.Arithmetic.{Double}
use cncremote.Comms.Wire.{Wire}
use cncremote.Server.{Server}
use cncremote.Server.Files.{Host, template, path_max}
use cncremote.Server.Files.Starts.{IsReady, sweep}
use cncremote.Client.Uploads.{load_file, upload_name}
use cncremote.LinuxCnc.{Controller, Lcnc, plan_open}
use cncremote.LinuxCnc.Channel.{command_send}
use cncremote.LinuxCnc.Members.{line}
use cncremote.LinuxCnc.Members
use cncremote.LinuxCnc.Reports.{lcnc}
use cncremote.LinuxCnc.Reports.Laws.{lcnc-OnlyReports}
use cncremote.Network.{direct}
use cncremote.Network.Calls.{Joined}
use cncremote.Network.Loads.{load_file-delivers}

module _ {W C : Type 0} ⦃d : Double W⦄ (ctl : Controller W C) where
  -- What LinuxCNC does with the command to open a file.
  abbrev pub opens : Bytes → Server W (Lcnc W C) → Bool × Lcnc W C
  opens path s = command_send ctl (plan_open path) s.machine

  line-whole :
      (path : Bytes) → c_string path ≡ path → length path < ctl.line_len → line ctl path ≡ path
  line-whole path text short = rw text (take_all (ctl.line_len - 1) path (omega arith))

  -- Without a status, nothing is sent either way.
  load_file-sends :
      (path : Bytes) (s : Server W (Lcnc W C))
      → Members.load_file ctl path s
        ≡ (ok (opens (line ctl path) s).0, record s { machine = (opens (line ctl path) s).1 })
  unfolding Members.load_file command_send
  load_file-sends path s = elim (Bool-cases s.machine.has_status) [
    | inl e ↦ simp e refl
    | inr e ↦ simp e refl
  ]

  opens-offline :
      (path : Bytes) (s : Server W (Lcnc W C))
      → s.machine.has_status ≡ false
      → opens path s ≡ (false, s.machine)
  unfolding command_send
  opens-offline path s e = simp e refl

  load_file-total :
      (path : Bytes) (s : Server W (Lcnc W C))
      → c_string path ≡ path
      → length path < ctl.line_len
      → Members.load_file ctl path s
        ≡ (ok (opens path s).0, record s { machine = (opens path s).1 })
  load_file-total path s text short =
      load_file-sends path s
      ∙ ap (λ (p : Bytes). (ok (opens p s).0, record s { machine = (opens p s).1 }))
          (line-whole path text short)

  module _ (w : Wire W) (host : Host) (now : ℤ) (files : Bytes → Option Bytes)
      (file content name path : Bytes) (s : Joined w host (lcnc ctl now) false)
      (t : Server W (Lcnc W C)) {b : Bool} where
    -- A file that the client can read, whose name gives a hint that is short enough, is sent to a server for
    -- LinuxCNC on another machine that answers every call, if a transfer can start there: closing the file before
    -- does not throw, no stream that was closed is held, a temporary file is made and opened, its path is text
    -- that is shorter than LINELEN, and there is room for the content. Then the server is left with exactly the
    -- content under this very path. If it had a status of LinuxCNC when its `LoadFile` was called, LinuxCNC was
    -- given the command to open this path, its channel is as the command leaves it, and the client returns
    -- whether LinuxCNC took it; if it had none, the client returns false, and LinuxCNC was given nothing.
    pub load_file-opens :
        files file ≡ some content
        → upload_name file ≡ some name
        → length (template name) < path_max
        → Members.close_file ctl s.world.server ≡ (ok b, t)
        → IsReady t
        → host.mkstemp (sweep t.cur_file t.disk).files (template name) ≡ some path
        → host.fdopen_works path ≡ true
        → length content ≤ t.disk.space
        → c_string path ≡ path
        → length path < ctl.line_len
        → let (r, s') = load_file w (direct w host (lcnc ctl now) false) files file s in
          (s'.world.server.disk.files path ≡ some content)
          × (srv : Server W (Lcnc W C)) × (srv.disk.files path ≡ some content)
          × (s'.world.server
              ≡ record srv { machine = (command_send ctl (plan_open path) srv.machine).1 })
          × (r ≡ ok (some (command_send ctl (plan_open path) srv.machine).0))
          × (srv.machine.has_status ≡ false → (r ≡ ok (some false)) × (s'.world.server ≡ srv))
    unfolding lcnc
    load_file-opens readable named short closes ready made works fits text few =
        let (srv, holds, reply, after) =
          load_file-delivers w host (lcnc ctl now) files file content name path s t {b = b}
            (λ v. (opens path v).0) (λ v. record v { machine = (opens path v).1 })
            (lcnc-OnlyReports ctl now) readable named short closes ready made works fits
            (λ v. load_file-total path v text few) in
        (
          ap (λ (v : Server W (Lcnc W C)). v.disk.files path) after ∙ holds,
          srv,
          holds,
          after,
          reply,
          λ none_there. (
            reply ∙ ap (λ (o : Bool × Lcnc W C). ok (some o.0)) (opens-offline path srv none_there),
            after
                ∙ ap (λ (o : Bool × Lcnc W C). record srv { machine = o.1 })
                    (opens-offline path srv none_there),
          ),
        )
