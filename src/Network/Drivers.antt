-- ===== src/Network/Drivers.antt =====
-- What the drivers (drivers/Sim, drivers/linuxcnc, drivers/EdingCNC402, drivers/Mach3) leave to the server.
use cncremote.Prelude.{ℕ, ℤ, refl, Option, none, some, Bool-cases, inl, inr}
use cncremote.Comms.{ControlState}
use cncremote.Comms.Arithmetic.{Double}
use cncremote.Server.{Server}
use cncremote.LinuxCnc.{Controller}
use cncremote.LinuxCnc.Reports.{lcnc}
use cncremote.LinuxCnc.Reports.Laws.{lcnc-OnlyReports}
use cncremote.EdingCnc.{Library, Eding, drive_enable}
use cncremote.EdingCnc.Connection.{is_linked}
use cncremote.EdingCnc.Reports.{machine_state, reported, update_state as eding_update}
use cncremote.EdingCnc.Overrides.{eding}
use cncremote.Mach3.{Mach}
use cncremote.Mach3.Polling.{update_state as mach_update}
use cncremote.Mach3.Members.{mach}
use cncremote.Sim.Members.{sim}
use cncremote.Network.Polls.{SameFiles, OnlyReports}

module _ {W : Type 0} ⦃d : Double W⦄ where
  module _ {C : Type 0} (lib : Library W C) where
    reported-SameFiles :
        (mode : Option ControlState) (s : Server W (Eding W C))
        → SameFiles s (reported lib mode s).1
    reported-SameFiles none s = record {
      disk = refl;
      file = refl;
      cur_block = refl;
      cur_file = refl;
    }
    reported-SameFiles (some mode) s = record {
      disk = refl;
      file = refl;
      cur_block = refl;
      cur_file = refl;
    }

    eding_update-SameFiles : (s : Server W (Eding W C)) → SameFiles s (eding_update lib s).1
    unfolding eding_update
    eding_update-SameFiles s = elim (Bool-cases (is_linked s.machine.linkage)) [
      | inl e ↦
          simp (eding_update, e)
            (reported-SameFiles
              (machine_state (lib.state s.machine.library)
                (lib.output drive_enable s.machine.library))
              s)
      | inr e ↦
          simp (eding_update, e)
            (record { disk = refl; file = refl; cur_block = refl; cur_file = refl })
    ]

    eding-OnlyReports : (looks : ℕ) → OnlyReports (eding lib looks)
    unfolding eding
    eding-OnlyReports looks = record { keeps = eding_update-SameFiles }

  -- No driver's `UpdateState` touches the files, the stream or the transfer of the server, in whatever state the
  -- machine is: polling a server of any of the four leaves an upload alone.
  pub drivers-OnlyReports :
      {C E R : Type 0} (ctl : Controller W C) (now : ℤ) (lib : Library W E) (looks : ℕ)
      (m : Mach W R)
      → OnlyReports (lcnc ctl now)
        × OnlyReports (eding lib looks)
        × OnlyReports (mach m)
        × OnlyReports {W = W} sim
  unfolding mach mach_update sim
  drivers-OnlyReports ctl now lib looks m = (
    lcnc-OnlyReports ctl now,
    eding-OnlyReports lib looks,
    record { keeps = λ s. record { disk = refl; file = refl; cur_block = refl; cur_file = refl } },
    record { keeps = λ s. record { disk = refl; file = refl; cur_block = refl; cur_file = refl } },
  )
