-- ===== src/EdingCnc/Overrides/Laws.antt =====
-- What is proved of the server for EdingCNC as a driver (drivers/EdingCNC402/EdingCNC.cpp).
use cncremote.Prelude.{
  Option, pos, ◌≡◌, ◌≢◌, refl, ap, true, false, none, some, ok, undefined, unset_function,
}
use cncremote.Comms.{ControlState, mc_idle}
use cncremote.Comms.Arithmetic.{Double}
use cncremote.Comms.Vectors.{Axes}
use cncremote.Server.{Server}
use cncremote.EdingCnc.{
  CncState, powerup, idle, ready, exec_error, running_job, drive_enable, set_output, start_jog,
  Library, Eding,
}
use cncremote.EdingCnc.Connection.{is_linked, with_library, poll_connected, poll}
use cncremote.EdingCnc.Registry.{Windows, gui_running}
use cncremote.EdingCnc.Reports.{machine_state, report, reported, update_state}
use cncremote.EdingCnc.Members.{send, drives_on, drives_off, jog_step}

machine_state-off : (st : CncState) → machine_state st false ≢ some mc_idle
machine_state-off powerup e = cc
machine_state-off idle e = cc
machine_state-off ready e = cc
machine_state-off exec_error e = cc
machine_state-off _ e = cc

module _ {W C : Type 0} ⦃d : Double W⦄ (lib : Library W C) where
  reported-idle :
      (m : Option ControlState) (s : Server W (Eding W C))
      → m ≢ some mc_idle
      → (reported lib m s).1.state.machine_state ≢ mc_idle
  unfolding report
  reported-idle none s other e = cc
  reported-idle (some mode) s other e = other (ap some e)

  update_state-off :
      (s : Server W (Eding W C))
      → is_linked s.machine.linkage ≡ true
      → lib.output drive_enable s.machine.library ≡ false
      → (update_state lib s).1.state.machine_state ≢ mc_idle
  unfolding update_state
  update_state-off s there off =
      simp (there, off)
        (reported-idle (machine_state (lib.state s.machine.library) false) s
          (machine_state-off (lib.state s.machine.library)))

  drives_on-sends :
      (s : Server W (Eding W C))
      → is_linked s.machine.linkage ≡ true
      → lib.em_stop s.machine.library ≡ false
      → drives_on lib false s
        ≡ (ok tt, with_library (drives_off lib (lib.state s.machine.library) s.machine.library) s)
  unfolding drives_on
  drives_on-sends s there free = simp (there, free) refl

  -- With a library that shows an output as it was set last, no update straight after the drives were turned off
  -- reports the machine as idle, whatever state the library is in, if the library is loaded and no emergency
  -- stop is active.
  pub drives_on-reported :
      (s : Server W (Eding W C))
      → ((c : C) → lib.output drive_enable (send lib (set_output drive_enable (pos 0)) c) ≡ false)
      → is_linked s.machine.linkage ≡ true
      → lib.em_stop s.machine.library ≡ false
      → (update_state lib (drives_on lib false s).1).1.state.machine_state ≢ mc_idle
  drives_on-reported s shows there free =
      rw (drives_on-sends s there free) (update_state-off _ there (shows _))

  -- A step jog is ignored while the machine is ready, and is sent on while a job runs.
  jog_step-running :
      (distance : Axes W) (speed : W) (s : Server W (Eding W C))
      → is_linked s.machine.linkage ≡ true
      → d.lt speed d.nought ≡ false
      → d.eq speed d.nought ≡ false
      → (lib.state s.machine.library ≡ ready → jog_step lib distance speed s ≡ (ok tt, s))
        × (lib.state s.machine.library ≡ running_job
            → jog_step lib distance speed s ≡ (
              ok tt,
              with_library
                  (send lib
                    (start_jog distance (d.mul speed s.state.max_feed_lin) false)
                    s.machine.library)
                  s,
            ))
  unfolding jog_step
  jog_step-running distance speed s there up moves =
      (λ e. simp (up, moves, there, e) refl, λ e. simp (up, moves, there, e) refl)

  poll_connected-absent :
      (w : Windows) (s : Server W (Eding W C))
      → poll_connected lib none w s
        ≡ (ok tt, record s { machine = record (s.machine) { connect_count = 0 } })
  unfolding poll_connected gui_running
  poll_connected-absent w s = refl

  -- Until the library is loaded `Poll` calls a function that was not set, if Eding CNC does not run.
  poll-unlinked :
      (w : Windows) (s : Server W (Eding W C))
      → is_linked s.machine.linkage ≡ false
      → (poll lib none w s).0 ≡ undefined unset_function
  unfolding poll
  poll-unlinked w s there = simp (poll_connected-absent w s, there) refl
