-- ===== src/EdingCnc/Pauses/Laws.antt =====
-- What is proved of starting and resuming a job (drivers/EdingCNC402/EdingCNC.cpp).
use cncremote.Prelude.{
  if◌then◌else◌, ℕ, zero as nat_zero, suc, ◌<◌, ◌≡◌, pos, refl, ap, Bool, true, false, some, ok,
  arith,
}
use cncremote.Comms.Arithmetic.{Double}
use cncremote.Comms.Vectors.{Axes, fill}
use cncremote.Server.{Server}
use cncremote.EdingCnc.{
  CncState, coolant1, coolant2, tool, move_to, set_output, running_axis_jog, paused_job, linked,
  run_or_resume_job, Pause, Library, Eding,
}
use cncremote.EdingCnc.Members.{send}
use cncremote.EdingCnc.Reports.{raised_to}
use cncremote.EdingCnc.Reports.Laws.{IsOrder, raised_to-highest}
use cncremote.EdingCnc.Pauses.{
  is_paused, is_axis_jog, is_paused_job, wait_move, go, outputs, at_height, move_back, is_aside,
  safe_height, check_pause, cycle_start,
}

module _ {W C : Type 0} ⦃d : Double W⦄ (lib : Library W C) where
  -- The library after a number of sleeps.
  abbrev pub slept : ℕ → C → C
  slept nat_zero c = c
  slept (suc n) c = slept n (lib.later c)

  -- The library after a move of all axes, at a fifth of the speed, to a place.
  abbrev moved_to : Axes W → C → C
  moved_to place c = send lib (move_to place (fill true) (d.literal (pos 2) 10)) c

  -- The axes jog for `k` looks at the state, and with the next one it is another.
  abbrev Halts : ℕ → CncState → C → Type 0
  Halts nat_zero st c = (lib.state (lib.later c) ≡ st) × (is_axis_jog st ≡ false)
  Halts (suc k) st c = (lib.state (lib.later c) ≡ running_axis_jog) × Halts k st (lib.later c)

  wait_move-Halts :
      (looks k : ℕ) (st : CncState) (c : C)
      → k < looks
      → Halts k st c
      → wait_move lib looks c ≡ some (is_paused_job st, slept (suc k) c)
  unfolding wait_move
  wait_move-Halts nat_zero k st c few h = absurd (omega arith)
  wait_move-Halts (suc looks) nat_zero st c few (at, over) =
      let over' : is_axis_jog (lib.state (lib.later c)) ≡ false = rw at over in
      rw (wait_move, over') (ap (λ s. some (is_paused_job s, lib.later c)) at)
  wait_move-Halts (suc looks) (suc k) st c few (at, h) =
      rw (wait_move, at) (wait_move-Halts looks k st (lib.later c) (omega arith) h)

  move_back-Halts :
      (looks k1 k2 k3 : ℕ) (p : Pause W) (height : W) (c : C)
      → k1 < looks
      → k2 < looks
      → k3 < looks
      → Halts k1 paused_job c
      → let c1 = slept (suc k1) c in
        let d1 = go lib (at_height lib p.position height) (outputs lib p c1) in
        Halts k2 paused_job d1
        → let d2 = go lib p.position (slept (suc k2) d1) in
          Halts k3 paused_job d2 → move_back lib looks p height c ≡ some (true, slept (suc k3) d2)
  unfolding move_back
  move_back-Halts looks k1 k2 k3 p height c f1 f2 f3 h1 h2 h3 =
      rw (wait_move-Halts looks k1 paused_job c f1 h1) (
        rw (wait_move-Halts looks k2 paused_job _ f2 h2)
          (rw (wait_move-Halts looks k3 paused_job _ f3 h3) refl))

  move_back-stops :
      (looks k : ℕ) (p : Pause W) (height : W) (c : C) (st : CncState)
      → k < looks
      → Halts k st c
      → is_paused_job st ≡ false
      → move_back lib looks p height c ≡ some (false, slept (suc k) c)
  unfolding move_back
  move_back-stops looks k p height c st few h other =
      rw (wait_move-Halts looks k st c few h, other) refl

  module _ (looks : ℕ) (s : Server W (Eding W C)) where
    abbrev pause_of : Pause W
    pause_of = lib.pause s.machine.library

    abbrev place_of : Axes W
    place_of = lib.machine_pos s.machine.library

    -- The height to which the machine is raised, and the library once it is asked to.
    abbrev top : W
    top = safe_height lib s.machine.z_max place_of pause_of.position

    abbrev raised_lib : C
    raised_lib = go lib (at_height lib place_of top) s.machine.library

    -- The library is loaded and paused, not for something to be done by hand; the pause is valid, and the machine has been moved
    -- aside since.
    pub record IsAside : Type 0 where
      pub there : s.machine.linkage ≡ linked
      pub waiting : is_paused (lib.state s.machine.library) ≡ true
      pub automatic : pause_of.manual_action ≡ false
      pub valid : pause_of.valid ≡ true
      pub moved : lib.same pause_of.position place_of ≡ false
      pub aside : is_aside lib place_of pause_of.position ≡ true

    abbrev with_top : C → Server W (Eding W C)
    with_top c = record s { machine = record machine { z_max = top; library = c } }
      where
        open s use {machine}

    cycle_start-went :
        (done : Bool) (c : C)
        → IsAside
        → move_back lib looks pause_of top raised_lib ≡ some (done, c)
        → cycle_start lib looks s
          ≡ (ok tt, with_top (if done then send lib run_or_resume_job c else c))
    unfolding cycle_start check_pause
    cycle_start-went true c a back =
        simp (a.there, a.waiting, a.automatic, a.valid, a.moved, a.aside, back) refl
    cycle_start-went false c a back =
        simp (a.there, a.waiting, a.automatic, a.valid, a.moved, a.aside, back) refl

    -- A height to which the machine can be raised from where it is.
    abbrev IsHigh : W → Type 0
    IsHigh z =
        (d.lt z place_of.z ≡ false)
        × (d.lt z pause_of.position.z ≡ false)
        × (d.lt z s.machine.z_max ≡ false)

    top-IsHigh : IsOrder d → IsHigh top
    top-IsHigh o =
        let height = raised_to lib place_of.z s.machine.z_max in
        let first = raised_to-highest lib o place_of.z s.machine.z_max in
        let second = raised_to-highest lib o pause_of.position.z height in
        (
          o.trans place_of.z height top first.0 second.1,
          second.0,
          o.trans s.machine.z_max height top first.1 second.1,
        )

    -- For a `double` without NaN: when the machine has been moved aside from where it paused, not for something to be
    -- done by hand, and each of three moves ends, within the looks at the state that are followed, with the job
    -- paused, then `CycleStart` raises the machine where it stands, to a height that is below none of its own, that of
    -- the pause and `m_zMax`; sets mist, flood and then the spindle to what the pause says of each; moves at that height
    -- over the pause's position, then down to it; and only then resumes the job. Nothing else is sent.
    pub cycle_start-resumes :
        IsOrder d
        → (k1 k2 k3 : ℕ) → IsAside
        → k1 < looks
        → k2 < looks
        → k3 < looks
        → Halts k1 paused_job raised_lib
        → let over =
            go lib
              (at_height lib pause_of.position top)
              (outputs lib pause_of (slept (suc k1) raised_lib)) in
          Halts k2 paused_job over
          → let down = go lib pause_of.position (slept (suc k2) over) in
            Halts k3 paused_job down
            → (z : W) × IsHigh z
              × (cycle_start lib looks s ≡ (
                ok tt,
                record s {
                  machine = record (s.machine) {
                    z_max = z;
                    library = send lib run_or_resume_job (
                        slept (suc k3) (
                          moved_to pause_of.position (
                            slept (suc k2) (
                              moved_to
                                (record (pause_of.position) { z = z })
                                (send lib (set_output tool pause_of.spindle) (
                                  send lib (set_output coolant1 pause_of.flood) (
                                    send lib (set_output coolant2 pause_of.mist) (
                                      slept (suc k1) (
                                        moved_to
                                          (record place_of { z = z })
                                          s.machine.library)))))))));
                  };
                },
              ))
    cycle_start-resumes o k1 k2 k3 a f1 f2 f3 h1 h2 h3 = (
      top,
      top-IsHigh o,
      cycle_start-went true _ a
          (move_back-Halts looks k1 k2 k3 pause_of top raised_lib f1 f2 f3 h1 h2 h3),
    )

    -- For a `double` without NaN: when the machine has been moved aside from where it paused, not for something to be
    -- done by hand, and the move that raises it ends, within the looks that are followed, in another state than a
    -- paused job, such as a paused line, then `CycleStart` has sent this move alone, to a height that is below none of
    -- the machine's, that of the pause and `m_zMax`; it does not resume the job.
    pub cycle_start-stops :
        IsOrder d
        → (k : ℕ) (st : CncState) → IsAside
        → k < looks
        → Halts k st raised_lib
        → is_paused_job st ≡ false
        → (z : W) × IsHigh z
          × (cycle_start lib looks s ≡ (
            ok tt,
            record s {
              machine = record (s.machine) {
                z_max = z;
                library = slept (suc k) (moved_to (record place_of { z = z }) s.machine.library);
              };
            },
          ))
    cycle_start-stops o k st a few h other = (
      top,
      top-IsHigh o,
      cycle_start-went false _ a (move_back-stops looks k pause_of top raised_lib st few h other),
    )
