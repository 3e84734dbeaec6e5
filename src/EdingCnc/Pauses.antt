-- ===== src/EdingCnc/Pauses.antt =====
-- `CycleStart`, `CheckPause` and `WaitMove` of drivers/EdingCNC402/EdingCNC.cpp: a job is started, or
-- resumed after the machine has gone back to where it paused.
pub mod Laws
use cncremote.Prelude.{
  ℕ, zero as nat_zero, suc, ℤ, pos, negsuc, ◌-◌, ◌^◌, Bool, true, false, not, ◌||◌, Option, none,
  some, Result, ok, undefined, endless, if◌then◌else◌,
}
use cncremote.Comms.Arithmetic.{Double}
use cncremote.Comms.Vectors.{Axes, fill}
use cncremote.Server.{Server}
use cncremote.EdingCnc.{
  CncState, paused_line, paused_job, paused_sub, paused_line_search, paused_sub_search,
  running_axis_jog, coolant1, coolant2, tool, move_to, set_output, run_or_resume_job, Pause,
  Library, Eding,
}
use cncremote.EdingCnc.Connection.{linked_only, with_library}
use cncremote.EdingCnc.Reports.{raised_to}
use cncremote.EdingCnc.Members.{Does, send}

abbrev pub is_paused : CncState → Bool
is_paused paused_line = true
is_paused paused_job = true
is_paused paused_sub = true
is_paused paused_line_search = true
is_paused paused_sub_search = true
is_paused _ = false

abbrev pub is_axis_jog : CncState → Bool
is_axis_jog running_axis_jog = true
is_axis_jog _ = false

abbrev pub is_paused_job : CncState → Bool
is_paused_job paused_job = true
is_paused_job _ = false

module _ {W C : Type 0} ⦃d : Double W⦄ (lib : Library W C) where
  -- `WaitMove`, for a number of looks at the state; `none` if it still waits after them.
  unfoldable pub wait_move : ℕ → C → Option (Bool × C)
  wait_move nat_zero c = none
  wait_move (suc looks) c = elim (is_axis_jog (lib.state (lib.later c))) [
    | true ↦ wait_move looks (lib.later c)
    | false ↦ some (is_paused_job (lib.state (lib.later c)), lib.later c)
  ]

  -- `if(!WaitMove()) return(false);` and what follows.
  abbrev pub if_moved : Option (Bool × C) → (C → Option (Bool × C)) → Option (Bool × C)
  if_moved none next = none
  if_moved (some (false, c)) next = some (false, c)
  if_moved (some (true, c)) next = next c

  abbrev pub go : Axes W → C → C
  go to = send lib (move_to to (fill true) (d.literal (pos 2) 10))

  -- Mist, flood and spindle as they were at the pause.
  abbrev pub outputs : Pause W → C → C
  outputs p c =
      send lib (set_output tool p.spindle)
        (send lib (set_output coolant1 p.flood) (send lib (set_output coolant2 p.mist) c))

  abbrev pub at_height : Axes W → W → Axes W
  at_height v z = record v { z = z }

  -- The moves back to the position of the pause, from one of which the height is that given.
  unfoldable pub move_back : ℕ → Pause W → W → C → Option (Bool × C)
  move_back looks p height c = if_moved (wait_move looks c) λ c1.
      if_moved (wait_move looks (go (at_height p.position height) (outputs p c1)))
        λ c2. if_moved (wait_move looks (go p.position c2)) λ c3. some (true, c3)

  abbrev pub is_aside : Axes W → Axes W → Bool
  is_aside m p = not (d.eq m.x p.x) || not (d.eq m.y p.y)

  -- `m_zMax` becomes at least the heights of the machine and of the pause.
  abbrev pub safe_height : W → Axes W → Axes W → W
  safe_height z_max m p = raised_to lib p.z (raised_to lib m.z z_max)

  abbrev with_parts : W → Option (Bool × C) → Eding W C → Option (Bool × Eding W C)
  with_parts z none e = none
  with_parts z (some (done, c)) e = some (done, record e { z_max = z; library = c })

  abbrev retract : ℕ → Pause W → Axes W → Eding W C → Option (Bool × Eding W C)
  retract looks p m e =
      let z = safe_height e.z_max m p.position in
      with_parts z
        (if is_aside m p.position
          then move_back looks p z (go (at_height m z) e.library)
          else move_back looks p m.z e.library)
        e

  -- `CheckPause`
  unfoldable pub check_pause : ℕ → Eding W C → Option (Bool × Eding W C)
  check_pause looks e =
      let p = lib.pause e.library in
      if p.manual_action
      then some (true, e)
      else if not p.valid
      then some (false, e)
      else if lib.same p.position (lib.machine_pos e.library)
      then some (true, e)
      else retract looks p (lib.machine_pos e.library) e

  abbrev resume : C → C
  resume c = send lib run_or_resume_job c

  abbrev resumed :
      Option (Bool × Eding W C) → Server W (Eding W C) → Result (Unit {0}) × Server W (Eding W C)
  resumed none s = (undefined endless, s)
  resumed (some (false, e)) s = (ok tt, record s { machine = e })
  resumed (some (true, e)) s =
      (ok tt, record s { machine = record e { library = resume (e.library) } })

  -- `CycleStart`, followed for a number of looks in each wait.
  unfoldable pub cycle_start : ℕ → Does lib (Unit {0})
  cycle_start looks = linked_only λ s.
      if is_paused (lib.state s.machine.library)
      then resumed (check_pause looks s.machine) s
      else resumed (some (true, record (s.machine) { z_max = d.literal (negsuc (10 ^ 17 - 1)) 1 }))
          s
