-- ===== src/Examples/Times.antt =====
-- Readings of the clock.
use cncremote.Prelude.{ℕ, ◌+◌, ◌*◌, ◌<◌, ◌≡◌, ◌%◌, ◌^◌, true, false, [], ◌∷◌, arith}
use cncremote.Timers.{Timespec, UTimer, get_elapsed, new_timer}
use cncremote.Timers.Laws.{laps, sum, get_elapsed-adds, get_elapsed-IsClose}

abbrev reading : ℕ → ℕ → Timespec
reading sec nsec = record { sec = sec; nsec = nsec }

abbrev timer : UTimer
timer = new_timer (reading 7 999999999)

get_elapsed-adds_example :
    sum (laps (reading 8 1500 ∷ reading 8 2499 ∷ reading 9 0 ∷ []) timer) % 2 ^ 64
    ≡ (get_elapsed false (reading 9 0) timer).0
get_elapsed-adds_example =
    get_elapsed-adds timer (reading 8 1500) (reading 8 2499 ∷ reading 9 0 ∷ [])

get_elapsed-IsClose_example :
    let elapsed = (get_elapsed true (reading 8 1500) timer).0 * 1000 in
    (elapsed < 1501 + 1000) × (1501 < elapsed + 1000)
get_elapsed-IsClose_example =
    get_elapsed-IsClose true (reading 8 1500) timer (omega arith) (omega arith) (omega arith)
      (omega arith)
