-- ===== src/Timers/Laws.antt =====
-- What is proved of the timers (src/timer.cpp).
use cncremote.Prelude.{
  ℕ, ◌+◌, ◌-◌, ◌*◌, ◌%◌, ◌^◌, ◌≤◌, ◌<◌, ◌≡◌, Bool, true, false, List, [], ◌∷◌, arith,
}
use cncremote.Timers.{Timespec, UTimer, micros, get_elapsed, sleep_ms}

-- The times that a timer gives which is started anew with each reading of the clock.
abbrev pub laps : List Timespec → UTimer → List ℕ
laps [] t = []
laps (now ∷ nows) t =
    let rest = laps nows (get_elapsed true now t).1 in (get_elapsed true now t).0 ∷ rest

abbrev pub sum : List ℕ → ℕ
sum [] = 0
sum (n ∷ ns) = n + sum ns

abbrev pub last : Timespec → List Timespec → Timespec
last now [] = now
last now (later ∷ nows) = last later nows

telescope :
    (a b c : ℕ)
    → a < 2 ^ 64
    → b < 2 ^ 64
    → c < 2 ^ 64
    → ((b + 2 ^ 64 - a) % 2 ^ 64 + (c + 2 ^ 64 - b) % 2 ^ 64) % 2 ^ 64 ≡ (c + 2 ^ 64 - a) % 2 ^ 64
telescope a b c p q r = omega arith

micros-small : (t : Timespec) → micros t < 2 ^ 64
unfolding micros
micros-small t = omega arith

telescoped :
    (a b c more : ℕ)
    → a < 2 ^ 64
    → b < 2 ^ 64
    → c < 2 ^ 64
    → more % 2 ^ 64 ≡ (c + 2 ^ 64 - b) % 2 ^ 64
    → ((b + 2 ^ 64 - a) % 2 ^ 64 + more) % 2 ^ 64 ≡ (c + 2 ^ 64 - a) % 2 ^ 64
telescoped a b c more p q r e = omega arith

same_time : (a : ℕ) → 0 ≡ (a + 2 ^ 64 - a) % 2 ^ 64
same_time a = omega arith

laps-sum :
    (first : Timespec) (nows : List Timespec)
    → sum (laps nows (record { time = first })) % 2 ^ 64
      ≡ (micros (last first nows) + 2 ^ 64 - micros first) % 2 ^ 64
unfolding get_elapsed
laps-sum first [] = same_time (micros first)
laps-sum first (now ∷ nows) =
    telescoped (micros first) (micros now) (micros (last now nows))
      (sum (laps nows (record { time = now }))) (micros-small first) (micros-small now)
      (micros-small (last now nows)) (laps-sum now nows)

-- No time is lost or counted twice by starting the timer anew with each reading: the times that it gives add up, modulo
-- 2^64, to what a timer gives at the last reading that was started with the first and never since.
pub get_elapsed-adds :
    (t : UTimer) (now : Timespec) (nows : List Timespec)
    → sum (laps (now ∷ nows) t) % 2 ^ 64 ≡ (get_elapsed false (last now nows) t).0
unfolding get_elapsed
get_elapsed-adds t now nows = laps-sum (t.time) (now ∷ nows)

abbrev pub nanos : Timespec → ℕ
nanos t = t.nsec + t.sec * 1000000000

-- If the clock did not go back, gave valid times, and has not run for 2^64 microseconds, then what the timer gives is
-- less than a microsecond away from the time in nanoseconds.
pub get_elapsed-IsClose :
    (restarts : Bool) (now : Timespec) (t : UTimer)
    → now.nsec < 10 ^ 9
    → t.time.nsec < 10 ^ 9
    → nanos t.time ≤ nanos now
    → now.sec < 18446744073709
    → let elapsed = (get_elapsed restarts now t).0 * 1000 in
      (elapsed < nanos now - nanos t.time + 1000) × (nanos now - nanos t.time < elapsed + 1000)
unfolding get_elapsed micros
get_elapsed-IsClose restarts now t valid valid' forward early = (omega arith, omega arith)

-- A sleep is for exactly the time that was asked for, in a form that `nanosleep` takes.
sleep_ms-IsExact :
    (time : ℕ) → (nanos (sleep_ms time) ≡ time * 1000000) × ((sleep_ms time).nsec < 10 ^ 9)
unfolding sleep_ms
sleep_ms-IsExact time = (omega arith, omega arith)
