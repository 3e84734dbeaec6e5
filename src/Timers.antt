-- ===== src/Timers.antt =====
-- src/timer.cpp and include/timer.h, in the branch for unix: a sleep, a timer of microseconds, and the timer for
-- debugging.
pub mod Laws
use cncremote.Prelude.{
  ℕ, ℤ, pos, negsuc, sub_ℕ, pos_part, neg_part, ◌+◌, ◌-◌, ◌*◌, ◌/◌, ◌%◌, ◌^◌, ltb, Bool, true,
  Bytes, Option, none, some, if◌then◌else◌,
}

-- `struct timespec`
pub record Timespec : Type 0 where
  pub sec : ℕ
  pub nsec : ℕ

-- What `SleepMs` hands to `nanosleep`.
unfoldable pub sleep_ms : ℕ → Timespec
sleep_ms time = record { sec = time / 1000; nsec = time % 1000 * 1000000 }

-- `UTimer`, with the clock as an argument of its members.
pub record UTimer : Type 0 where
  pub time : Timespec

abbrev pub restart : Timespec → UTimer → UTimer
restart now t = record { time = now }

-- `UTimer::UTimer`
abbrev pub new_timer : Timespec → UTimer
new_timer now = record { time = now }

-- Microseconds, as a `uint64_t`.
unfoldable pub micros : Timespec → ℕ
micros t = (t.nsec / 1000 + t.sec * 1000000) % 2 ^ 64

-- `GetElapsed`
unfoldable pub get_elapsed : Bool → Timespec → UTimer → ℕ × UTimer
unfolding micros
get_elapsed restarts now t =
    ((micros now + 2 ^ 64 - micros t.time) % 2 ^ 64, if restarts then restart now t else t)

-- `TestTimer`
pub record TestTimer : Type 0 where
  pub timer : UTimer
  pub msg : Bytes
  pub last_time : ℕ

abbrev pub new_test_timer : Timespec → Bytes → TestTimer
new_test_timer now msg = record { timer = new_timer now; msg = msg; last_time = 0 }

-- A `uint64_t` as an `int64_t`.
abbrev as_signed : ℕ → ℤ
as_signed n = if ltb n (2 ^ 63) then pos n else sub_ℕ n (2 ^ 64)

-- `abs` of the difference of two of them.
abbrev distance : ℤ → ℤ → ℕ
distance a b =
    let up = pos_part a + neg_part b in
    let down = pos_part b + neg_part a in if ltb up down then down - up else up - down

abbrev shown : ℕ × UTimer → TestTimer → Option ℕ × TestTimer
shown (diff, u) t =
    if ltb (t.last_time / 5) (distance (as_signed diff) (as_signed t.last_time))
    then (some diff, record t { timer = u; last_time = diff })
    else (none, record t { timer = u })

-- `Check`, with the time that it shows, in microseconds.
unfoldable pub check : Timespec → TestTimer → Option ℕ × TestTimer
unfolding get_elapsed
check now t = shown (get_elapsed true now t.timer) t
