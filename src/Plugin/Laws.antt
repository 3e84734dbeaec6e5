-- ===== src/Plugin/Laws.antt =====
-- What is proved of the plugin for LinuxCNC (drivers/linuxcnc/plugin/main.cpp).
use cncremote.Prelude.{
  ℕ, zero as nat_zero, suc, ◌+◌, ◌<◌, ltb, ◌≡◌, refl, ap, ◌∙◌, Bool, true, false, Bytes, codes, [],
  ◌∷◌, ◌++◌, raised, some, ok, is_empty, arith, negsuc, if◌then◌else◌,
}
use cncremote.Comms.Wire.{Wire}
use cncremote.Client.Calls.{new_call, call}
use cncremote.Client.Session.{timeout}
use cncremote.Plugin.{
  Shell, Plugin, exec_poll, exec_start, start, waited, wait_server, run_exec, slept, judged,
  is_zero, control_exists,
}

if_true {ℓ} : {A : Type ℓ} (b : Bool) (x y : A) → b ≡ true → (if b then x else y) ≡ x
if_true b x y e = rw e refl

module _ {X W : Type 0} (w : Wire W) (sh : Shell X w.Any) where
  never : (n k : ℕ) → ltb (n + k) n ≡ false
  never n k = ground arith

  wait_server-over :
      (n rounds : ℕ) (p : Plugin X)
      → wait_server w sh (suc n) rounds (sh.now p.outside + sh.second) p ≡ some (false, p)
  unfolding wait_server
  wait_server-over n rounds p = rw (wait_server, never (sh.now p.outside) sh.second) refl

  -- A request for "Version" on a new socket throws.
  abbrev Unanswered : Plugin X → Bytes → X → Type 0
  Unanswered p what x =
      ((call w timeout (sh.version (sh.connect p.outside)).0 new_call).0 ≡ raised what)
      × ((sh.version (sh.connect p.outside)).1 ≡ x)

  -- If the call that `Ping` makes throws, as it does when no server answers in time, the plugin starts the server
  -- that it found, but does not wait for it: the loop's condition has the two times the wrong way round, and fails
  -- at once. `Start` returns false while the server comes up.
  pub start-impatient :
      (rounds : ℕ) (p : Plugin X) (what : Bytes) (x y : X)
      → Unanswered p what x
      → is_empty p.server_path ≡ false
      → sh.popen p.server_path x ≡ (true, y)
      → start w sh (suc rounds) p
        ≡ (ok false, record p { exec = true; exec_ret = negsuc 0; outside = y })
  unfolding start exec_start wait_server call new_call
  start-impatient rounds p what x y (silent, at) found opens =
      simp (silent, at, found, opens)
        (ap (λ r. waited w sh r (record p { exec = true; exec_ret = negsuc 0; outside = y }))
          (wait_server-over rounds (suc rounds)
            (record p { exec = true; exec_ret = negsuc 0; outside = y })))

  -- The rounds of the loop that runs the script.
  abbrev after_rounds : ℕ → Plugin X → Plugin X
  after_rounds nat_zero p = p
  after_rounds (suc n) p = after_rounds n (slept w sh (exec_poll w sh p).1)

  run_exec-ends :
      (rounds k : ℕ) (p : Plugin X)
      → k < rounds
      → ((i : ℕ) → i < k → (after_rounds i p).exec ≡ true)
      → (after_rounds k p).exec ≡ false
      → run_exec w sh rounds p ≡ some (after_rounds k p)
  unfolding run_exec
  run_exec-ends nat_zero k p few runs ends = absurd (omega arith)
  run_exec-ends (suc n) nat_zero p few runs ends = simp ends refl
  run_exec-ends (suc n) (suc k) p few runs ends =
      if_true p.exec (run_exec w sh n (slept w sh (exec_poll w sh p).1)) (some p)
        (runs 0 (omega arith))
      ∙ run_exec-ends n k (slept w sh (exec_poll w sh p).1) (omega arith)
          (λ i h. runs (suc i) (omega arith)) ends

  -- If the call that `Ping` makes throws, and the script that looks for LinuxCNC runs and ends within the rounds that are followed,
  -- then the control is there exactly if the script ends with the status 0, and only then the path of the
  -- server is set.
  control_exists-status :
      (rounds k : ℕ) (dir what : Bytes) (p : Plugin X) (x y : X)
      → Unanswered p what x
      → sh.popen (dir ++ codes "linuxcncserver/cncremote.sh -c 2>&1") x ≡ (true, y)
      → let asked = record p {
        exec = true;
        exec_ret = negsuc 0;
        outside = y;
        log = p.log ++ what ∷ [];
      } in
        let q = after_rounds k asked in
        k < rounds
        → ((i : ℕ) → i < k → (after_rounds i asked).exec ≡ true)
        → q.exec ≡ false
        → control_exists w sh rounds dir p ≡ (
            if is_zero q.exec_ret
            then (
              ok true,
              record q { server_path = dir ++ codes "linuxcncserver/cncremote.sh 2>&1" },
            )
            else (ok false, q))
  unfolding control_exists exec_start call new_call
  control_exists-status rounds k dir what p x y (silent, at) opens few runs ends =
      simp (silent, at, opens)
        (ap (λ r. judged w sh dir r asked) (run_exec-ends rounds k asked few runs ends))
    where
      asked : Plugin X
      asked = record p { exec = true; exec_ret = negsuc 0; outside = y; log = p.log ++ what ∷ [] }
