-- ===== src/Entries/LinuxCnc/Laws.antt =====
-- How the server's program for LinuxCNC goes from one connection to the next (drivers/linuxcnc/server/main.cpp).
use cncremote.Prelude.{
  ℕ, zero, suc, ◌<◌, ◌≡◌, refl, ◌∙◌, ap, Bool, true, false, Bytes, Option, some, Result, ok, raised,
  undefined, continue, pure, take, c_string, arith, is_empty, Bool-cases, inl, inr,
}
use cncremote.Comms.Arithmetic.{Double}
use cncremote.Server.{Server}
use cncremote.Server.Logs.{log_error, log_message}
use cncremote.LinuxCnc.{
  Controller, Lcnc, News, NewsKind, error_text, message_text, unknown_text, unreadable, nothing,
  arrived,
}
use cncremote.LinuxCnc.Reports.{is_ok, log, is_last, read_news, poll}
use cncremote.LinuxCnc.Connecting.{Nml, Joining, returned, connect_lcnc}
use cncremote.Entries.LinuxCnc.{
  Machine, Beside, again, joining, served, polled, unless_ended, poll_while, left, polling,
  pass_once,
}

module _ {W C : Type 0} ⦃d : Double W⦄ (ctl : Controller W C) where
  log-ok :
      (kind : NewsKind) (text : Bytes) (s : Server W (Lcnc W C)) → (log ctl kind text s).0 ≡ ok tt
  unfolding log_error log_message
  log-ok error_text text s = elim (Bool-cases (is_empty (take ctl.line_len (c_string text)))) [
    | inl e ↦ simp e refl
    | inr e ↦ simp e refl
  ]
  log-ok message_text text s = elim (Bool-cases (is_empty (take ctl.line_len (c_string text)))) [
    | inl e ↦ simp e refl
    | inr e ↦ simp e refl
  ]
  log-ok unknown_text text s = refl

  then_true :
      (r : Result (Unit {0}) × Server W (Lcnc W C))
      → r.0 ≡ ok tt
      → (continue r (λ _. pure true)).0 ≡ ok true
  then_true (ok tt, s) e = refl
  then_true (raised m, s) e = absurd cc
  then_true (undefined f, s) e = absurd cc

  read_news-true : (news : News) (s : Server W (Lcnc W C)) → (read_news ctl news s).0 ≡ ok true
  read_news-true unreadable s = refl
  read_news-true nothing s = refl
  read_news-true (arrived address kind text) s =
      elim (Bool-cases (is_last ctl s.machine.last_message address)) [
        | inl e ↦ simp e refl
        | inr e ↦ simp e (then_true (log ctl kind text _) (log-ok kind text _))
      ]

  -- `Poll` goes on exactly while the channels are there and valid.
  poll_lem : (s : Server W (Lcnc W C)) → (poll ctl s).0 ≡ ok (is_ok ctl s.machine)
  unfolding poll
  poll_lem s = elim (Bool-cases (is_ok ctl s.machine)) [
    | inl e ↦ rw e (read_news-true (ctl.news s.machine.channel) s)
    | inr e ↦ rw e refl
  ]

  poll_off : (s : Server W (Lcnc W C)) → is_ok ctl s.machine ≡ false → poll ctl s ≡ (ok false, s)
  unfolding poll
  poll_off s e = simp e refl

  -- A poll of a server whose channels are there does not end the loop.
  unless_ended-on :
      (r : Result Bool × Server W (Lcnc W C))
      (next : Server W (Lcnc W C) → Option (Server W (Lcnc W C))) (nml : Nml W C) (b : Beside W C)
      → r.0 ≡ ok true
      → unless_ended ctl nml b r next ≡ next r.1
  unless_ended-on (ok true, s) next nml b e = refl
  unless_ended-on (ok false, s) next nml b e = absurd cc
  unless_ended-on (raised m, s) next nml b e = absurd cc
  unless_ended-on (undefined f, s) next nml b e = absurd cc

  module _ (nml : Nml W C) (b : Beside W C) (pass : ℕ) where
    -- The server at a poll, from a poll on, if the loop comes to it.
    abbrev pub faces : ℕ → ℕ → Server W (Lcnc W C) → Server W (Lcnc W C)
    faces i zero s = served ctl nml b pass i s
    faces i (suc k) s = faces (suc i) k (polled ctl nml b pass i s).1

    poll_while-ends :
        (fuel k i : ℕ) (s : Server W (Lcnc W C))
        → k < fuel
        → ((j : ℕ) → j < k → is_ok ctl (faces i j s).machine ≡ true)
        → is_ok ctl (faces i k s).machine ≡ false
        → poll_while ctl nml b fuel pass i s ≡ some (faces i k s)
    unfolding poll_while
    poll_while-ends zero k i s few on off = absurd (omega arith)
    poll_while-ends (suc fuel) zero i s few on off =
        ap (λ r. unless_ended ctl nml b r (poll_while ctl nml b fuel pass (suc i)))
          (poll_off (served ctl nml b pass i s) off)
    poll_while-ends (suc fuel) (suc k) i s few on off =
        unless_ended-on (polled ctl nml b pass i s) (poll_while ctl nml b fuel pass (suc i)) nml b
          (poll_lem (served ctl nml b pass i s) ∙ ap ok (on 0 (omega arith)))
        ∙ poll_while-ends fuel k (suc i) (polled ctl nml b pass i s).1 (omega arith)
            (λ j h. on (suc j) (omega arith)) off

    -- The server as `ConnectLCnc` leaves it.
    abbrev pub joined : Machine W C → Joining W C → Server W (Lcnc W C)
    joined v j = record (v.server) { machine = j.lcnc }

    -- A pass in which `ConnectLCnc` returns, whatever it returns, and after which the channels to LinuxCNC are there at
    -- `k` polls and no longer at the next, whatever the requests of clients do in between, ends with this poll, if it
    -- is followed so far: the channels are closed and none is kept for the next
    -- pass. What the server held besides, it keeps.
    pub pass_once-ends :
        (attempts fuel k : ℕ) (v : Machine W C) (works : Bool) (j : Joining W C)
        → connect_lcnc ctl nml attempts (b.clock pass) (joining ctl nml b v)
          ≡ some (returned works j)
        → k < fuel
        → ((i : ℕ) → i < k → is_ok ctl (faces 0 i (joined v j)).machine ≡ true)
        → is_ok ctl (faces 0 k (joined v j)).machine ≡ false
        → let s = faces 0 k (joined v j) in
          (v' : Machine W C) × (pass_once ctl nml b attempts fuel pass v ≡ some (again v'))
          × (v'.has_command ≡ false)
          × (v'.has_error ≡ false)
          × (v'.server ≡ record s {
            machine = record (s.machine) {
              has_status = false;
              channel = ctl.disconnect (s.machine.channel);
            };
          })
    unfolding pass_once
    pass_once-ends attempts fuel k v works j connects few on off =
        let e = poll_while-ends fuel k 0 (joined v j) few on off in
        let full = ap (polling ctl nml b fuel pass v) connects ∙ ap (left ctl nml b j) e in
        (_, full, refl, refl, refl)
