-- ===== src/LinuxCnc/Reports/Laws.antt =====
-- What the server for LinuxCNC reports (drivers/linuxcnc/server/linuxcnc.cpp).
use cncremote.Prelude.{
  ℕ, ℤ, ltb_ℤ, ◌==◌, ◌≡◌, refl, true, false, Bytes, [], take, Bool-cases, inl, inr, pure, ◌>>◌,
  codes, c_string, ◌∷◌,
}
use cncremote.Comms.{mc_offline}
use cncremote.Comms.Arithmetic.{Double}
use cncremote.Server.{Server}
use cncremote.Server.Logs.{log_error, log_message}
use cncremote.Server.Logs.Laws.{IsCounted, log-IsCounted}
use cncremote.LinuxCnc.{
  Controller, Lcnc, News, unreadable, nothing, arrived, NewsKind, error_text, message_text,
  unknown_text,
}
use cncremote.LinuxCnc.Reports.{update_state, poll, lcnc, is_ok, log, is_last, told, read_news}
use cncremote.Network.Polls.{OnlyReports}

module _ {W C : Type 0} ⦃d : Double W⦄ (ctl : Controller W C) where
  -- The driver for LinuxCNC reports the machine's state and leaves transfers alone, as the theorem on whole
  -- uploads asks of a driver.
  pub lcnc-OnlyReports : (now : ℤ) → OnlyReports (lcnc ctl now)
  unfolding lcnc update_state
  lcnc-OnlyReports now = record {
    keeps = λ s. record { disk = refl; file = refl; cur_block = refl; cur_file = refl };
  }

  -- If the channels are valid and can be read, and at an update more than a second after the last
  -- check the heartbeat has not changed since, then the channels are dropped and the state is
  -- offline; a later update, at whatever time, changes nothing.
  update_state-offline :
      (now later : ℤ) (s : Server W (Lcnc W C))
      → s.machine.has_status ≡ true
      → ctl.is_valid s.machine.channel ≡ true
      → (ctl.peek s.machine.channel).0 ≡ false
      → ltb_ℤ s.machine.next_time now ≡ true
      → (s.machine.heartbeat == (ctl.status (ctl.peek s.machine.channel).1).heartbeat) ≡ true
      → let once = (update_state ctl now s).1 in
        let again = (update_state ctl later once).1 in
        (once.state.machine_state ≡ mc_offline) × (once.machine.has_status ≡ false) × (again ≡ once)
  unfolding update_state
  update_state-offline now later s there valid read late still =
      rw (there, valid, read, late, still) (refl, refl, refl)

  logged_error :
      (text : Bytes) (s : Server W (Lcnc W C))
      → IsCounted (log_error text s).1
      → IsCounted ((log_error text >> pure true) s).1
  unfolding log_error
  logged_error [] s v = v
  logged_error (b ∷ bs) s v = v

  logged_message :
      (text : Bytes) (s : Server W (Lcnc W C))
      → IsCounted (log_message text s).1
      → IsCounted ((log_message text >> pure true) s).1
  unfolding log_message
  logged_message [] s v = v
  logged_message (b ∷ bs) s v = v

  log_state :
      (kind : NewsKind) (text : Bytes) (s : Server W (Lcnc W C))
      → IsCounted s
      → IsCounted ((log ctl kind text >> pure true) s).1
  log_state error_text text s v =
      logged_error (take ctl.line_len (c_string text)) s (log-IsCounted s _ v).0
  log_state message_text text s v =
      logged_message (take ctl.line_len (c_string text)) s (log-IsCounted s _ v).1
  log_state unknown_text text s v = logged_error (codes "Unknown error") s (log-IsCounted s _ v).0

  told_state :
      (address : ℕ) (kind : NewsKind) (text : Bytes) (s : Server W (Lcnc W C))
      → IsCounted s
      → IsCounted (told ctl address kind text s).1
  told_state address kind text s v =
      elim (Bool-cases (is_last ctl s.machine.last_message address)) [
        | inl e ↦ rw e v
        | inr e ↦ rw e (log_state kind text _ (record { errors = v.errors; messages = v.messages }))
      ]

  read_state : (n : News) (s : Server W (Lcnc W C)) → IsCounted s → IsCounted (read_news ctl n s).1
  read_state unreadable s v = v
  read_state nothing s v = v
  read_state (arrived address kind text) s v = told_state address kind text s v

  -- `Poll` keeps the counts of the logs right, whatever is on the error channel.
  poll-IsCounted : (s : Server W (Lcnc W C)) → IsCounted s → IsCounted (poll ctl s).1
  unfolding poll
  poll-IsCounted s v = elim (Bool-cases (is_ok ctl s.machine)) [
    | inr e ↦ rw e v
    | inl e ↦ rw e (read_state (ctl.news s.machine.channel) s v)
  ]
