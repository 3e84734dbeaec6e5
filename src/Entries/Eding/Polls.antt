-- ===== src/Entries/Eding/Polls.antt =====
-- How a poll of the server for Eding CNC can end (drivers/EdingCNC402/EdingCNC.cpp).
use cncremote.Prelude.{
  ◌≡◌, ◌⊎◌, refl, inl, inr, Bool, true, false, Bytes, List, Option, none, some, Result, ok, raised,
  undefined, Exec, unset_function, continue, ltb, Bool-cases, is_empty,
}
use cncremote.Server.{Server}
use cncremote.Server.Logs.{log_message}
use cncremote.EdingCnc.{Library, Eding}
use cncremote.EdingCnc.Registry.{Windows, load_dll, gui_running}
use cncremote.EdingCnc.Connection.{
  is_linked, connect, poll_connected, log_new, log_fifo, linked_only, poll as poll_server,
}

abbrev pub IsDefined : Result (Unit {0}) → Type 0
IsDefined r = (r ≡ ok tt) ⊎ (r ≡ undefined unset_function)

module _ {W C : Type 0} (lib : Library W C) where
  connect-IsDefined :
      (r : Bool × Eding W C) (s : Server W (Eding W C)) → IsDefined (connect lib r s).0
  connect-IsDefined (false, e) s = inl refl
  connect-IsDefined (true, e) s = elim (Bool-cases (is_linked e.linkage)) [
    | inl l ↦ inl (rw l refl)
    | inr l ↦ inr (rw l refl)
  ]

  poll_connected-IsDefined :
      (processes : Option (List Bytes)) (w : Windows) (s : Server W (Eding W C))
      → IsDefined (poll_connected lib processes w s).0
  unfolding poll_connected
  poll_connected-IsDefined processes w s = elim (Bool-cases (gui_running processes)) [
    | inr g ↦ inl (simp g refl)
    | inl g ↦ elim (Bool-cases s.machine.connected) [
      | inl c ↦ inl (simp (g, c) refl)
      | inr c ↦ elim (Bool-cases (ltb s.machine.connect_count 4)) [
        | inl f ↦ inl (simp (g, c, f) refl)
        | inr f ↦ simp (g, c, f) (connect-IsDefined (load_dll w s.machine) s)
      ]
    ]
  ]

  log_new-IsDefined : (r : Option Bytes) (s : Server W (Eding W C)) → (log_new lib r s).0 ≡ ok tt
  unfolding log_message
  log_new-IsDefined none s = refl
  log_new-IsDefined (some text) s = elim (Bool-cases (is_empty text)) [
    | inl e ↦ simp e refl
    | inr e ↦ simp e refl
  ]

  log_fifo-IsDefined : (s : Server W (Eding W C)) → IsDefined (linked_only (log_fifo lib) s).0
  log_fifo-IsDefined s = elim (Bool-cases (is_linked s.machine.linkage)) [
    | inr l ↦ inr (rw l refl)
    | inl l ↦ inl (simp l (log_new-IsDefined (lib.log_fifo s.machine.library).0 _))
  ]

  after_IsDefined :
      (r : Result (Unit {0}) × Server W (Eding W C))
      (f : Unit {0} → Exec (Server W (Eding W C)) (Unit {0}))
      → IsDefined r.0
      → ((s : Server W (Eding W C)) → IsDefined (f tt s).0)
      → IsDefined (continue r f).0
  after_IsDefined (ok tt, s) f v next = next s
  after_IsDefined (raised e, s) f v next = v
  after_IsDefined (undefined x, s) f v next = v

  -- A server that is there may call a function of the library that is not set, and nothing worse.
  pub poll-IsDefined :
      (processes : Option (List Bytes)) (w : Windows) (s : Server W (Eding W C))
      → IsDefined (poll_server lib processes w s).0
  unfolding poll_server
  poll-IsDefined processes w s =
      after_IsDefined (poll_connected lib processes w s) (λ _. linked_only (log_fifo lib))
        (poll_connected-IsDefined processes w s) log_fifo-IsDefined
