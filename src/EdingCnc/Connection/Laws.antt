-- ===== src/EdingCnc/Connection/Laws.antt =====
-- How the server connects to Eding CNC (drivers/EdingCNC402/EdingCNC.cpp).
use cncremote.Prelude.{
  not, if◌then◌else◌, ℕ, suc, ◌+◌, ◌≤◌, ◌<◌, ◌≡◌, refl, ap, ◌∙◌, ◌⊎◌, inl, inr, ltb, lt→ltb, ltb→lt,
  Bool, true, false, Bytes, List, [], ◌∷◌, Option, none, some, Result, ok, raised, undefined,
  continue, arith, Bool-cases, is_empty, All, length,
}
use cncremote.Server.{Server}
use cncremote.Server.Logs.{log_message}
use cncremote.EdingCnc.{Linkage, unset, linked, unloaded, Library, Eding}
use cncremote.EdingCnc.Registry.{Windows, is_loaded, find_dll, dll_path, load_dll, gui_running}
use cncremote.EdingCnc.Connection.{
  is_linked, poll_connected, connect, poll, log_new, log_fifo, linked_only,
}

-- A server that counts no further than to 4, and calls itself connected only with the library loaded.
pub record IsSound {W C : Type 0} (e : Eding W C) : Type 0 where
  pub few : e.connect_count ≤ 4
  pub served : (e.connected ≡ false) ⊎ (e.linkage ≡ linked)

load_dll-keeps :
    {W C : Type 0} (w : Windows) (e : Eding W C)
    → ((load_dll w e).1.connected ≡ e.connected)
      × ((load_dll w e).1.connect_count ≡ e.connect_count)
unfolding load_dll
load_dll-keeps w e = elim (Bool-cases (is_loaded e.linkage)) [
  | inl h ↦ rw h (refl, refl)
  | inr h ↦ elim (Bool-cases (is_empty (find_dll w.registry).1)) [
    | inl i ↦ rw (h, i) (refl, refl)
    | inr i ↦ elim (Bool-cases (w.loads (dll_path (find_dll w.registry)))) [
      | inl j ↦ rw (h, i, j) (refl, refl)
      | inr j ↦ rw (h, i, j) (refl, refl)
    ]
  ]
]

is_linked→linked : (l : Linkage) → is_linked l ≡ true → l ≡ linked
is_linked→linked unset h = cc
is_linked→linked linked h = refl
is_linked→linked unloaded h = cc

chosen {ℓ} :
    {A : Type ℓ} (a b c : Bool) (x y z t : A)
    → a ≡ true
    → b ≡ false
    → c ≡ false
    → (if not a then x else if b then y else if c then z else t) ≡ t
chosen a b c x y z t p q r = rw (p, q, r) refl

module _ {W C : Type 0} (lib : Library W C) where
  connect-IsSound :
      (r : Bool × Eding W C) (s : Server W (Eding W C))
      → r.1.connected ≡ false
      → r.1.connect_count ≤ 4
      → IsSound (connect lib r s).1.machine
  connect-IsSound (false, e) s off few = record { few = few; served = inl off }
  connect-IsSound (true, e) s off few = elim (Bool-cases (is_linked e.linkage)) [
    | inl l ↦ rw l (record { few = few; served = inr (is_linked→linked e.linkage l) })
    | inr l ↦ rw l (record { few = few; served = inl off })
  ]

  poll_connected-IsSound :
      (processes : Option (List Bytes)) (w : Windows) (s : Server W (Eding W C))
      → IsSound s.machine
      → IsSound (poll_connected lib processes w s).1.machine
  unfolding poll_connected
  poll_connected-IsSound processes w s v = elim (Bool-cases (gui_running processes)) [
    | inr e ↦ simp e (record { few = omega arith; served = v.served })
    | inl e ↦ elim (Bool-cases s.machine.connected) [
      | inl c ↦ simp (e, c) v
      | inr c ↦ elim (Bool-cases (ltb s.machine.connect_count 4)) [
        | inl l ↦ simp (e, c, l) (record { few = ltb→lt _ 4 l; served = inl refl })
        | inr l ↦
            simp (e, c, l)
              (connect-IsSound (load_dll w s.machine) s ((load_dll-keeps w s.machine).0 ∙ c)
                (omega (arith, load_dll-keeps w s.machine, v.few)))
      ]
    ]
  ]

  log_message-machine :
      (text : Bytes) (s : Server W (Eding W C)) → (log_message text s).1.machine ≡ s.machine
  unfolding log_message
  log_message-machine [] s = refl
  log_message-machine (b ∷ bs) s = refl

  log_new-IsSound :
      (news : Option Bytes) (s : Server W (Eding W C))
      → IsSound s.machine
      → IsSound (log_new lib news s).1.machine
  log_new-IsSound none s v = v
  log_new-IsSound (some text) s v = rw (log_message-machine text s) v

  log-IsSound :
      (s : Server W (Eding W C))
      → IsSound s.machine
      → IsSound (linked_only (log_fifo lib) s).1.machine
  log-IsSound s v = elim (Bool-cases (is_linked s.machine.linkage)) [
    | inl e ↦ simp e (
        log_new-IsSound (lib.log_fifo s.machine.library).0 _
          (record { few = v.few; served = v.served }))
    | inr e ↦ simp e v
  ]

  then_log :
      (r : Result (Unit {0}) × Server W (Eding W C))
      → IsSound r.1.machine
      → IsSound (continue r (λ _. linked_only (log_fifo lib))).1.machine
  then_log (ok v, s) h = log-IsSound s h
  then_log (raised e, s) h = h
  then_log (undefined f, s) h = h

  -- Every `Poll`, whatever runs and whatever is installed, keeps the counter at 4 or less, and never lets
  -- the server call itself connected without the library.
  poll-IsSound :
      (processes : Option (List Bytes)) (w : Windows) (s : Server W (Eding W C))
      → IsSound s.machine
      → IsSound (poll lib processes w s).1.machine
  unfolding poll
  poll-IsSound processes w s v =
      then_log (poll_connected lib processes w s) (poll_connected-IsSound processes w s v)

  -- Polls one after another, each with the processes that run and what is installed then.
  abbrev pub polls :
      List (Option (List Bytes) × Windows) → Server W (Eding W C) → Server W (Eding W C)
  polls [] s = s
  polls ((processes, w) ∷ ps) s = polls ps (poll_connected lib processes w s).1

  abbrev pub counted : ℕ → Server W (Eding W C) → Server W (Eding W C)
  counted n s = record s { machine = record machine { connect_count = n } }
    where
      open s use {machine}

  count_on :
      (processes : Option (List Bytes)) (w : Windows) (s : Server W (Eding W C)) {n : ℕ}
      → gui_running processes ≡ true
      → s.machine.connected ≡ false
      → s.machine.connect_count ≡ n
      → n < 4
      → (poll_connected lib processes w s).1 ≡ counted (suc n) s
  unfolding poll_connected
  count_on processes w s e c k few = rw (e, c, k, lt→ltb _ _ few) refl

  abbrev Runs : Option (List Bytes) × Windows → Type 0
  Runs (processes, w) = gui_running processes ≡ true

  polls-counted :
      (ps : List (Option (List Bytes) × Windows)) (n : ℕ) (s : Server W (Eding W C))
      → All Runs ps
      → s.machine.connected ≡ false
      → n + length ps ≤ 4
      → polls ps (counted n s) ≡ counted (n + length ps) s
  polls-counted [] n s runs off few = ap (λ k. counted k s) (omega arith)
  polls-counted ((processes, w) ∷ ps) n s (run, runs) off few =
      ap (polls ps) (count_on processes w (counted n s) run off refl (omega arith))
      ∙ (polls-counted ps (suc n) s runs off (omega arith) ∙ ap (λ k. counted k s) (omega arith))

  poll_connected-connected :
      (processes : Option (List Bytes)) (w : Windows) (s : Server W (Eding W C))
      → s.machine.connected ≡ true
      → ((poll_connected lib processes w s).1.machine.connected ≡ true)
        × ((poll_connected lib processes w s).1.machine.library ≡ s.machine.library)
  unfolding poll_connected
  poll_connected-connected processes w s on = elim (Bool-cases (gui_running processes)) [
    | inl e ↦ simp (e, on) (refl, refl)
    | inr e ↦ simp e (on, refl)
  ]

  poll_connected-asks :
      (processes : Option (List Bytes)) (w : Windows) (s : Server W (Eding W C))
      → gui_running processes ≡ true
      → s.machine.connected ≡ false
      → ltb s.machine.connect_count 4 ≡ false
      → poll_connected lib processes w s ≡ connect lib (load_dll w s.machine) s
  unfolding poll_connected
  poll_connected-asks processes w s run off full =
      chosen (gui_running processes) s.machine.connected (ltb s.machine.connect_count 4)
        (ok tt, record s { machine = record (s.machine) { connect_count = 0 } }) (ok tt, s)
        (
          ok tt,
          record s { machine = record (s.machine) { connect_count = suc s.machine.connect_count } },
        )
        (connect lib (load_dll w s.machine) s) run off full

  connect-connects :
      (r : Bool × Eding W C) (s : Server W (Eding W C)) {c : C} {e : Eding W C}
      → r ≡ (true, e)
      → e.linkage ≡ linked
      → lib.connect e.library ≡ (true, c)
      → lib.is_connected c ≡ true
      → (connect lib r s).1.machine.connected ≡ true
  connect-connects r s p there already on = rw (p, there, already, on) refl

  -- While Eding CNC runs, a server that is not connected, and whose count is 0, is not connected by four polls;
  -- the fifth connects it, if the library can be loaded with all its functions, and says that Eding CNC's
  -- server runs already and is connected.
  polls-connects :
      (ps : List (Option (List Bytes) × Windows)) (processes : Option (List Bytes)) (w : Windows)
      (s : Server W (Eding W C)) {c : C} {e : Eding W C}
      → All Runs ps
      → length ps ≡ 4
      → gui_running processes ≡ true
      → s.machine.connected ≡ false
      → load_dll w (counted 4 s).machine ≡ (true, e)
      → e.linkage ≡ linked
      → lib.connect e.library ≡ (true, c)
      → lib.is_connected c ≡ true
      → ((polls ps (counted 0 s)).machine.connected ≡ false)
        × ((poll_connected lib processes w (polls ps (counted 0 s))).1.machine.connected ≡ true)
  unfolding poll_connected
  polls-connects ps processes w s runs four run off loads there already on =
      let waits : polls ps (counted 0 s) ≡ counted 4 s =
        polls-counted ps 0 s runs off (omega arith) ∙ ap (λ k. counted k s) (omega arith) in
      rw waits (
        off,
        ap (λ (r : Result (Unit {0}) × Server W (Eding W C)). r.1.machine.connected)
              (poll_connected-asks processes w (counted 4 s) run off refl)
            ∙ connect-connects (load_dll w (counted 4 s).machine) (counted 4 s) loads there already
                on,
      )

  -- Once the server calls itself connected, no poll asks the library for the connection again, whether Eding
  -- CNC ends, starts anew or goes on: the library's state and the connection stay as they are.
  polls-connected :
      (ps : List (Option (List Bytes) × Windows)) (s : Server W (Eding W C))
      → s.machine.connected ≡ true
      → ((polls ps s).machine.connected ≡ true) × ((polls ps s).machine.library ≡ s.machine.library)
  polls-connected [] s on = (on, refl)
  polls-connected ((processes, w) ∷ ps) s on =
      let (still, same) = poll_connected-connected processes w s on in
      let (end, all) = polls-connected ps (poll_connected lib processes w s).1 still in
      (end, all ∙ same)
