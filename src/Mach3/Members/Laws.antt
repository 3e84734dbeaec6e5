-- ===== src/Mach3/Members/Laws.antt =====
-- What is proved of the members of `MachServer` (drivers/Mach3/MachServer.cpp).
use cncremote.Prelude.{
  subst, get_elem?-inside, get_elem?-outside, drop-get_elem?, drop_all, ℕ, zero as nat_zero, suc, ℤ,
  pos, ◌+◌, ◌≤◌, ◌<◌, ◌≡◌, refl, sym, ap, ◌∙◌, leb_ℤ, Bool, true, false, not, Bytes, List, [], ◌∷◌,
  map, Option, Result, length, drop, get_elem?, none, some, ok, undefined, out_of_range, is_empty,
  c_string, arith, if◌then◌else◌, Bool-cases, Option-cases, inl, inr,
}
use cncremote.Comms.Arithmetic.{Double}
use cncremote.Server.{Server}
use cncremote.Mach3.{World, Mach, Server3}
use cncremote.Mach3.Polling.{same_bool, poll}
use cncremote.Mach3.Polling.Laws.{same_bool_refl}
use cncremote.Mach3.Members.{
  with_world, collect, get_g_codes, get_m_codes, is_busy, toggle, feed_hold, block_delete,
  single_step, optional_stop, load_file, loading, load_thread,
}

abbrev from_0 : List ℤ → List ℤ
from_0 [] = []
from_0 (c ∷ cs) = if leb_ℤ (pos 0) c then c ∷ from_0 cs else from_0 cs

collect-short :
    (n i : ℕ) (codes : List ℤ) → length codes < i + n → i ≤ length codes → collect n i codes ≡ none
unfolding collect
collect-short nat_zero i codes short few = absurd (omega arith)
collect-short (suc n) i codes short few = elim (Option-cases (get_elem? codes i)) [
  | inl e ↦ rw (collect, e) refl
  | inr (a, e) ↦
      let inside = get_elem?-inside codes i e in
      rw (collect, e, collect-short n (suc i) codes (omega arith) inside) refl
]

collect-whole :
    (n i : ℕ) (codes : List ℤ)
    → i + n ≡ length codes
    → collect n i codes ≡ some (from_0 (drop i codes))
unfolding collect
collect-whole nat_zero i codes whole =
    let e : i ≡ length codes = omega arith in
    sym (rw e (ap (λ l. some (from_0 l)) (drop_all codes)))
collect-whole (suc n) i codes whole = elim (Option-cases (get_elem? codes i)) [
  | inl e ↦ absurd (omega (arith, get_elem?-outside codes i e))
  | inr (a, e) ↦
      let rest : collect n (suc i) codes ≡ some (from_0 (drop (suc i) codes)) =
        collect-whole n (suc i) codes (omega arith) in
      rw (drop-get_elem? codes i e, collect, e, rest) refl
]

-- With 13 active G codes and 7 active M codes, as Mach3 keeps them, `GetGCodes` returns the G codes that are not
-- negative, but `GetMCodes`, whose loop has the bound of the other, reads on behind its array: the behaviour is
-- undefined.
get_codes-bounds :
    {W C : Type 0} (s : Server W (Server3 W C))
    → length s.machine.world.shared.active_g_codes ≡ 13
    → length s.machine.world.shared.active_m_codes ≡ 7
    → (get_g_codes s ≡ (ok (from_0 s.machine.world.shared.active_g_codes), s))
      × ((get_m_codes s).0 ≡ undefined out_of_range)
unfolding get_g_codes get_m_codes
get_codes-bounds s g_codes m_codes =
    let whole = collect-whole 13 0 s.machine.world.shared.active_g_codes (omega arith) in
    let short =
      collect-short 13 0 s.machine.world.shared.active_m_codes (omega arith) (omega arith) in
    (simp whole refl, simp short refl)

module _ {W C : Type 0} ⦃d : Double W⦄ (m : Mach W C) where
  same_bool-eq : (a b : Bool) → same_bool a b ≡ true → a ≡ b
  same_bool-eq true true e = refl
  same_bool-eq true false e = cc
  same_bool-eq false true e = cc
  same_bool-eq false false e = refl

  same_bool-not : (a b : Bool) → same_bool a b ≡ false → not a ≡ b
  same_bool-not true true e = cc
  same_bool-not true false e = refl
  same_bool-not false true e = refl
  same_bool-not false false e = cc

  abbrev Toggles : ℕ → ℕ → Type 0
  Toggles button led =
      (v : World W C) → m.get_led led (m.do_button button v) ≡ not (m.get_led led v)

  toggle-led :
      (button led : ℕ) (state : Bool) (v : World W C)
      → Toggles button led
      → m.get_led led (toggle m button led state v) ≡ state
  toggle-led button led state v press = elim (Bool-cases (same_bool (m.get_led led v) state)) [
    | inl e ↦ rw e (same_bool-eq (m.get_led led v) state e)
    | inr e ↦ rw e (press v ∙ same_bool-not (m.get_led led v) state e)
  ]

  -- If each of the buttons switches its light over, and a light that is set shows it, then after `FeedHold`,
  -- `BlockDelete` and `SingleStep` the light shows what was asked for, and `OptionalStop` sets the light but
  -- never presses the button.
  switches-lights :
      (state : Bool) (s : Server W (Server3 W C))
      → Toggles 1001 111
      → Toggles 176 66
      → ((led : ℕ) (b : Bool) (v : World W C) → m.get_led led (m.set_led led b v) ≡ b)
      → (m.get_led 111 (feed_hold m state s).1.machine.world ≡ state)
        × (m.get_led 66 (block_delete m state s).1.machine.world ≡ state)
        × (m.get_led 82 (single_step m state s).1.machine.world ≡ state)
        × (optional_stop m state s ≡ (ok tt, with_world (m.set_led 65 state s.machine.world) s))
  unfolding feed_hold block_delete single_step optional_stop
  switches-lights state s hold delete shows = (
    toggle-led 1001 111 state s.machine.world hold,
    toggle-led 176 66 state s.machine.world delete,
    shows 82 state _,
    rw (shows 65 state s.machine.world, same_bool_refl state) refl,
  )

  load_file-starts :
      (file path : Bytes) (s : Server W (Server3 W C))
      → s.machine.has_scripter ≡ true
      → is_busy s ≡ false
      → m.wide (c_string file) ≡ some path
      → load_file m file s ≡ (ok true, loading m path s)
  unfolding load_file
  load_file-starts file path s scripter free known = simp (scripter, free, known) refl

  -- The results of several calls of `LoadFile`, and the server after them.
  abbrev pub attempts :
      List Bytes → Server W (Server3 W C) → List (Result Bool) × Server W (Server3 W C)
  attempts [] s = ([], s)
  attempts (f ∷ fs) s = let (r, t) = load_file m f s in let (rs, u) = attempts fs t in (r ∷ rs, u)

  -- The first of the paths that Windows can convert.
  abbrev first_path : List Bytes → Option Bytes
  first_path [] = none
  first_path (f ∷ fs) = elim (m.wide (c_string f)) [ none ↦ first_path fs | some path ↦ some path ]

  -- True for that one, and false for all others.
  abbrev verdicts : List Bytes → List (Result Bool)
  verdicts [] = []
  verdicts (f ∷ fs) = elim (m.wide (c_string f)) [
    | none ↦ ok false ∷ verdicts fs
    | some path ↦ ok true ∷ map (λ _. ok false) fs
  ]

  load_file-busy :
      (file : Bytes) (s : Server W (Server3 W C))
      → is_busy s ≡ true
      → load_file m file s ≡ (ok false, s)
  unfolding load_file
  load_file-busy file s busy = elim (Bool-cases s.machine.has_scripter) [
    | inl e ↦ simp (busy, e) refl
    | inr e ↦ simp e refl
  ]

  attempts-next :
      (f : Bytes) (fs : List Bytes) (s : Server W (Server3 W C)) {r : Result Bool}
      {t : Server W (Server3 W C)}
      → load_file m f s ≡ (r, t)
      → attempts (f ∷ fs) s ≡ (r ∷ (attempts fs t).0, (attempts fs t).1)
  attempts-next f fs s e =
      ap
        (λ (p : Result Bool × Server W (Server3 W C)).
          (p.0 ∷ (attempts fs p.1).0, (attempts fs p.1).1))
        e

  attempts-busy :
      (fs : List Bytes) (s : Server W (Server3 W C))
      → is_busy s ≡ true
      → attempts fs s ≡ (map (λ _. ok false) fs, s)
  attempts-busy [] s busy = refl
  attempts-busy (f ∷ fs) s busy =
      attempts-next f fs s (load_file-busy f s busy)
      ∙ ap (λ r. (ok false ∷ r.0, r.1)) (attempts-busy fs s busy)

  load_file-unconverted :
      (file : Bytes) (s : Server W (Server3 W C))
      → s.machine.has_scripter ≡ true
      → is_busy s ≡ false
      → m.wide (c_string file) ≡ none
      → load_file m file s
        ≡ (ok false, record s { machine = record (s.machine) { file_path = [] } })
  unfolding load_file
  load_file-unconverted file s scripter free unknown = simp (scripter, free, unknown) refl

  attempts-first :
      (fs : List Bytes) (path : Bytes) (s : Server W (Server3 W C))
      → s.machine.has_scripter ≡ true
      → is_busy s ≡ false
      → first_path fs ≡ some path
      → attempts fs s ≡ (verdicts fs, loading m path s)
  attempts-first [] path s scripter free first = cc
  attempts-first (f ∷ fs) path s scripter free first = elim (Option-cases (m.wide (c_string f))) [
    | inl e ↦
        let t = record s { machine = record (s.machine) { file_path = [] } } in
        let found : first_path fs ≡ some path =
          subst
            (λ o.
              elim o as (λ _. Option Bytes) [ none ↦ first_path fs | some p ↦ some p ] ≡ some path)
            e first in
        attempts-next f fs s (load_file-unconverted f s scripter free e)
        ∙ ap (λ r. (ok false ∷ r.0, r.1)) (attempts-first fs path t scripter free found)
        ∙ rw (verdicts, e) refl
    | inr (a, e) ↦
        let both : some a ≡ some path =
          subst
            (λ o.
              elim o as (λ _. Option Bytes) [ none ↦ first_path fs | some p ↦ some p ] ≡ some path)
            e first in
        let found : a ≡ path = cc in
        attempts-next f fs s (load_file-starts f a s scripter free e)
        ∙ ap (λ r. (ok true ∷ r.0, r.1)) (attempts-busy fs (loading m a s) refl)
        ∙ rw (verdicts, e, found) refl
  ]

  -- If Mach3 and its script interface are there, the server has not ended and no program runs, then of any
  -- number of calls of `LoadFile`, with no poll between them, exactly the first whose path Windows can convert
  -- returns true, and all others, before it and after it, return false. If that path is not empty, the
  -- thread that was started makes Mach3 load exactly this file, forgets the path, and leaves the server free for
  -- the next; a second run of the thread would do nothing.
  pub load_file-first :
      (fs : List Bytes) (path : Bytes) (s : Server W (Server3 W C))
      → s.machine.has_scripter ≡ true
      → s.machine.has_app ≡ true
      → s.machine.running ≡ true
      → is_busy s ≡ false
      → first_path fs ≡ some path
      → is_empty path ≡ false
      → let done = load_thread m (attempts fs s).1 in
        ((attempts fs s).0 ≡ verdicts fs)
        × (done.machine.world ≡ m.load path s.machine.world)
        × (done.machine.file_path ≡ [])
        × (is_busy done ≡ false)
        × (load_thread m done ≡ done)
  unfolding load_thread
  load_file-first fs path s scripter app runs free first long =
      rw (attempts-first fs path s scripter free first)
        (simp (app, runs, long) (refl, refl, refl, refl, refl))

  threads :
      (file path : Bytes) (s : Server W (Server3 W C))
      → s.machine.has_scripter ≡ true
      → s.machine.has_app ≡ true
      → s.machine.running ≡ true
      → is_busy s ≡ false
      → m.wide (c_string file) ≡ some path
      → is_empty path ≡ false
      → let first = load_thread m (load_file m file s).1 in
        ((load_file m file s).0 ≡ ok true)
        × (first.machine.world ≡ m.load path s.machine.world)
        × (load_thread m first ≡ first)
  unfolding load_thread
  threads file path s scripter app runs free known long =
      rw (load_file-starts file path s scripter free known)
        (simp (app, runs, long) (refl, refl, refl))

  abbrev pub polled : Bytes → Server W (Server3 W C) → Server W (Server3 W C)
  polled file s = poll m (load_file m file s).1

  polled-starts :
      (file path : Bytes) (s : Server W (Server3 W C))
      → s.machine.has_scripter ≡ true
      → is_busy s ≡ false
      → m.wide (c_string file) ≡ some path
      → ((polled file s).machine.has_scripter ≡ s.machine.has_scripter)
        × ((polled file s).machine.has_app ≡ s.machine.has_app)
        × ((polled file s).machine.running ≡ s.machine.running)
  unfolding poll
  polled-starts file path s scripter free known =
      rw (load_file-starts file path s scripter free known) (refl, refl, refl)

  -- If Mach3 and its script interface are there, the server has not ended, no program runs and the paths are not empty and not too long, but the
  -- server is polled between `LoadFile` and its thread, and finds Mach3 at rest, then a second `LoadFile` returns
  -- true too; but of the two threads the first loads the second file, and the other does
  -- nothing: the first file is never loaded.
  pub load_file-overtaken :
      (file other path next : Bytes) (s : Server W (Server3 W C))
      → s.machine.has_scripter ≡ true
      → s.machine.has_app ≡ true
      → s.machine.running ≡ true
      → is_busy s ≡ false
      → is_busy (polled file s) ≡ false
      → m.wide (c_string file) ≡ some path
      → m.wide (c_string other) ≡ some next
      → is_empty next ≡ false
      → let again = load_file m other (polled file s) in
        let first = load_thread m again.1 in
        ((load_file m file s).0 ≡ ok true)
        × (again.0 ≡ ok true)
        × (first.machine.world ≡ m.load next (polled file s).machine.world)
        × (load_thread m first ≡ first)
  load_file-overtaken file other path next s scripter app runs free idle known known' long =
      let (p, q, r) = polled-starts file path s scripter free known in
      let (a, b, c) =
        threads other next (polled file s) (p ∙ scripter) (q ∙ app) (r ∙ runs) idle known' long in
      (ap (λ r. r.0) (load_file-starts file path s scripter free known), a, b, c)
