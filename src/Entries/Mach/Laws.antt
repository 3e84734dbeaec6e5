-- ===== src/Entries/Mach/Laws.antt =====
-- What Mach3 gets of its plugin, from the first update to the last (drivers/Mach3/Plugin.cpp).
use cncremote.Prelude.{
  ℕ, zero, suc, ◌≡◌, refl, ap, Bool, true, false, Option, none, some, Result, ok, raised, undefined,
  Exec, freed_object, continue, ◌>>◌,
}
use cncremote.Comms.Arithmetic.{Double}
use cncremote.Comms.Vectors.{Axes, fill}
use cncremote.Server.{Server}
use cncremote.Server.Logs.{log_error}
use cncremote.Mach3.{Mach, AxisData, Server3}
use cncremote.Mach3.Settings.{Profile, construct, load_settings, loaded, blank, start_loop}
use cncremote.Mach3.Polling.{poll}
use cncremote.Entries.{Listener, default_port, bind}
use cncremote.Entries.Mach.{
  Pointer, null, points, Start, looped, constructed, post_init_control, stop_plug, update,
}

module _ {W C X : Type 0} ⦃d : Double W⦄ (m : Mach W C) (l : Listener X) where
  -- A number of calls of `piUpdate`, one after the other.
  abbrev pub updates : ℕ → Exec (Pointer W C X) (Unit {0})
  updates zero p = (ok tt, p)
  updates (suc n) p = continue (update m l p) (λ _. updates n)

  abbrev pub polls : ℕ → Server W (Server3 W C) → Server W (Server3 W C)
  polls zero s = s
  polls (suc n) s = polls n (poll m s)

  -- The server as it is made.
  abbrev pub built : Start W C → Server W (Server3 W C)
  built t = (start_loop t.created t.scripted (construct t.profile t.blank).1).1

  loaded-ok :
      (b : Bool) (axes : Axes (AxisData W)) (s : Server W (Server3 W C))
      → (loaded (b, axes) s).0 ≡ ok tt
  unfolding log_error
  loaded-ok true axes s = refl
  loaded-ok false axes s = refl

  construct-ok : (p : Option (Profile W)) (s : Server W (Server3 W C)) → (construct p s).0 ≡ ok tt
  unfolding construct
  construct-ok none s = loaded-ok false (fill blank) s
  construct-ok (some p) s =
      loaded-ok (load_settings p (fill blank)).0 (load_settings p (fill blank)).1 s

  start_loop-ok :
      (created scripted : Bool) (s : Server W (Server3 W C))
      → (start_loop created scripted s).0 ≡ ok tt
  unfolding start_loop log_error
  start_loop-ok true scripted s = refl
  start_loop-ok false scripted s = refl

  abbrev pub listening : X
  listening = (bind l default_port l.idle).1

  looped-points :
      (t : Start W C) (s : Server W (Server3 W C)) (x : X)
      → looped m l t s x ≡ (ok tt, points (start_loop t.created t.scripted s).1 x)
  looped-points t s x =
      ap (λ r. (r, points (start_loop t.created t.scripted s).1 x))
        (start_loop-ok t.created t.scripted s)

  constructed-points :
      (t : Start W C) (r : Result (Unit {0}) × Server W (Server3 W C))
      → r.0 ≡ ok tt
      → constructed m l t r ≡ (ok tt, points (start_loop t.created t.scripted r.1).1 listening)
  unfolding bind
  constructed-points t (ok tt, s) e = looped-points t s listening
  constructed-points t (raised m, s) e = absurd cc
  constructed-points t (undefined f, s) e = absurd cc

  post_init_control-points :
      (t : Start W C) (p : Pointer W C X)
      → post_init_control m l t p ≡ (ok tt, points (built t) listening)
  unfolding post_init_control
  post_init_control-points t p =
      constructed-points t (construct t.profile t.blank) (construct-ok t.profile t.blank)

  updates-null : (n : ℕ) → updates n null ≡ (ok tt, null)
  unfolding update
  updates-null zero = refl
  updates-null (suc n) = updates-null n

  updates-points :
      (n : ℕ) (s : Server W (Server3 W C)) (x : X)
      → updates n (points s x) ≡ (ok tt, points (polls n s) x)
  unfolding update
  updates-points zero s x = refl
  updates-points (suc n) s x = updates-points n (poll m s) x

  abbrev pub life : ℕ → Start W C → ℕ → Exec (Pointer W C X) (Unit {0})
  life early t n = do updates early; post_init_control m l t; updates n

  -- Updates that come before `piPostInitControl` do nothing. This makes the server, bound to the port, whatever
  -- the listener said, and each later update polls it once. After `piStopPlug` the server is gone but the pointer is
  -- kept: a further update, or a further `piStopPlug`, uses the deleted object.
  pub life_lem :
      (early : ℕ) (t : Start W C) (n : ℕ)
      → let (ran, p) = life early t n null in
        (ran ≡ ok tt)
        × (p ≡ points (polls n (built t)) (l.start default_port (l.stop l.idle)).1)
        × ((stop_plug m l p).0 ≡ ok tt)
        × ((update m l (stop_plug m l p).1).0 ≡ undefined freed_object)
        × ((stop_plug m l (stop_plug m l p).1).0 ≡ undefined freed_object)
  unfolding bind stop_plug update
  life_lem early t n =
      rw (updates-null early, post_init_control-points t null, updates-points n (built t) listening)
        (refl, refl, refl, refl, refl)
