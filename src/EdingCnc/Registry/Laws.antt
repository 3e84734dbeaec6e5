-- ===== src/EdingCnc/Registry/Laws.antt =====
-- What is proved of `LoadDll` and `GuiRunning` (drivers/EdingCNC402/EdingCNC.cpp).
use cncremote.Prelude.{
  ℤ, pos, ◌≡◌, refl, ltb_ℤ, Bool, true, false, not, ◌&&◌, ◌||◌, Bytes, List, [], ◌∷◌, Option, none,
  some, All, ap, ◌∙◌, is_empty, if◌then◌else◌, Bool-cases, inl, inr, arith,
}
use cncremote.EdingCnc.{Eding, unset, unloaded}
use cncremote.EdingCnc.Registry.{
  SubKey, Found, is_two, Windows, key_version, is_cnc, is_eding, look_at, search_keys, keys,
  find_dll, dll_path, has_all, load_dll, is_gui, is_cnc_server, scan, gui_running, Registry,
}

-- If the library that is found can be loaded but lacks a symbol, `LoadDll` unloads it and returns false;
-- but every later call returns true, whatever is installed by then, with the library still unloaded.
load_dll-unloaded :
    {W C : Type 0} (w later : Windows) (e : Eding W C)
    → e.linkage ≡ unset
    → is_empty (find_dll (w.registry)).1 ≡ false
    → w.loads (dll_path (find_dll (w.registry))) ≡ true
    → has_all w (find_dll (w.registry)) ≡ false
    → let once = load_dll w e in
      (once.0 ≡ false) × (once.1.linkage ≡ unloaded) × (load_dll later once.1 ≡ (true, once.1))
unfolding load_dll
load_dll-unloaded w later e start there loads lacks =
    rw (start, there, loads, lacks) (refl, refl, refl)

-- The versions of the keys of Eding CNC's that say where it is installed.
abbrev is_candidate : SubKey → Bool
is_candidate k = is_cnc k && is_eding k && (elim k.location [ none ↦ false | some _ ↦ true ])

abbrev versions : List (Option SubKey) → List ℤ
versions [] = []
versions (none ∷ ks) = versions ks
versions (some k ∷ ks) = if is_candidate k then key_version (k.name) ∷ versions ks else versions ks

abbrev greatest : ℤ → List ℤ → ℤ
greatest v [] = v
greatest v (u ∷ us) = greatest (if ltb_ℤ u v then v else u) us

-- A round of the loop by the values that it tests.
abbrev round : Bool → Bool → Bool → ℤ → Option Bytes → Found → Found × Bool
round cnc less eding v location f =
    if not cnc
    then (f, true)
    else if less
    then (f, true)
    else if not eding
    then (f, true)
    else (let g : Found = elim location [ none ↦ f | some path ↦ (v, path) ] in
        (g, not (is_two g.0)))

abbrev counts : Bool → Bool → Option Bytes → Bool
counts cnc eding location = cnc && eding && (elim location [ none ↦ false | some _ ↦ true ])

-- While no version is 2, a round takes a candidate's version if it is not less.
round-step :
    (cnc less eding : Bool) (v : ℤ) (location : Option Bytes) (f : Found)
    → is_two f.0 ≡ false
    → (if counts cnc eding location then is_two v else false) ≡ false
    → ((round cnc less eding v location f).1 ≡ true)
      × ((round cnc less eding v location f).0.0
          ≡ (if counts cnc eding location then if less then f.0 else v else f.0))
round-step false less eding v location f two new = (refl, refl)
round-step true true false v location f two new = (refl, refl)
round-step true true true v none f two new = (refl, refl)
round-step true true true v (some path) f two new = (refl, refl)
round-step true false false v location f two new = (refl, refl)
round-step true false true v none f two new = (rw two refl, refl)
round-step true false true v (some path) f two new = (rw new refl, refl)

look_at-step :
    (k : SubKey) (f : Found)
    → is_two f.0 ≡ false
    → (if is_candidate k then is_two (key_version k.name) else false) ≡ false
    → ((look_at k f).1 ≡ true)
      × ((look_at k f).0.0 ≡ (
          if is_candidate k
          then if ltb_ℤ (key_version k.name) f.0 then f.0 else key_version k.name
          else f.0))
look_at-step k f two new =
    round-step (is_cnc k) (ltb_ℤ (key_version k.name) f.0) (is_eding k) (key_version k.name)
      k.location f two new

search_keys-next :
    (k : SubKey) (ks : List (Option SubKey)) (f : Found)
    → (look_at k f).1 ≡ true
    → search_keys (some k ∷ ks) f ≡ search_keys ks (look_at k f).0
unfolding search_keys
search_keys-next k ks f goes = rw (search_keys, goes) refl

either :
    (b : Bool) (u v : ℤ) → is_two u ≡ false → is_two v ≡ false → is_two (if b then u else v) ≡ false
either true u v p q = p
either false u v p q = q

-- If no candidate has the version 2, the key that is chosen has the greatest of their versions.
search_keys-greatest :
    (ks : List (Option SubKey)) (f : Found)
    → is_two f.0 ≡ false
    → All (λ v. is_two v ≡ false) (versions ks)
    → (search_keys ks f).0 ≡ greatest f.0 (versions ks)
unfolding search_keys
search_keys-greatest [] f two h = refl
search_keys-greatest (none ∷ ks) f two h = search_keys-greatest ks f two h
search_keys-greatest (some k ∷ ks) f two h = elim (Bool-cases (is_candidate k)) [
  | inl e ↦
      let hs : All (λ v. is_two v ≡ false) (key_version k.name ∷ versions ks) = rw e at h in
      let (goes, at) = look_at-step k f two (rw e hs.0) in
      let at' : (look_at k f).0.0
          ≡ (if ltb_ℤ (key_version k.name) f.0 then f.0 else key_version k.name) =
        rw e at at in
      rw (search_keys-next k ks f goes, e)
        (search_keys-greatest ks (look_at k f).0
            (rw at' (either (ltb_ℤ (key_version k.name) f.0) f.0 (key_version k.name) two hs.0))
            hs.1
          ∙ ap (λ v. greatest v (versions ks)) at')
  | inr e ↦
      let hs : All (λ v. is_two v ≡ false) (versions ks) = rw e at h in
      let (goes, at) = look_at-step k f two (rw e refl) in
      let at' : (look_at k f).0.0 ≡ f.0 = rw e at at in
      rw (search_keys-next k ks f goes, e)
        (search_keys-greatest ks (look_at k f).0 (rw at' two) hs
          ∙ ap (λ v. greatest v (versions ks)) at')
]

-- If no subkey of Eding CNC's that says where it is installed has the version 2, the version that is chosen
-- is the greatest of theirs and 0.
find_dll-greatest :
    (r : Registry)
    → All (λ v. is_two v ≡ false) (versions (keys r))
    → (find_dll r).0 ≡ greatest (pos 0) (versions (keys r))
unfolding find_dll
find_dll-greatest r h = search_keys-greatest (keys r) (pos 0, []) refl h

abbrev any : (Bytes → Bool) → List Bytes → Bool
any p [] = false
any p (x ∷ xs) = p x || any p xs

or_false : (b : Bool) → (b || false) ≡ b
or_false true = refl
or_false false = refl

scan-any :
    (ps : List Bytes) (gui server : Bool)
    → (gui && server) ≡ false
    → scan ps gui server ≡ ((gui || any is_gui ps) && (server || any is_cnc_server ps))
unfolding scan
scan-any [] gui server h = rw (or_false gui, or_false server, h) refl
scan-any (p ∷ ps) gui server h =
    elim (Bool-cases ((gui || is_gui p) && (server || is_cnc_server p))) [
      | inl e ↦ ground arith
      | inr e ↦ rw e (ground (arith, scan-any ps (gui || is_gui p) (server || is_cnc_server p) e))
    ]

-- The server takes Eding CNC to run exactly if a process of its user interface and one of its server run,
-- in whatever order they are listed.
gui_running-any :
    (ps : List Bytes) → gui_running (some ps) ≡ (any is_gui ps && any is_cnc_server ps)
unfolding gui_running
gui_running-any ps = scan-any ps false false refl
