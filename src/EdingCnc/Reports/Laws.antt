-- ===== src/EdingCnc/Reports/Laws.antt =====
-- What `UpdateState` of drivers/EdingCNC402/EdingCNC.cpp remembers of the machine's height.
use cncremote.Prelude.{◌≡◌, refl, Bool, true, false, List, [], ◌∷◌, All, Bool-cases, inl, inr}
use cncremote.Comms.Arithmetic.{Double}
use cncremote.Server.{Server}
use cncremote.EdingCnc.{CncState, powerup, idle, ready, drive_enable, Library, Eding}
use cncremote.EdingCnc.Connection.{is_linked, with_library}
use cncremote.EdingCnc.Reports.{machine_state, reported, raised_to, update_state}

-- The states in which Eding CNC's own state is reported: all but the first two.
abbrev pub is_up : CncState → Bool
is_up powerup = false
is_up idle = false
is_up _ = true

-- An order of which only this is used, as of a `double` without NaN.
pub record IsOrder {W : Type 0} (d : Double W) : Type 0 where
  pub trans : (u v w : W) → d.lt v u ≡ false → d.lt w v ≡ false → d.lt w u ≡ false
  pub asym : (u v : W) → d.lt u v ≡ true → d.lt v u ≡ false
  pub irrefl : (u : W) → d.lt u u ≡ false

module _ {W C : Type 0} ⦃d : Double W⦄ (lib : Library W C) where
  pub raised_to-highest :
      IsOrder d
      → (v z : W) → (d.lt (raised_to lib v z) v ≡ false) × (d.lt (raised_to lib v z) z ≡ false)
  raised_to-highest o v z = elim (Bool-cases (d.lt z v)) [
    | inl e ↦ rw e (o.irrefl v, o.asym z v e)
    | inr e ↦ rw e (e, o.irrefl z)
  ]

  -- Updates one after another, at each of which the library is in a given state.
  abbrev pub watch : List C → Server W (Eding W C) → Server W (Eding W C)
  watch [] s = s
  watch (c ∷ cs) s = watch cs (update_state lib (with_library c s)).1

  abbrev height : C → W
  height c = (lib.machine_pos c).z

  abbrev raise : C → Server W (Eding W C) → W
  raise c s = raised_to lib (height c) s.machine.z_max

  reported-z_max :
      (st : CncState) (b : Bool) (s : Server W (Eding W C))
      → is_up st ≡ true
      → ((reported lib (machine_state st b) s).1.machine.z_max
          ≡ raised_to lib (height s.machine.library) s.machine.z_max)
        × ((reported lib (machine_state st b) s).1.machine.linkage ≡ s.machine.linkage)
  reported-z_max powerup b s up = absurd cc
  reported-z_max idle b s up = absurd cc
  reported-z_max ready b s up = (refl, refl)
  reported-z_max _ b s up = (refl, refl)

  update_state-z_max :
      (c : C) (s : Server W (Eding W C))
      → is_linked s.machine.linkage ≡ true
      → is_up (lib.state c) ≡ true
      → ((update_state lib (with_library c s)).1.machine.z_max ≡ raise c s)
        × ((update_state lib (with_library c s)).1.machine.linkage ≡ s.machine.linkage)
  unfolding update_state
  update_state-z_max c s there up =
      simp there (reported-z_max (lib.state c) (lib.output drive_enable c) (with_library c s) up)

  watch-rises :
      (cs : List C) (s : Server W (Eding W C))
      → IsOrder d
      → is_linked s.machine.linkage ≡ true
      → All (λ c. is_up (lib.state c) ≡ true) cs
      → d.lt (watch cs s).machine.z_max s.machine.z_max ≡ false
  watch-rises [] s o there ups = o.irrefl s.machine.z_max
  watch-rises (c ∷ cs) s o there (up, ups) =
      let (z, l) = update_state-z_max c s there up in
      let rest = watch-rises cs (update_state lib (with_library c s)).1 o (rw l there) ups in
      o.trans s.machine.z_max (raise c s) (watch (c ∷ cs) s).machine.z_max
        (raised_to-highest o (height c) s.machine.z_max).1 (rw z at rest)

  -- After any number of updates, in each of which Eding CNC's state is reported, the height that the server
  -- remembers is not below that of the machine at any of them, if the library is loaded and the `double`s are
  -- ordered, as they are without NaN.
  pub watch-highest :
      (cs : List C) (s : Server W (Eding W C))
      → IsOrder d
      → is_linked s.machine.linkage ≡ true
      → All (λ c. is_up (lib.state c) ≡ true) cs
      → All (λ c. d.lt (watch cs s).machine.z_max (height c) ≡ false) cs
  watch-highest [] s o there ups = tt
  watch-highest (c ∷ cs) s o there (up, ups) =
      let (z, l) = update_state-z_max c s there up in
      let t : Server W (Eding W C) = (update_state lib (with_library c s)).1 in
      let rest = watch-rises cs t o (rw l there) ups in
      (
        o.trans (height c) (raise c s) (watch (c ∷ cs) s).machine.z_max
            (raised_to-highest o (height c) s.machine.z_max).0 (rw z at rest),
        watch-highest cs t o (rw l there) ups,
      )
