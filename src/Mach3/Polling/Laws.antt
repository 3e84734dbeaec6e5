-- ===== src/Mach3/Polling/Laws.antt =====
-- What is proved of jogging and polling Mach3 (drivers/Mach3/MachServer.cpp).
use cncremote.Prelude.{
  pos, ◌≡◌, refl, ltb_ℤ, Bool, true, false, not, ◌&&◌, ◌||◌, List, [], ◌∷◌, Bool-cases, inl, inr,
}
use cncremote.Comms.Arithmetic.{Double}
use cncremote.Comms.Vectors.{Axes, zip_axes}
use cncremote.Server.{Server}
use cncremote.Mach3.{AxisInfo, World, Mach, AxisData, Server3}
use cncremote.Mach3.Polling.{
  int_eq, same_bool, is_zero, as_int, turns, jog_axis, poll, update_state,
}

-- An axis that does not stand is not turned round.
abbrev pub is_steady : AxisInfo → AxisInfo → Bool
is_steady old new =
    is_zero old.cur_velocity || same_bool (is_zero new.jogg_dir) (is_zero old.jogg_dir)

abbrev pub every : Axes Bool → Bool
every v = v.x && v.y && v.z && v.a && v.b && v.c

pub same_bool_refl : (b : Bool) → same_bool b b ≡ true
same_bool_refl true = refl
same_bool_refl false = refl

or_true : (b : Bool) → (b || true) ≡ true
or_true true = refl
or_true false = refl

-- By the values that are tested: the axis stands, the new direction is negative, the old one is positive.
steady :
    (still dir old : Bool)
    → (same_bool dir old && not still) ≡ false
    → (still || same_bool (not dir) old) ≡ true
steady true dir old h = refl
steady false true true h = cc
steady false true false h = refl
steady false false true h = refl
steady false false false h = cc

is_zero-as_int : (b : Bool) → is_zero (as_int b) ≡ not b
is_zero-as_int true = refl
is_zero-as_int false = refl

module _ {W : Type 0} where
  jog_axis-IsSteady : (a : AxisData W) (e : AxisInfo) → is_steady e (jog_axis a e).1 ≡ true
  unfolding jog_axis
  jog_axis-IsSteady a e = elim (Bool-cases a.jogging) [
    | inr j ↦ simp j (kept e)
    | inl j ↦ elim (Bool-cases (is_zero a.target_jog)) [
      | inl z ↦ simp (j, z) (kept e)
      | inr z ↦ elim (Bool-cases (turns a e)) [
        | inl t ↦ simp (j, z, t) (kept e)
        | inr t ↦ simp (j, z, t) (steadied a e t)
      ]
    ]
  ]
    where
      kept : (e : AxisInfo) → is_steady e e ≡ true
      kept e = rw (same_bool_refl (is_zero e.jogg_dir)) (or_true (is_zero e.cur_velocity))

      steadied :
          (a : AxisData W) (e : AxisInfo)
          → turns a e ≡ false
          → (is_zero e.cur_velocity
              || same_bool (is_zero (as_int (ltb_ℤ a.target_jog (pos 0)))) (is_zero e.jogg_dir))
            ≡ true
      steadied a e t =
          rw (is_zero-as_int (ltb_ℤ a.target_jog (pos 0)))
            (steady (is_zero e.cur_velocity) (ltb_ℤ a.target_jog (pos 0)) (is_zero e.jogg_dir) t)

  -- Once a jog is released, the first poll that finds the axis where it was at the poll before lets go of it:
  -- from then on no poll touches the axis or what the server keeps of it, wherever the axis goes.
  jog_axis-released :
      (a : AxisData W) (e : AxisInfo)
      → a.jogging ≡ true
      → is_zero a.target_jog ≡ true
      → int_eq e.index a.index ≡ true
      → let b = (jog_axis a e).0 in
        (b.jogging ≡ false) × ((later : AxisInfo) → jog_axis b later ≡ (b, later))
  unfolding jog_axis
  jog_axis-released a e held released still = simp (held, released, still) (refl, λ later. refl)

module _ {W C : Type 0} ⦃d : Double W⦄ (m : Mach W C) where
  -- No poll turns an axis round while it moves, whatever jogs are asked for.
  pub poll-IsSteady :
      (s : Server W (Server3 W C))
      → every (zip_axes is_steady s.machine.world.shared.axes (poll m s).machine.world.shared.axes)
        ≡ true
  unfolding poll
  poll-IsSteady s =
      let olds = s.machine.jog_axes in
      let axes = s.machine.world.shared.axes in
      rw
        (
          jog_axis-IsSteady olds.x axes.x,
          jog_axis-IsSteady olds.y axes.y,
          jog_axis-IsSteady olds.z axes.z,
          jog_axis-IsSteady olds.a axes.a,
          jog_axis-IsSteady olds.b axes.b,
          jog_axis-IsSteady olds.c axes.c,
        )
        refl

  -- In each round Mach3 is in a given state, and is polled and asked for its state.
  abbrev rounds : List (World W C) → Server W (Server3 W C) → Server W (Server3 W C)
  rounds [] s = s
  rounds (v ∷ vs) s =
      rounds vs (update_state m (poll m (record s { machine = record machine { world = v } }))).1
    where
      open s use {machine}

  -- However often Mach3 is polled and its state is asked for, the machine position of the X axis stays as it was.
  rounds-x :
      (vs : List (World W C)) (s : Server W (Server3 W C))
      → (rounds vs s).state.machine_pos.x ≡ s.state.machine_pos.x
  unfolding poll update_state
  rounds-x [] s = refl
  rounds-x (v ∷ vs) s = rounds-x vs _
