-- ===== src/LinuxCnc/Connecting/Laws.antt =====
-- What is proved of joining the channels of LinuxCNC (drivers/linuxcnc/server/linuxcnc.cpp).
use cncremote.Prelude.{
  if◌then◌else◌, ℕ, zero as nat_zero, suc, ◌<◌, ◌≡◌, refl, ap, ◌∙◌, ℤ, pos, ◌+ℤ◌, ◌^◌, ◌&&◌, not,
  Bool, true, false, some, arith, Bool-cases, inl, inr,
}
use cncremote.Comms.Arithmetic.{Double}
use cncremote.LinuxCnc.{Controller}
use cncremote.LinuxCnc.Reports.{is_ok}
use cncremote.LinuxCnc.Connecting.{
  Nml, Joining, with_error, after_error, with_status, after_status, after_command, connect_nml,
  slept, join, connect_lcnc, returned, settled, with_speeds, beating, on_channel,
}

-- All three channels are there, or none is.
abbrev pub is_whole : {W C : Type 0} → Joining W C → Bool
is_whole j =
    if j.has_command
    then j.has_error && j.lcnc.has_status
    else not j.has_error && not j.lcnc.has_status

if_true {ℓ} : {A : Type ℓ} (b : Bool) (x y : A) → b ≡ true → (if b then x else y) ≡ x
if_true b x y e = rw e refl

module _ {W C : Type 0} ⦃d : Double W⦄ (ctl : Controller W C) (nml : Nml W C) where
  with_error-IsWhole :
      (j : Joining W C)
      → j.has_command ≡ true
      → j.lcnc.has_status ≡ true
      → is_whole (with_error ctl nml j).1 ≡ true
  with_error-IsWhole j c s = elim (Bool-cases j.has_error) [
    | inl e ↦ simp (e, c, s) refl
    | inr e ↦ simp e (opened (nml.open_error j.lcnc.channel))
  ]
    where
      opened : (r : Bool × C) → is_whole (after_error ctl nml r j).1 ≡ true
      opened (false, ch) = refl
      opened (true, ch) = rw (c, s) refl

  with_status-IsWhole :
      (j : Joining W C) → j.has_command ≡ true → is_whole (with_status ctl nml j).1 ≡ true
  with_status-IsWhole j c = elim (Bool-cases j.lcnc.has_status) [
    | inl s ↦
        ap (λ (r : Bool × Joining W C). is_whole r.1)
          (if_true j.lcnc.has_status (with_error ctl nml j)
            (after_status ctl nml (nml.open_status j.lcnc.channel) j) s)
        ∙ with_error-IsWhole j c s
    | inr s ↦ simp s (opened (nml.open_status j.lcnc.channel))
  ]
    where
      opened : (r : Bool × C) → is_whole (after_status ctl nml r j).1 ≡ true
      opened (false, ch) = refl
      opened (true, ch) = with_error-IsWhole _ c refl

  -- Whatever fails on the way, an attempt to connect leaves all three channels or none of them.
  connect_nml-IsWhole : (j : Joining W C) → is_whole (connect_nml ctl nml j).1 ≡ true
  unfolding connect_nml
  connect_nml-IsWhole j = elim (Bool-cases j.has_command) [
    | inl c ↦ simp c (with_status-IsWhole j c)
    | inr c ↦ simp c (opened (nml.open_command j.lcnc.channel))
  ]
    where
      opened : (r : Bool × C) → is_whole (after_command ctl nml r j).1 ≡ true
      opened (false, ch) = refl
      opened (true, ch) =
          with_status-IsWhole
            (record j { has_command = true; lcnc = on_channel ctl nml ch (j.lcnc) }) refl

  -- The attempts to connect, each half a second after the last.
  abbrev pub attempt : ℕ → Joining W C → Joining W C
  attempt nat_zero j = j
  attempt (suc n) j = attempt n (slept ctl nml (connect_nml ctl nml j).1)

  -- The loop ends with the first attempt that succeeds, with all three channels, if it is followed so far.
  join-first :
      (attempts k : ℕ) (j : Joining W C)
      → k < attempts
      → ((i : ℕ) → i < k → (connect_nml ctl nml (attempt i j)).0 ≡ false)
      → (connect_nml ctl nml (attempt k j)).0 ≡ true
      → join ctl nml attempts j ≡ some (connect_nml ctl nml (attempt k j)).1
  unfolding join
  join-first nat_zero k j few fails works = absurd (omega arith)
  join-first (suc n) nat_zero j few fails works = rw (join, works) refl
  join-first (suc n) (suc k) j few fails works =
      rw (join, fails 0 (omega arith))
        (join-first n k (slept ctl nml (connect_nml ctl nml j).1) (omega arith)
          (λ i h. fails (suc i) (omega arith)) works)

  with_speeds-keeps :
      (j : Joining W C)
      → (is_whole (with_speeds ctl nml j) ≡ is_whole j)
        × ((with_speeds ctl nml j).lcnc.heartbeat ≡ j.lcnc.heartbeat)
        × ((with_speeds ctl nml j).lcnc.next_time ≡ j.lcnc.next_time)
  with_speeds-keeps j =
      elim (Bool-cases (d.lt (nml.max_velocity j.lcnc.channel) (d.literal (pos (10 ^ 17)) 1))) [
        | inl e ↦ simp e (refl, refl, refl)
        | inr e ↦ simp e (refl, refl, refl)
      ]

  settled-returns :
      (now : ℤ) (r : Bool × C) (j : Joining W C)
      → r.0 ≡ false
      → nml.has_size r.1 ≡ true
      → settled ctl nml now r j
        ≡ returned
            (is_ok ctl
              (with_speeds ctl nml
                (beating ctl nml now (record j { lcnc = on_channel ctl nml r.1 (j.lcnc) }))).lcnc)
            (with_speeds ctl nml
              (beating ctl nml now (record j { lcnc = on_channel ctl nml r.1 (j.lcnc) })))
  settled-returns now (true, c) j looks size = absurd cc
  settled-returns now (false, c) j looks size = rw size refl

  -- `ConnectLCnc`, followed for more attempts than fail, returns after the first that succeeds, if it can look at
  -- the status and the status has the right size; then all three channels are there or none, the heartbeat
  -- is that of LinuxCNC, and it is to be checked again a second later.
  pub connect_lcnc-returns :
      (attempts k : ℕ) (now : ℤ) (j : Joining W C)
      → k < attempts
      → ((i : ℕ) → i < k → (connect_nml ctl nml (attempt i j)).0 ≡ false)
      → (connect_nml ctl nml (attempt k j)).0 ≡ true
      → let joined = (connect_nml ctl nml (attempt k j)).1 in
        let c = (ctl.peek joined.lcnc.channel).1 in
        (ctl.peek joined.lcnc.channel).0 ≡ false
        → nml.has_size c ≡ true
        → (b : Bool) × (e : Joining W C) × (connect_lcnc ctl nml attempts now j
            ≡ some (returned b e))
          × (is_whole e ≡ true)
          × (e.lcnc.heartbeat ≡ (ctl.status c).heartbeat)
          × (e.lcnc.next_time ≡ now +ℤ pos 1)
  unfolding connect_lcnc
  connect_lcnc-returns attempts k now j few fails works looks size =
      let joined = (connect_nml ctl nml (attempt k j)).1 in
      let c = (ctl.peek joined.lcnc.channel).1 in
      let beaten =
        beating ctl nml now (record joined { lcnc = on_channel ctl nml c (joined.lcnc) }) in
      let (whole, beat, next) = with_speeds-keeps beaten in
      (
        is_ok ctl (with_speeds ctl nml beaten).lcnc,
        with_speeds ctl nml beaten,
        rw (connect_lcnc, join-first attempts k j few fails works)
            (ap some (settled-returns now (ctl.peek joined.lcnc.channel) joined looks size)),
        whole ∙ connect_nml-IsWhole (attempt k j),
        beat,
        next,
      )
