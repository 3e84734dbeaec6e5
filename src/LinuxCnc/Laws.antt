-- ===== src/LinuxCnc/Laws.antt =====
-- What the commands to LinuxCNC do (drivers/linuxcnc/server/linuxcnc.cpp).
use cncremote.Prelude.{
  ℕ, leb_ℤ, ℤ, zero as nat_zero, suc, ◌≤◌, ◌<◌, ◌≡◌, refl, ap, ◌∙◌, Bool, true, false, ◌&&◌, Bytes,
  [], ok, arith, Bool-cases, inl, inr,
}
use cncremote.Comms.Arithmetic.{Double}
use cncremote.Comms.Vectors.{at, Axes, put, zero}
use cncremote.Server.{Server}
use cncremote.LinuxCnc.{Message, Controller, Lcnc}
use cncremote.LinuxCnc.Channel.{await_echo, rounds, command_send, send_jog}
use cncremote.LinuxCnc.Members.{
  drives_on, jog_vel, jog_step, mdi, spindle_override, feed_override, rapid_override, load_file,
  close_file, cycle_start, cycle_stop, feed_hold, block_delete, single_step, optional_stop, home,
  get_offset, get_g_codes, get_m_codes,
}

module _ {W C : Type 0} (ctl : Controller W C) where
  -- The channel after a number of looks at the status.
  abbrev pub peeked : ℕ → C → C
  peeked nat_zero c = c
  peeked (suc n) c = peeked n (ctl.peek c).1

  await_echo-heard :
      (k n : ℕ) (serial : ℤ) (c : C)
      → k < n
      → ((i : ℕ) → i ≤ k → (ctl.peek (peeked i c)).0 ≡ false)
      → ((i : ℕ) → i < k → leb_ℤ serial (ctl.echo_serial (peeked (suc i) c)) ≡ false)
      → leb_ℤ serial (ctl.echo_serial (peeked (suc k) c)) ≡ true
      → await_echo ctl n serial c ≡ (true, peeked (suc k) c)
  unfolding await_echo
  await_echo-heard k nat_zero serial c soon sound silent heard = absurd (omega arith)
  await_echo-heard nat_zero (suc n) serial c soon sound silent heard =
      rw (await_echo, sound 0 (omega arith), heard) refl
  await_echo-heard (suc k) (suc n) serial c soon sound silent heard =
      rw (await_echo, sound 0 (omega arith), silent 0 (omega arith))
        (await_echo-heard k n serial (ctl.peek c).1 (omega arith)
          (λ i h. sound (suc i) (omega arith)) (λ i h. silent (suc i) (omega arith)) heard)

  await_echo-silent :
      (n : ℕ) (serial : ℤ) (c : C)
      → ((i : ℕ) → leb_ℤ serial (ctl.echo_serial (peeked (suc i) c)) ≡ false)
      → (await_echo ctl n serial c).0 ≡ false
  unfolding await_echo
  await_echo-silent nat_zero serial c silent = refl
  await_echo-silent (suc n) serial c silent = elim (Bool-cases (ctl.peek c).0) [
    | inl e ↦ rw (await_echo, e) refl
    | inr e ↦
        rw (await_echo, e, silent 0)
          (await_echo-silent n serial (ctl.peek c).1 (λ i. silent (suc i)))
  ]

  -- The status of LinuxCNC has the number of the last command that it took. If LinuxCNC is connected, a command is
  -- written, each look at the status succeeds, and the number there is less than that of the command until the
  -- look number `k` (from 0, below 1000), where it is the command's or a greater one, then the command
  -- succeeds with exactly this look.
  pub command_send-echo :
      (message : Message W) (k : ℕ) (l : Lcnc W C)
      → k < rounds ctl
      → l.has_status ≡ true
      → (ctl.write message l.channel).0 ≡ false
      → ((i : ℕ) → i ≤ k → (ctl.peek (peeked i (ctl.write message l.channel).1)).0 ≡ false)
      → ((i : ℕ)
          → i < k
          → leb_ℤ
              (ctl.serial (ctl.write message l.channel).1)
              (ctl.echo_serial (peeked (suc i) (ctl.write message l.channel).1))
            ≡ false)
      → leb_ℤ
          (ctl.serial (ctl.write message l.channel).1)
          (ctl.echo_serial (peeked (suc k) (ctl.write message l.channel).1))
        ≡ true
      → command_send ctl message l
        ≡ (true, record l { channel = peeked (suc k) (ctl.write message l.channel).1 })
  unfolding command_send
  command_send-echo message k l soon there written sound silent heard =
      let echo =
        await_echo-heard k 1000 (ctl.serial (ctl.write message l.channel).1)
          (ctl.write message l.channel).1 soon sound silent heard in
      rw (there, written, echo) refl

  -- A command whose echo never comes fails after at most 1000 looks at the status.
  pub command_send-silent :
      (message : Message W) (l : Lcnc W C)
      → ((i : ℕ)
          → leb_ℤ
              (ctl.serial (ctl.write message l.channel).1)
              (ctl.echo_serial (peeked (suc i) (ctl.write message l.channel).1))
            ≡ false)
      → (command_send ctl message l).0 ≡ false
  unfolding command_send
  command_send-silent message l silent = elim (Bool-cases l.has_status) [
    | inr e ↦ rw e refl
    | inl e ↦ elim (Bool-cases (ctl.write message l.channel).0) [
      | inl f ↦ rw (e, f) refl
      | inr f ↦
          rw (e, f)
            (await_echo-silent 1000 (ctl.serial (ctl.write message l.channel).1)
              (ctl.write message l.channel).1 silent)
    ]
  ]

  module _ ⦃d : Double W⦄ where
    at-put : (axis : ℕ) (e old : W) (v : Axes W) → axis < 6 → at old axis (put axis e v) ≡ e
    at-put nat_zero e old v h = refl
    at-put (suc nat_zero) e old v h = refl
    at-put (suc (suc nat_zero)) e old v h = refl
    at-put (suc (suc (suc nat_zero))) e old v h = refl
    at-put (suc (suc (suc (suc nat_zero)))) e old v h = refl
    at-put (suc (suc (suc (suc (suc nat_zero))))) e old v h = refl
    at-put (suc (suc (suc (suc (suc (suc n)))))) e old v h = absurd (omega arith)

    send_jog-known :
        (axis : ℕ) (vel : W) (l : Lcnc W C)
        → d.eq vel (at vel axis l.jog_axes) ≡ true
        → send_jog ctl axis vel l ≡ l
    unfolding send_jog
    send_jog-known axis vel l known = rw known refl

    send_jog-asked :
        (axis : ℕ) (vel : W) (l : Lcnc W C)
        → axis < 6
        → d.eq vel vel ≡ true
        → d.eq vel (at vel axis (send_jog ctl axis vel l).jog_axes) ≡ true
    unfolding send_jog
    send_jog-asked axis vel l valid same = elim (Bool-cases (d.eq vel (at vel axis l.jog_axes))) [
      | inl e ↦ rw e e
      | inr e ↦ elim (Bool-cases (d.eq vel d.nought)) [
        | inl z ↦ rw (e, z) (ap (d.eq vel) (at-put axis vel vel _ valid) ∙ same)
        | inr z ↦ rw (e, z) (ap (d.eq vel) (at-put axis vel vel _ valid) ∙ same)
      ]
    ]

    -- A jog of an axis at the velocity that was asked for last sends nothing and changes nothing, if that
    -- velocity is equal to itself.
    send_jog-again :
        (axis : ℕ) (vel : W) (l : Lcnc W C)
        → axis < 6
        → d.eq vel vel ≡ true
        → send_jog ctl axis vel (send_jog ctl axis vel l) ≡ send_jog ctl axis vel l
    send_jog-again axis vel l valid same =
        send_jog-known axis vel (send_jog ctl axis vel l) (send_jog-asked axis vel l valid same)

    -- While LinuxCNC is not connected every command and every query leaves the server as it is, and
    -- gives false, zero or the empty list where it gives a result.
    commands-offline :
        (s : Server W (Lcnc W C)) (state : Bool) (percent : W) (v : Axes W) (which : Axes Bool)
        (text : Bytes) (index : ℕ)
        → s.machine.has_status ≡ false
        → (drives_on ctl state s ≡ (ok tt, s))
          × (jog_vel ctl v s ≡ (ok tt, s))
          × (jog_step ctl v percent s ≡ (ok tt, s))
          × (mdi ctl text s ≡ (ok false, s))
          × (load_file ctl text s ≡ (ok false, s))
          × (close_file ctl s ≡ (ok false, s))
          × (cycle_start ctl s ≡ (ok tt, s))
          × (cycle_stop ctl s ≡ (ok tt, s))
          × (feed_hold ctl state s ≡ (ok tt, s))
          × (home ctl which s ≡ (ok tt, s))
          × (get_offset ctl index s ≡ (ok zero, s))
          × (get_g_codes ctl s ≡ (ok [], s))
          × (get_m_codes ctl s ≡ (ok [], s))
          × (spindle_override ctl percent s ≡ (ok tt, s))
          × (feed_override ctl percent s ≡ (ok tt, s))
          × (rapid_override ctl percent s ≡ (ok tt, s))
          × (block_delete ctl state s ≡ (ok tt, s))
          × (single_step ctl state s ≡ (ok tt, s))
          × (optional_stop ctl state s ≡ (ok tt, s))
    unfolding drives_on jog_vel jog_step mdi load_file close_file cycle_start cycle_stop feed_hold
        home get_offset get_g_codes get_m_codes spindle_override feed_override rapid_override
        block_delete single_step optional_stop
    commands-offline s state percent v which text index e = rw e (
      refl, refl, refl, refl, refl, refl, refl, refl, refl, refl, refl, refl, refl, refl, refl,
      refl, refl, refl, refl,
    )

    abbrev pub first_three : Axes Bool → Bool
    first_three axes = axes.x && axes.y && axes.z

    -- Homing does not look at which axes are asked for, but for whether X, Y and Z all are: any two
    -- requests that do not ask for all three do the same.
    home-ignores :
        (one other : Axes Bool) (s : Server W (Lcnc W C))
        → first_three one ≡ false
        → first_three other ≡ false
        → home ctl one s ≡ home ctl other s
    unfolding home
    home-ignores one other s e f = rw (e, f) refl
