-- ===== src/LinuxCnc/Channel.antt =====
-- `CommandSend`, `SetMode` and the jogs of drivers/linuxcnc/server/linuxcnc.cpp.
use cncremote.Prelude.{
  ℕ, ℤ, leb_ℤ, zero as nat_zero, suc, pos, Bool, true, false, not, if◌then◌else◌,
}
use cncremote.Comms.Arithmetic.{Double}
use cncremote.Comms.Vectors.{Axes, at, put}
use cncremote.LinuxCnc.{
  TaskMode, manual, auto, mdi, Message, set_mode as set_mode_msg, jog_cont, jog_stop, jog_incr,
  Status, Controller, Lcnc,
}

abbrev pub same_mode : TaskMode → TaskMode → Bool
same_mode manual manual = true
same_mode auto auto = true
same_mode mdi mdi = true
same_mode _ _ = false

module _ {W C : Type 0} (ctl : Controller W C) where
  -- `echo_serial_number - serial >= 0`
  abbrev is_echoed : ℤ → C → Bool
  is_echoed serial c = leb_ℤ serial (ctl.echo_serial c)

  -- The loop that waits for the echo of a serial number, a millisecond each round.
  unfoldable pub await_echo : ℕ → ℤ → C → Bool × C
  await_echo nat_zero serial c = (false, c)
  await_echo (suc rounds) serial c =
      let (failed, c') = ctl.peek c in
      elim failed [
        | true ↦ (false, c')
        | false ↦ elim (is_echoed serial c') [
          | true ↦ (true, c')
          | false ↦ await_echo rounds serial c'
        ]
      ]

  abbrev pub rounds : ℕ
  rounds = 1000

  abbrev after_write : Bool × C → Bool × C
  after_write (true, c) = (false, c)
  after_write (false, c) = await_echo rounds (ctl.serial c) c

  abbrev with_channel : Lcnc W C → Bool × C → Bool × Lcnc W C
  with_channel l (sent, c) = (sent, record l { channel = c })

  -- `CommandSend`
  unfoldable pub command_send : Message W → Lcnc W C → Bool × Lcnc W C
  command_send message l =
      if l.has_status
      then with_channel l (after_write (ctl.write message l.channel))
      else (false, l)

  -- A command whose success is not looked at.
  abbrev pub send : Message W → Lcnc W C → Lcnc W C
  send message l = (command_send message l).1

  abbrev pub status : Lcnc W C → Status W
  status l = ctl.status l.channel

  -- `SetMode`, whose result no caller looks at.
  unfoldable pub set_mode : TaskMode → Lcnc W C → Lcnc W C
  set_mode mode l = if same_mode (status l).mode mode then l else send (set_mode_msg mode) l

  module _ ⦃d : Double W⦄ where
    abbrev keep_jog : ℕ → W → Lcnc W C → Lcnc W C
    keep_jog axis vel l = record l { jog_axes = put axis vel l.jog_axes }

    -- `SendJog`
    unfoldable pub send_jog : ℕ → W → Lcnc W C → Lcnc W C
    send_jog axis vel l =
        if d.eq vel (at vel axis l.jog_axes)
        then l
        else if not (d.eq vel d.nought)
        then keep_jog axis vel (send (jog_cont (status l).is_free axis vel) l)
        else keep_jog axis vel (send (jog_stop (status l).is_free axis) l)

    -- `SendJogVel`
    unfoldable pub send_jog_vel : Axes W → Lcnc W C → Lcnc W C
    send_jog_vel v l =
        let l0 = send_jog 0 (d.mul v.x l.max_speed_lin) l in
        let l1 = send_jog 1 (d.mul v.y l.max_speed_lin) l0 in
        let l2 = send_jog 2 (d.mul v.z l.max_speed_lin) l1 in
        let l3 = send_jog 3 (d.mul v.a l.max_speed_ang) l2 in
        let l4 = send_jog 4 (d.mul v.b l.max_speed_ang) l3 in
        send_jog 5 (d.mul v.c l.max_speed_ang) l4

    -- `SendJogStep`
    unfoldable pub send_jog_step : ℕ → W → Lcnc W C → Lcnc W C
    send_jog_step axis val l =
        let max_speed =
          (if at true axis (status l).is_linear then l.max_speed_lin else l.max_speed_ang) in
        send (jog_incr axis (d.div max_speed (d.literal (pos 60) 1)) val) l
