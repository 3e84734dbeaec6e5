-- ===== src/LinuxCnc/Connecting.antt =====
-- `ConnectNml` and `ConnectLCnc` of drivers/linuxcnc/server/linuxcnc.cpp: how the server joins the channels of
-- LinuxCNC.
pub mod Laws
use cncremote.Prelude.{
  ℕ, zero as nat_zero, suc, ℤ, pos, negsuc, ◌+ℤ◌, ◌-◌, ◌^◌, Bool, true, false, not, ◌&&◌, Option,
  none, some, if◌then◌else◌,
}
use cncremote.Comms.Arithmetic.{Double}
use cncremote.Comms.Vectors.{fill}
use cncremote.LinuxCnc.{Status, Controller, Lcnc}
use cncremote.LinuxCnc.Reports.{is_ok, disconnect_nml}

-- What NML gives besides the channels: whether a channel that is opened is valid, and for that of the status
-- whether a look at it gives a status too; whether the status has the size that was compiled in; the greatest
-- velocity; and half a second of sleep.
pub record Nml (W C : Type 0) : Type 0 where
  pub open_command : C → Bool × C
  pub open_status : C → Bool × C
  pub open_error : C → Bool × C
  pub has_size : C → Bool
  pub max_velocity : C → W
  pub later : C → C

-- The server with its other two channels, each of which is there or NULL. The channel of the status is there if the
-- status is.
pub record Joining (W C : Type 0) : Type 0 where
  pub has_command : Bool
  pub has_error : Bool
  pub lcnc : Lcnc W C

-- `LinuxCnc::LinuxCnc`, which leaves `m_nextTime` as it is in memory.
unfoldable pub new_joining : {W C : Type 0} → ⦃d : Double W⦄ → ℤ → C → Joining W C
new_joining ⦃d⦄ next_time c = record {
  has_command = false;
  has_error = false;
  lcnc = record {
    has_status = false;
    channel = c;
    heartbeat = 0;
    next_time = next_time;
    last_message = none;
    jog_axes = fill d.nought;
    max_speed_lin = d.literal (pos 4000) 1;
    max_speed_ang = d.literal (pos 100) 1;
  };
}

module _ {W C : Type 0} ⦃d : Double W⦄ (ctl : Controller W C) (nml : Nml W C) where
  abbrev pub drop_channels : Joining W C → Joining W C
  drop_channels j = record {
    has_command = false;
    has_error = false;
    lcnc = disconnect_nml ctl j.lcnc;
  }

  abbrev pub on_channel : C → Lcnc W C → Lcnc W C
  on_channel c l = record l { channel = c }

  abbrev pub after_error : Bool × C → Joining W C → Bool × Joining W C
  after_error (false, c) j = (false, drop_channels (record j { lcnc = on_channel c (j.lcnc) }))
  after_error (true, c) j =
      let j' = record j { has_error = true; lcnc = on_channel c (j.lcnc) } in
      (is_ok ctl j'.lcnc, j')

  abbrev pub with_error : Joining W C → Bool × Joining W C
  with_error j =
      if j.has_error then (is_ok ctl j.lcnc, j) else after_error (nml.open_error j.lcnc.channel) j

  abbrev pub after_status : Bool × C → Joining W C → Bool × Joining W C
  after_status (false, c) j = (false, drop_channels (record j { lcnc = on_channel c (j.lcnc) }))
  after_status (true, c) j =
      with_error (record j { lcnc = record (on_channel c (j.lcnc)) { has_status = true } })

  abbrev pub with_status : Joining W C → Bool × Joining W C
  with_status j =
      if j.lcnc.has_status then with_error j else after_status (nml.open_status j.lcnc.channel) j

  abbrev pub after_command : Bool × C → Joining W C → Bool × Joining W C
  after_command (false, c) j = (false, drop_channels (record j { lcnc = on_channel c (j.lcnc) }))
  after_command (true, c) j =
      with_status (record j { has_command = true; lcnc = on_channel c (j.lcnc) })

  -- `ConnectNml`
  unfoldable pub connect_nml : Joining W C → Bool × Joining W C
  connect_nml j =
      if j.has_command then with_status j else after_command (nml.open_command j.lcnc.channel) j

  abbrev pub slept : Joining W C → Joining W C
  slept j = record j { lcnc = on_channel (nml.later j.lcnc.channel) (j.lcnc) }

  -- The loop, for a number of attempts; `none` if all of them fail.
  unfoldable pub join : ℕ → Joining W C → Option (Joining W C)
  join nat_zero j = none
  join (suc attempts) j = elim (connect_nml j).0 [
    | true ↦ some (connect_nml j).1
    | false ↦ join attempts (slept (connect_nml j).1)
  ]

  -- How `ConnectLCnc` ends: it returns, or ends the process.
  pub data Outcome : Type 0 where
    returned : Bool → Joining W C → Outcome
    exited : Outcome

  abbrev huge : W
  huge = d.literal (pos (10 ^ 17)) 1

  abbrev pub with_speeds : Joining W C → Joining W C
  with_speeds j =
      let v = nml.max_velocity j.lcnc.channel in
      if d.lt v huge
      then record j { lcnc = record (j.lcnc) { max_speed_lin = v; max_speed_ang = v } }
      else j

  abbrev pub beating : ℤ → Joining W C → Joining W C
  beating now j = record j {
    lcnc = record (j.lcnc) {
      heartbeat = (ctl.status j.lcnc.channel).heartbeat;
      next_time = now +ℤ pos 1;
    };
  }

  abbrev pub settled : ℤ → Bool × C → Joining W C → Outcome
  settled now (true, c) j = returned false (record j { lcnc = on_channel c (j.lcnc) })
  settled now (false, c) j =
      let j' = record j { lcnc = on_channel c (j.lcnc) } in
      if not (nml.has_size c)
      then exited
      else (let k = with_speeds (beating now j') in returned (is_ok ctl k.lcnc) k)

  -- `ConnectLCnc` at the time `now`, followed for a number of attempts.
  unfoldable pub connect_lcnc : ℕ → ℤ → Joining W C → Option Outcome
  unfolding join connect_nml
  connect_lcnc attempts now j = elim (join attempts j) [
    | none ↦ none
    | some k ↦ some (settled now (ctl.peek k.lcnc.channel) k)
  ]
