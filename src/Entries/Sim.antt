-- ===== src/Entries/Sim.antt =====
-- The simulator's program (drivers/Sim/server/main.cpp), and the plugin that comes with it (drivers/Sim/plugin/main.cpp),
-- which has no state.
use cncremote.Prelude.{ℕ, zero, suc, Bool, true}
use cncremote.Comms.Arithmetic.{Double}
use cncremote.Client.Polling.{ComError, err_ok}
use cncremote.Sim.{Sim}
use cncremote.Sim.Motion.{poll}
use cncremote.Entries.{Listener, default_port, bind}

-- The plugin's `Start` and `ControlExists`; its `Stop`, `Poll` and `Quit` are empty.
abbrev pub start : Bool
start = true

abbrev pub control_exists : Bool
control_exists = true

-- What `main` returns: -1 if the port cannot be had, or the simulator after the rounds of a loop that never ends.
pub data Exit (W : Type 0) : Type 0 where
  minus_one : Exit W
  loops : Sim W → Exit W

module _ {W : Type 0} ⦃d : Double W⦄ where
  -- The loop for a number of rounds, from the round `i` on; `serves` is what the requests of clients do before a poll.
  unfoldable pub run : (ℕ → Sim W → Sim W) → ℕ → ℕ → Sim W → Sim W
  unfolding poll
  run serves zero i s = s
  run serves (suc rounds) i s = run serves rounds (suc i) (poll (serves i s))

  abbrev after_bind : {X : Type 0} → ComError × X → Sim W → Exit W
  after_bind (err_ok, x) s = loops s
  after_bind (_, x) s = minus_one

  unfoldable pub main : {X : Type 0} → Listener X → (ℕ → Sim W → Sim W) → ℕ → Sim W → Exit W
  unfolding bind run
  main l serves rounds s = after_bind (bind l default_port l.idle) (run serves rounds 0 s)
