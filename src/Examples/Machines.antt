-- ===== src/Examples/Machines.antt =====
-- The simulated machine.
use cncremote.Prelude.{ℤ, pos, ◌+ℤ◌, ◌≡◌, refl, false, List, [], ◌∷◌}
use cncremote.Sample.{whole_numbers}
use cncremote.Comms.{mc_off, new_state}
use cncremote.Comms.Vectors.{Axes, fill, zero, sub, length}
use cncremote.Sim.{Sim, new_sim}
use cncremote.Sim.Members.{drives_on}
use cncremote.Sim.Motion.{poll}
use cncremote.Sim.Safety.{Act, polls, jogs, overrides, acts, drives_on-off}
use cncremote.Examples.Data.{machine}

abbrev todo : List (Act ℤ)
todo = jogs (fill (pos 4)) ∷ polls ∷ overrides (pos 2) ∷ polls ∷ []

abbrev after_all : Sim ℤ
after_all = poll (acts todo (drives_on false machine).1)

drives_on-off_example :
    (after_all.state.position ≡ machine.state.position) × (after_all.state.machine_state ≡ mc_off)
unfolding new_sim new_state zero sub length whole_numbers ◌+ℤ◌
drives_on-off_example = drives_on-off todo machine refl

abbrev off : Sim ℤ
off = (drives_on false machine).1

abbrev distance : Axes ℤ
distance = fill (pos 5)
