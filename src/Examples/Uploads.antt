-- ===== src/Examples/Uploads.antt =====
-- Two clients whose calls come one after the other.
use cncremote.Prelude.{
  ℤ, pos, ◌≡◌, refl, true, codes, bytes_eq, List, [], ◌∷◌, closed_stream, false,
}
use cncremote.Sample.{whole_numbers}
use cncremote.Server.Files.{send_init, send_data, delete_temp, template}
use cncremote.Server.Stdio.{fdopen, fwrite, fclose}
use cncremote.Server.Files.Transfers.{
  Transfer, idle, Op, start, block, named, accepted, broken, Trace, run_ops, Represents, Closes,
}
use cncremote.Server.Files.Transfers.Refines.{run_ops-Refines}
use cncremote.Sim.{Sim, new_sim}
use cncremote.Sim.Members.{sim}
use cncremote.Examples.Data.{host, machine}

sim-Closes : (s : Sim ℤ) → Closes sim s
unfolding sim
sim-Closes s = record {
  result = true;
  after = s;
  closes = refl;
  disk = refl;
  file = refl;
  cur_block = refl;
  cur_file = refl;
}

-- The second client starts before the first has sent its file.
abbrev ops : List Op
ops =
    block (codes "G0") (pos 0)
    ∷ start (codes "a")
    ∷ start (codes "b")
    ∷ block (codes "G1") (pos 0)
    ∷ block (codes "G2") (pos 0)
    ∷ block (codes "G3") (pos 1)
    ∷ []

run_ops-Refines_example :
    (c : Transfer) × Trace idle ops (run_ops sim host ops machine).0 c
    × Represents c (run_ops sim host ops machine).1
unfolding new_sim
run_ops-Refines_example = run_ops-Refines sim host ops machine sim-Closes refl

ops-replies :
    (run_ops sim host ops machine).0
    ≡ accepted false
      ∷ named (template (codes "a"))
      ∷ named (template (codes "b"))
      ∷ accepted true
      ∷ broken closed_stream
      ∷ []
unfolding new_sim sim send_init send_data fdopen fwrite fclose delete_temp bytes_eq
ops-replies = refl
