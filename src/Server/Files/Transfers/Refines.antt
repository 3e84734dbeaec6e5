-- ===== src/Server/Files/Transfers/Refines.antt =====
-- `SendInit` and `SendData` of src/cncserver.cpp keep what the transfer of files promises.
use cncremote.Prelude.{◌≡◌, refl, true, List, [], ◌∷◌, none, Bool-cases, inl, inr}
use cncremote.Server.{Server, Driver}
use cncremote.Server.Files.{Host}
use cncremote.Server.Files.Transfers.{
  Transfer, idle, Op, Reply, goes_on, Allowed, opens, opens_none, gives_up, overruns, uses_closed,
  ignores, appends, completes, refuses, runs_full, Trace, ends, stops, goes, do_op, chained,
  run_ops, Represents, Closes,
}
use cncremote.Server.Files.Transfers.Answers.{is_known, Answers, do_op-Answers}

goes_on-known :
    {a b : Transfer} {op : Op} {r : Reply} → Allowed a op r b → goes_on r ≡ true → is_known b ≡ true
goes_on-known (opens f s) g = refl
goes_on-known (opens_none f) g = refl
goes_on-known gives_up g = refl
goes_on-known (overruns f l) g = absurd cc
goes_on-known (uses_closed f) g = absurd cc
goes_on-known ignores g = refl
goes_on-known (appends l f) g = refl
goes_on-known (completes l f) g = refl
goes_on-known (refuses n) g = refl
goes_on-known (runs_full f) g = refl

module _ {W M : Type 0} (drv : Driver W M) (host : Host) where
  run_on :
      (a : Transfer) (op : Op) (ops : List Op) (r : Reply) (s : Server W M)
      → Answers drv host a op (r, s)
      → ((b : Transfer)
          → is_known b ≡ true
          → Represents b s
          → (c : Transfer) × Trace b ops (run_ops drv host ops s).0 c
            × Represents c (run_ops drv host ops s).1)
      → let (rs, t) = chained drv host r s (run_ops drv host ops s) in
        (c : Transfer) × Trace a (op ∷ ops) rs c × Represents c t
  run_on a op ops r s (b, allowed, v) rest = elim (Bool-cases (goes_on r)) [
    | inr e ↦ rw e (b, stops allowed e, v)
    | inl e ↦
        (let (c, trace, u) = rest b (goes_on-known allowed e) v in
          rw e (c, goes allowed e trace, u))
  ]

  run_ops-Trace :
      ((s : Server W M) → Closes drv s)
      → (ops : List Op) (a : Transfer) (s : Server W M) → is_known a ≡ true
      → Represents a s
      → (c : Transfer) × Trace a ops (run_ops drv host ops s).0 c
        × Represents c (run_ops drv host ops s).1
  run_ops-Trace quiet [] a s k v = (a, ends, v)
  run_ops-Trace quiet (op ∷ ops) a s k v =
      let (r, t) = do_op drv host op s in
      run_on a op ops r t (do_op-Answers drv host a op s (quiet s) k v)
        λ b k' v'. run_ops-Trace quiet ops b t k' v'

  -- Whatever `SendInit`s and `SendData`s reach a server that has had no transfer, from however many clients and in
  -- whatever order, and whatever files the host makes: if the driver's `CloseFile` returns and leaves the
  -- transfer alone, the replies are those that the abstract transfer allows, up to the first call whose
  -- behaviour is undefined, and then the files of the server hold what the abstract transfer says.
  pub run_ops-Refines :
      (ops : List Op) (s : Server W M)
      → ((t : Server W M) → Closes drv t)
      → s.file ≡ none
      → (c : Transfer) × Trace idle ops (run_ops drv host ops s).0 c
        × Represents c (run_ops drv host ops s).1
  run_ops-Refines ops s quiet free = run_ops-Trace quiet ops idle s refl free
