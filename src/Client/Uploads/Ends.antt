-- ===== src/Client/Uploads/Ends.antt =====
-- `Client::LoadFile` (src/cncclient.cpp) comes to an end whatever the server and the network do.
use cncremote.Prelude.{
  ℕ, zero, suc, ℤ, pos, ◌+ℤ◌, ◌*◌, ◌<◌, ◌≡◌, ◌≢◌, refl, ap, Bool, true, false, not, Bytes, codes,
  Option, none, some, Result, ok, raised, undefined, Exec, continue, arith, if◌then◌else◌, length,
  length-take, length-drop, take, drop, ◌==◌, is_empty, pure,
}
use cncremote.Comms.{file_block_size}
use cncremote.Comms.Arithmetic.{Double}
use cncremote.Comms.Wire.{Wire}
use cncremote.Client.Calls.{new_call}
use cncremote.Client.Session.{Peer, Session}
use cncremote.Client.Uploads.{
  Work, call_as, send_block, send_blocks, enough, load_file, load_remote, upload, upload_name,
  after_upload, send_file, upload_named, drop_call, poll_between,
}

-- The run did not stop for lack of fuel.
abbrev IsOver : Result (Option Bool) → Type 0
IsOver r = r ≢ ok none

some-IsOver : (b : Bool) → IsOver (ok (some b))
some-IsOver b e = absurd cc

size_eq : (m n : ℕ) → (m == n) ≡ true → m ≡ n
size_eq m n e = ground arith

module _ {S : Type 0} where
  continue-IsOver :
      {A : Type 0} (m : Result A × S) (f : A → Exec S (Option Bool))
      → ((a : A) → IsOver (f a m.1).0)
      → IsOver (continue m f).0
  continue-IsOver (ok a, s) f h = h a
  continue-IsOver (raised e, s) f h = λ p. absurd cc
  continue-IsOver (undefined x, s) f h = λ p. absurd cc

  if_IsOver :
      (b : Bool) (p q : Result (Option Bool) × S)
      → IsOver p.0
      → (b ≡ false → IsOver q.0)
      → IsOver (if b then p else q).0
  if_IsOver true p q h k = h
  if_IsOver false p q h k = k refl

  branch-IsOver :
      (b : Bool) (p q : Exec S (Option Bool)) (s : S)
      → (b ≡ true → IsOver (p s).0)
      → (b ≡ false → IsOver (q s).0)
      → IsOver ((if b then p else q) s).0
  branch-IsOver true p q s h k = h refl
  branch-IsOver false p q s h k = k refl

  elim-IsOver :
      (b : Bool) (p q : Exec S (Option Bool)) (s : S)
      → (b ≡ true → IsOver (p s).0)
      → IsOver (q s).0
      → IsOver ((elim b as (λ _. Exec S (Option Bool)) [ true ↦ p | false ↦ q ]) s).0
  elim-IsOver true p q s h k = h refl
  elim-IsOver false p q s h k = k

module _ {W S : Type 0} ⦃d : Double W⦄ (w : Wire W) (peer : Peer w.Any S) where
  send_blocks-IsOver :
      (fuel : ℕ) (rest : Bytes) (block : ℤ) (u : Work w peer)
      → length rest < fuel * file_block_size
      → IsOver (send_blocks w peer fuel rest block u).0
  unfolding send_blocks
  send_blocks-IsOver zero rest block u rounds = absurd (omega arith)
  send_blocks-IsOver (suc fuel) rest block u rounds =
      continue-IsOver (send_block w peer (take file_block_size rest) block u) _ elim [
        | true ↦
            elim-IsOver (length (take file_block_size rest) == file_block_size)
              (send_blocks w peer fuel (drop file_block_size rest) (block +ℤ pos 1))
              (pure (some true))
              (poll_between w peer (send_block w peer (take file_block_size rest) block u).1).1
              (λ full.
                let full_size = size_eq (length (take file_block_size rest)) file_block_size full in
                let taken = length-take file_block_size rest in
                let left = length-drop file_block_size rest in
                send_blocks-IsOver fuel (drop file_block_size rest) _ _ (omega arith))
              (some-IsOver true)
        | false ↦ some-IsOver false
      ]

  load_remote-IsOver : (path : Bytes) (u : Work w peer) → IsOver (load_remote w peer path u).0
  load_remote-IsOver path u =
      continue-IsOver (call_as w peer (codes "LoadFile") (w.text.pack path) w.bool u) _
        λ b. some-IsOver b

  after_upload-IsOver :
      (path : Bytes) (sent : Option Bool) (u : Work w peer)
      → sent ≢ none
      → IsOver (after_upload w peer path sent u).0
  after_upload-IsOver path none u h = absurd (h refl)
  after_upload-IsOver path (some false) u h = some-IsOver false
  after_upload-IsOver path (some true) u h = load_remote-IsOver path u

  sent-IsOver :
      (path : Bytes) (m : Result (Option Bool) × Work w peer)
      → IsOver m.0
      → IsOver (continue m (after_upload w peer path)).0
  sent-IsOver path (ok r, u) h = after_upload-IsOver path r u λ e. h (ap ok e)
  sent-IsOver path (raised e, u) h = λ p. absurd cc
  sent-IsOver path (undefined e, u) h = λ p. absurd cc

  send_file-IsOver :
      (content path : Bytes) (u : Work w peer) → IsOver (send_file w peer content path u).0
  send_file-IsOver content path u =
      branch-IsOver (is_empty path) _ _ u (λ e. some-IsOver false)
        λ e.
          sent-IsOver path _ (send_blocks-IsOver (enough content) content (pos 0) u (omega arith))

  upload-IsOver :
      (file : Bytes) (content : Option Bytes) (u : Work w peer)
      → IsOver (upload w peer file content u).0
  upload-IsOver file none u = some-IsOver false
  upload-IsOver file (some content) u = named (upload_name file)
    where
      named : (name : Option Bytes) → IsOver (upload_named w peer content name u).0
      named none = λ p. absurd cc
      named (some name) =
          continue-IsOver (call_as w peer (codes "SendInit") (w.text.pack name) w.text u) _
            λ path. send_file-IsOver content path _

  drop-IsOver :
      (m : Result (Option Bool) × Work w peer) → IsOver m.0 → IsOver (drop_call w peer m).0
  drop-IsOver (r, (c, s)) h = h

  -- `LoadFile` ends, whatever the file, its name, the server's answers and the network's failures are: it
  -- returns true or false, or an exception or undefined behaviour stops it. The fuel of one round for each
  -- block of the file and one more is never used up, although the loop asks the server in each round.
  pub load_file-ends :
      (files : Bytes → Option Bytes) (file : Bytes) (s : Session W w.Any S)
      → (load_file w peer files file s).0 ≢ ok none
  unfolding load_file
  load_file-ends files file s =
      if_IsOver (not (peer.is_connected s.world)) _ _ (some-IsOver false) λ e.
        if_IsOver (peer.is_local s.world) _ _
          (drop-IsOver (load_remote w peer file (new_call, s))
            (load_remote-IsOver file (new_call, s)))
          (λ l.
            drop-IsOver (upload w peer file (files file) (new_call, s))
              (upload-IsOver file (files file) (new_call, s)))
