-- ===== src/Client/Uploads.antt =====
-- `Client::LoadFile` of src/cncclient.cpp (the branch for unix): a file for a server on another machine
-- is sent block by block. The client's files are an argument; a read of a block is whole.
pub mod Ends
pub mod Defined
use cncremote.Prelude.{
  ℕ, zero, suc, ℤ, pos, ◌+ℤ◌, ◌+◌, ◌-◌, ◌/◌, ◌%◌, ◌^◌, ltb, leb, ◌==◌, not, Bool, true, false,
  Bytes, codes, List, [], ◌∷◌, Option, none, some, length, take, drop, is_empty, Exec, Result, ok,
  raised, undefined, pure, throw, continue, ◌>>=◌, ◌>>◌, if◌then◌else◌,
}
use cncremote.Comms.{file_block_size}
use cncremote.Comms.Arithmetic.{Double}
use cncremote.Comms.Wire.{Codec, Wire}
use cncremote.Server.Handlers.{Response}
use cncremote.Client.Calls.{RemoteCall, new_call}
use cncremote.Client.Session.{Peer, Session, invoke}
use cncremote.Client.Polling.{poll}

-- `find_last_of` of one character; none for `npos`.
unfoldable pub find_last_of : ℕ → Bytes → Option ℕ
find_last_of c [] = none
find_last_of c (x ∷ xs) = elim (find_last_of c xs) [
  | some i ↦ some (suc i)
  | none ↦ if x == c then some 0 else none
]

-- `substr`; none for the exception `out_of_range`.
unfoldable pub substr : Bytes → ℕ → ℕ → Option Bytes
substr s start count = if ltb (length s) start then none else some (take count (drop start s))

abbrev or_zero : Option ℕ → ℕ
or_zero none = 0
or_zero (some i) = i

abbrev end_from : Option ℕ → ℕ → ℕ → ℕ
end_from none start size = size
end_from (some e) start size = if ltb e start then size else e

-- The name that the server is given as a hint: `s` is 0 where there is no slash, and the count wraps
-- as a `size_t`.
unfoldable pub upload_name : Bytes → Option Bytes
unfolding find_last_of substr
upload_name file =
    let s = or_zero (find_last_of b'/' file) in
    let e = end_from (find_last_of b'.' file) s (length file) in
    substr file (s + 1) ((e + 2 ^ 64 - (s + 1)) % 2 ^ 64)

-- As many as the loop has rounds.
abbrev pub enough : Bytes → ℕ
enough content = length content / file_block_size + 1

module _ {W S : Type 0} ⦃d : Double W⦄ (w : Wire W) (peer : Peer w.Any S) where
  abbrev pub Work : Type 0
  Work = RemoteCall w.Any × Session W w.Any S

  abbrev pub as_on : {A : Type 0} → Codec w.Any A → Response w.Any → Exec Work A
  as_on c r u = elim (c.unpack r.result) [
    | none ↦ (raised (codes "std::bad_cast"), u)
    | some a ↦ (ok a, u)
  ]

  -- `remote.Call(m_socket, m_timeout, method, ...).result.as<A>()`
  abbrev pub call_as : {A : Type 0} → Bytes → w.Any → Codec w.Any A → Exec Work A
  call_as method params c = do r ← invoke w peer method params; as_on c r

  abbrev poll_between : Exec Work (Unit {0})
  poll_between (c, s) = (ok tt, (c, (poll w peer s).1))

  abbrev pub send_block : Bytes → ℤ → Exec Work Bool
  send_block more block =
      call_as (codes "SendData") ((w.pair w.text w.int).pack (more, block)) w.bool

  -- The `do` loop; none if the fuel runs out. `rest` is what `fread` has not read.
  unfoldable pub send_blocks : ℕ → Bytes → ℤ → Exec Work (Option Bool)
  send_blocks zero rest block u = (ok none, u)
  send_blocks (suc fuel) rest block u =
      let more = take file_block_size rest in
      (do
        accepted ← send_block more block
        elim accepted [
          | false ↦ pure (some false)
          | true ↦ poll_between >> elim (length more == file_block_size) [
            | true ↦ send_blocks fuel (drop file_block_size rest) (block +ℤ pos 1)
            | false ↦ pure (some true)
          ]
        ])
        u

  abbrev load_remote : Bytes → Exec Work (Option Bool)
  load_remote file = do
    loaded ← call_as (codes "LoadFile") (w.text.pack file) w.bool
    pure (some loaded)

  abbrev after_upload : Bytes → Option Bool → Exec Work (Option Bool)
  after_upload path none = pure none
  after_upload path (some false) = pure (some false)
  after_upload path (some true) = load_remote path

  abbrev send_file : Bytes → Bytes → Exec Work (Option Bool)
  send_file content path =
      if is_empty path
      then pure (some false)
      else (send_blocks (enough content) content (pos 0) >>= after_upload path)

  abbrev upload_named : Bytes → Option Bytes → Exec Work (Option Bool)
  upload_named content none = throw (codes "basic_string::substr")
  upload_named content (some name) = do
    path ← call_as (codes "SendInit") (w.text.pack name) w.text
    send_file content path

  abbrev upload : Bytes → Option Bytes → Exec Work (Option Bool)
  upload file none = pure (some false)
  upload file (some content) = upload_named content (upload_name file)

  abbrev drop_call : {A : Type 0} → Result A × Work → Result A × Session W w.Any S
  drop_call (r, (c, s)) = (r, s)

  -- With the client's files; none if the fuel runs out.
  unfoldable pub load_file : (Bytes → Option Bytes) → Bytes → Exec (Session W w.Any S) (Option Bool)
  unfolding new_call
  load_file files file s =
      if not (peer.is_connected s.world)
      then (ok (some false), s)
      else if peer.is_local s.world
      then drop_call (load_remote file (new_call, s))
      else drop_call (upload file (files file) (new_call, s))
