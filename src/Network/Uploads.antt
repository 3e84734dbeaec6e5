-- ===== src/Network/Uploads.antt =====
-- A whole upload: `LoadFile` of the client against `SendInit`, `SendData` and `LoadFile` of the server.
use cncremote.Prelude.{
  ℕ, zero, suc, ℤ, pos, ◌+ℤ◌, ◌-◌, ◌*◌, ◌<◌, ◌≤◌, ◌≡◌, refl, ap, ◌∙◌, ◌⊎◌, inl, inr, Bool, true,
  false, Bytes, ◌++◌, some, ok, arith, Bool-cases, length, take, drop, length-take,
  take-append-drop, append_assoc, ◌==◌, take_all, ltb, subst, length-drop,
}
use cncremote.Comms.{file_block_size}
use cncremote.Comms.Arithmetic.{Double}
use cncremote.Comms.Wire.{Codec, Wire}
use cncremote.Server.{Server, Driver}
use cncremote.Server.Files.{Host, send_data}
use cncremote.Server.Files.Blocks.{IsReceiving, IsClosed, send_data_full, send_data_last}
use cncremote.Server.Handlers.{success}
use cncremote.Server.Protocol.{Query, query_method}
use cncremote.Server.Dispatch.{query_params, query_meaning}
use cncremote.Client.Calls.{RemoteCall}
use cncremote.Client.Polling.{poll}
use cncremote.Client.Uploads.{call_as, as_on, send_block, send_blocks}
use cncremote.Network.{direct}
use cncremote.Network.Calls.{Joined, with_server, answered_call, invoke-ok}
use cncremote.Network.Polls.{SameFiles, OnlyReports, IsReceiving-SameFiles, poll-SameFiles}

full_or_last :
    (rest : Bytes)
    → (length (take file_block_size rest) ≡ file_block_size)
      ⊎ ((length rest < file_block_size) × (take file_block_size rest ≡ rest))
full_or_last rest = elim (Bool-cases (ltb (length rest) file_block_size)) [
  | inl e ↦
      (let short : length rest < file_block_size = ground arith in
        inr (short, take_all file_block_size rest (omega arith)))
  | inr e ↦ inl (length-take file_block_size rest ∙ ground arith)
]

-- The server has the whole content under the path, has closed its stream, and the client's call
-- object is free.
pub record IsDelivered {W M Any : Type 0} (path content : Bytes) (c : RemoteCall Any)
    (s : Server W M) : Type 0 where
  pub idle : c.busy ≡ false
  pub whole : s.disk.files path ≡ some content
  pub closed : IsClosed path s
  pub name : s.cur_file ≡ path

IsDelivered-same :
    {W M Any : Type 0} {content : Bytes} {c : RemoteCall Any} {s t : Server W M} (path : Bytes)
    → SameFiles s t
    → IsDelivered path content c s
    → IsDelivered path content c t
IsDelivered-same path e v = record {
  idle = v.idle;
  whole = rw e.disk v.whole;
  closed = record {
    handle = v.closed.handle;
    file = e.file ∙ v.closed.file;
    stream = rw e.disk v.closed.stream;
  };
  name = e.cur_file ∙ v.name;
}

module _ {W M : Type 0} ⦃d : Double W⦄ (w : Wire W) (host : Host) (drv : Driver W M)
    (local : Bool) where
  abbrev pub Doing : Type 0
  Doing = RemoteCall w.Any × Joined w host drv local

  abbrev polled : Joined w host drv local → Joined w host drv local
  polled s = (poll w (direct w host drv local) s).1

  as_on-ok :
      {A : Type 0} (codec : Codec w.Any A) (v : A) (u : Doing)
      → as_on w (direct w host drv local) codec (success w 0 (codec.pack v)) u ≡ (ok v, u)
  as_on-ok codec v u = rw (as_on, codec.unpack-pack v)

  pub call_as-ok :
      {A : Type 0} (codec : Codec w.Any A) (v : A) (any : w.Any) (q : Query) (c : RemoteCall w.Any)
      (s : Joined w host drv local) (server : Server W M)
      → c.busy ≡ false
      → query_meaning w host drv q s.world.server ≡ (ok (codec.pack v), server)
      → call_as w
          (direct w host drv local)
          (query_method q)
          (query_params w host drv any q)
          codec
          (c, s)
        ≡ (
          ok v,
          (
            answered_call w host drv local (success w 0 (codec.pack v)),
            with_server w host drv local server s,
          ),
        )
  call_as-ok codec v any q c s server idle means =
      rw (invoke-ok w host drv local any q (codec.pack v) c s server idle means)
        (as_on-ok codec v _)

  send_block-ok :
      (more : Bytes) (block : ℤ) (b : Bool) (c : RemoteCall w.Any) (s : Joined w host drv local)
      → c.busy ≡ false
      → (send_data more block s.world.server).0 ≡ ok b
      → send_block w (direct w host drv local) more block (c, s) ≡ (
        ok b,
        (
          answered_call w host drv local (success w 0 (w.bool.pack b)),
          with_server w host drv local (send_data more block s.world.server).1 s,
        ),
      )
  send_block-ok more block b c s idle e =
      call_as-ok w.bool b w.nil (Query.send_data more block) c s _ idle (rw e)

  abbrev block_of : Bytes → Bytes
  block_of rest = take file_block_size rest

  abbrev after_block : Bytes → ℤ → Joined w host drv local → Doing
  after_block rest block s = (
    answered_call w host drv local (success w 0 (w.bool.pack true)),
    polled (with_server w host drv local (send_data (block_of rest) block s.world.server).1 s),
  )

  module _ (fuel : ℕ) (rest : Bytes) (block : ℤ) (c : RemoteCall w.Any)
      (s : Joined w host drv local) (idle : c.busy ≡ false)
      (taken : (send_data (block_of rest) block s.world.server).0 ≡ ok true) where
    send_blocks-full :
        (length (block_of rest) == file_block_size) ≡ true
        → send_blocks w (direct w host drv local) (suc fuel) rest block (c, s)
          ≡ send_blocks w
              (direct w host drv local)
              fuel
              (drop file_block_size rest)
              (block +ℤ pos 1)
              (after_block rest block s)
    unfolding send_blocks
    send_blocks-full full = rw (send_block-ok (block_of rest) block true c s idle taken, full) refl

    send_blocks-last :
        (length (block_of rest) == file_block_size) ≡ false
        → send_blocks w (direct w host drv local) (suc fuel) rest block (c, s)
          ≡ (ok (some true), after_block rest block s)
    unfolding send_blocks
    send_blocks-last short =
        rw (send_block-ok (block_of rest) block true c s idle taken, short) refl

  abbrev Delivers : ℕ → Bytes → Bytes → Bytes → ℤ → Doing → Type 0
  Delivers fuel path got rest block t =
      (u : Doing) × (send_blocks w (direct w host drv local) fuel rest block t
        ≡ (ok (some true), u))
      × IsDelivered path (got ++ rest) u.0 u.1.world.server

  module _ (fuel : ℕ) (path got rest : Bytes) (block : ℤ) (room : ℕ) (c : RemoteCall w.Any)
      (s : Joined w host drv local) (only : OnlyReports drv) (idle : c.busy ≡ false)
      (v : IsReceiving path got block room s.world.server) (fits : length rest ≤ room) where
    abbrev next : Doing
    next = after_block rest block s

    next_same : SameFiles (send_data (block_of rest) block s.world.server).1 next.1.world.server
    next_same =
        poll-SameFiles w host drv local
          (with_server w host drv local (send_data (block_of rest) block s.world.server).1 s) only

    last_round :
        length rest < file_block_size
        → block_of rest ≡ rest
        → Delivers (suc fuel) path got rest block (c, s)
    last_round short all =
        let (taken, whole, name, closed) =
          send_data_last path got (block_of rest) block room s.world.server v (rw all short)
            (rw all fits) in
        (
          next,
          send_blocks-last fuel rest block c s idle taken (rw all (ground arith)),
          IsDelivered-same path next_same (record {
            idle = refl;
            whole = whole ∙ ap (λ r. some (got ++ r)) all;
            closed = closed;
            name = name;
          }),
        )

    full_round :
        length (block_of rest) ≡ file_block_size
        → (IsReceiving path
              (got ++ block_of rest)
              (block +ℤ pos 1)
              (room - file_block_size)
              next.1.world.server
            → Delivers fuel path
                (got ++ block_of rest)
                (drop file_block_size rest)
                (block +ℤ pos 1)
                next)
        → Delivers (suc fuel) path got rest block (c, s)
    full_round full goes_on =
        let long = length-take file_block_size rest in
        let (taken, receiving) =
          send_data_full path got (block_of rest) block room s.world.server v full (omega arith) in
        let (u, runs, delivered) =
          goes_on (rw (← full) (IsReceiving-SameFiles next_same receiving)) in
        (
          u,
          send_blocks-full fuel rest block c s idle taken (ground arith) ∙ runs,
          subst (λ r. IsDelivered path r u.0 u.1.world.server)
              (append_assoc got (block_of rest) (drop file_block_size rest)
                ∙ ap (λ r. got ++ r) (take-append-drop file_block_size rest))
              delivered,
        )

  -- The loop of `LoadFile`, started anywhere in a transfer that the server is ready to go on with.
  pub send_blocks-Delivers :
      (fuel : ℕ) (path got rest : Bytes) (block : ℤ) (room : ℕ) (c : RemoteCall w.Any)
      (s : Joined w host drv local)
      → OnlyReports drv
      → c.busy ≡ false
      → IsReceiving path got block room s.world.server
      → length rest ≤ room
      → length rest < fuel * file_block_size
      → Delivers fuel path got rest block (c, s)
  send_blocks-Delivers zero path got rest block room c s only idle v fits rounds =
      absurd (omega arith)
  send_blocks-Delivers (suc fuel) path got rest block room c s only idle v fits rounds =
      elim (full_or_last rest) [
        | inl full ↦
            let left = length-drop file_block_size rest in
            let long = length-take file_block_size rest in
            full_round fuel path got rest block room c s only idle v fits full λ receiving.
              send_blocks-Delivers fuel path (got ++ block_of rest) (drop file_block_size rest)
                (block +ℤ pos 1) (room - file_block_size)
                (next fuel path got rest block room c s only idle v fits).0
                (next fuel path got rest block room c s only idle v fits).1 only refl receiving
                (omega arith) (omega arith)
        | inr (short, all) ↦ last_round fuel path got rest block room c s only idle v fits short all
      ]
