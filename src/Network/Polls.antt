-- ===== src/Network/Polls.antt =====
-- Polling between the blocks of a transfer leaves the transfer alone.
use cncremote.Prelude.{
  ℕ, ℤ, pos, ◌≡◌, refl, ◌∙◌, Bool, true, false, not, ◌&&◌, ◌||◌, Bytes, codes, Result, ok, raised,
  undefined, arith, if◌then◌else◌, Bool-cases, inl, inr,
}
use cncremote.Comms.Arithmetic.{Double}
use cncremote.Comms.Wire.{Wire}
use cncremote.Comms.States.{pack_state}
use cncremote.Server.{Server, Driver}
use cncremote.Server.Files.{Host}
use cncremote.Server.Files.Blocks.{IsReceiving}
use cncremote.Server.Logs.{get_state_}
use cncremote.Server.Bindings.{version}
use cncremote.Server.Handlers.{Response}
use cncremote.Server.Protocol.{Query}
use cncremote.Server.Dispatch.{packed, query_meaning, answer, on_request-query}
use cncremote.Client.Session.{Client, Peer}
use cncremote.Client.Polling.{poll, ask, take_version, take_status, hear}
use cncremote.Network.{Net, direct}
use cncremote.Network.Calls.{Joined}

-- Two servers with the same files and the same place in a transfer.
pub record SameFiles {W M : Type 0} (s t : Server W M) : Type 0 where
  pub disk : t.disk ≡ s.disk
  pub file : t.file ≡ s.file
  pub cur_block : t.cur_block ≡ s.cur_block
  pub cur_file : t.cur_file ≡ s.cur_file

-- The driver reports the machine's state and nothing else.
pub record OnlyReports {W M : Type 0} (drv : Driver W M) : Type 0 where
  pub keeps : (s : Server W M) → SameFiles s (drv.update_state s).1

SameFiles-refl : {W M : Type 0} (s : Server W M) → SameFiles s s
SameFiles-refl s = record { disk = refl; file = refl; cur_block = refl; cur_file = refl }

pub IsReceiving-SameFiles :
    {W M : Type 0} {path got : Bytes} {block : ℤ} {room : ℕ} {s t : Server W M}
    → SameFiles s t
    → IsReceiving path got block room s
    → IsReceiving path got block room t
IsReceiving-SameFiles e v = record {
  handle = v.handle;
  file = e.file ∙ v.file;
  stream = rw e.disk v.stream;
  content = rw e.disk v.content;
  turn = e.cur_block ∙ v.turn;
  space = rw e.disk v.space;
  name = e.cur_file ∙ v.name;
}

module _ {W M : Type 0} ⦃d : Double W⦄ (w : Wire W) (host : Host) (drv : Driver W M)
    (local : Bool) where
  -- Packing and answering leave the state to the member that was called.
  answer_state :
      {A : Type 0} (pack : A → w.Any) (q : Query) (r : Result A × Server W M)
      → (answer w host drv 0 q (packed w host drv pack r)).1 ≡ r.1
  answer_state pack q (ok v, s) = refl
  answer_state pack q (raised e, s) = refl
  answer_state pack q (undefined f, s) = refl

  get_state_state : (s : Server W M) → (get_state_ drv s).1 ≡ (drv.update_state s).1
  unfolding get_state_
  get_state_state s = ground arith

  abbrev answers : Query → Server W M → Result (Response w.Any) × Server W M
  answers q s = answer w host drv 0 q (query_meaning w host drv q s)

  serve-SameFiles :
      (s : Server W M)
      → OnlyReports drv
      → SameFiles s (answers Query.get_state s).1 × SameFiles s (answers Query.get_version s).1
  unfolding version
  serve-SameFiles s only = (
    rw (answer_state (pack_state w) Query.get_state (get_state_ drv s), get_state_state s)
        (only.keeps s),
    SameFiles-refl s,
  )

  module _ (only : OnlyReports drv) (s : Joined w host drv local) where
    abbrev server_after : Joined w host drv local → Server W M
    server_after t = t.world.server

    abbrev peer : Peer w.Any (Net W w.Any M)
    peer = direct w host drv local

    ask-SameFiles :
        SameFiles s.world.server (ask w peer (codes "GetState") s).world.server
        × SameFiles s.world.server (ask w peer (codes "Version") s).world.server
    unfolding ask direct
    ask-SameFiles =
        let (state, ver) = serve-SameFiles s.world.server only in
        elim (Bool-cases s.client.status_call.busy) [
          | inl e ↦ rw e (SameFiles-refl s.world.server, SameFiles-refl s.world.server)
          | inr e ↦ rw e (
            rw (on_request-query w host drv (w.int.pack (pos 0)) 0 Query.get_state s.world.server)
                state,
            rw (on_request-query w host drv (w.int.pack (pos 0)) 0 Query.get_version s.world.server)
                ver,
          )
        ]

  if_same :
      (test : Bool) (a b : Joined w host drv local) (s : Server W M)
      → SameFiles s a.world.server
      → SameFiles s b.world.server
      → SameFiles s (if test then a else b).world.server
  if_same true a b s h k = h
  if_same false a b s h k = k

  if_same_result :
      {A : Type 0} (test : Bool) (a b : A × Joined w host drv local) (s : Server W M)
      → SameFiles s a.1.world.server
      → SameFiles s b.1.world.server
      → SameFiles s (if test then a else b).1.world.server
  if_same_result true a b s h k = h
  if_same_result false a b s h k = k

  abbrev with_client : Client W w.Any → Joined w host drv local → Joined w host drv local
  with_client c s = record s { client = c }

  -- Over a network that delivers, if the driver's `UpdateState` leaves the server's files and its
  -- transfer alone, so does the client's `Poll`: files, stream, awaited block and temporary file stay
  -- as they are.
  pub poll-SameFiles :
      (s : Joined w host drv local)
      → OnlyReports drv
      → SameFiles s.world.server (poll w (direct w host drv local) s).1.world.server
  unfolding poll direct
  poll-SameFiles s only =
      let t : Joined w host drv local = hear w (direct w host drv local) s in
      let srv : Server W M = s.world.server in
      let t1 = with_client (take_version w t.client) t in
      let t2 = with_client (take_status w t.client) t in
      let kept1 =
        if_same (not t1.client.status_call.busy && d.eq t1.client.server_ver d.nought)
          (ask w (direct w host drv local) (codes "Version") t1) t1 srv (ask-SameFiles only t1).1
          (SameFiles-refl srv) in
      let kept2 =
        if_same (not t2.client.status_call.busy)
          (ask w (direct w host drv local) (codes "GetState") t2) t2 srv (ask-SameFiles only t2).0
          (SameFiles-refl srv) in
      if_same_result (d.lt t.client.server_ver d.nought || d.eq t.client.server_ver d.nought) _ _
        srv (if_same_result (d.lt t.client.server_ver d.nought) _ _ srv (SameFiles-refl srv) kept1)
        kept2
