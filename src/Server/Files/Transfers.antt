-- ===== src/Server/Files/Transfers.antt =====
-- What the transfer of files promises to clients, apart from streams, pointers and files of the process: a state that
-- the calls of `SendInit` and `SendData` (src/cncserver.cpp) go through, with the replies that they get.
pub mod Answers
pub mod Refines
use cncremote.Prelude.{
  ℕ, ℤ, pos, ◌+ℤ◌, ◌-◌, ◌<◌, ◌≤◌, ◌≡◌, ◌≢◌, Bool, true, false, Bytes, List, [], ◌∷◌, ◌++◌, length,
  take, Result, ok, raised, undefined, none, if◌then◌else◌, Fault, buffer_overflow, closed_stream,
  some,
}
use cncremote.Comms.{file_block_size}
use cncremote.Server.{Server, Driver}
use cncremote.Server.Files.{Host, send_init, send_data, template, path_max}
use cncremote.Server.Files.Blocks.{IsReceiving, IsClosed}

-- No transfer; one into a file, of which some bytes have come, with the number of the next block and the room on
-- the disk; one that is over, with what the file holds; one that was given up; and nothing that C++ defines.
pub data Transfer : Type 0 where
  idle : Transfer
  receiving : Bytes → Bytes → ℤ → ℕ → Transfer
  over : Bytes → Bytes → Transfer
  given_up : Transfer
  lost : Transfer

-- A call of a client's: with the hint for the name, or with a block and its number.
pub data Op : Type 0 where
  start : Bytes → Op
  block : Bytes → ℤ → Op

pub data Reply : Type 0 where
  named : Bytes → Reply
  accepted : Bool → Reply
  thrown : Bytes → Reply
  broken : Fault → Reply

abbrev pub is_free : Transfer → Bool
is_free idle = true
is_free (receiving path got next room) = true
is_free _ = false

abbrev pub goes_on : Reply → Bool
goes_on (named path) = true
goes_on (accepted b) = true
goes_on _ = false

-- The replies that are allowed, and the state after each.
pub data Allowed : Transfer → Op → Reply → Transfer → Type 0 where
  opens :
      {a : Transfer} {hint path : Bytes} {room : ℕ}
      → is_free a ≡ true
      → length (template hint) < path_max
      → Allowed a (start hint) (named path) (receiving path [] (pos 0) room)
  opens_none :
      {a : Transfer} {hint : Bytes} → is_free a ≡ true → Allowed a (start hint) (named []) idle
  gives_up :
      {path got : Bytes} {next : ℤ} {room : ℕ} {hint : Bytes}
      → Allowed (receiving path got next room) (start hint) (named []) given_up
  overruns :
      {a : Transfer} {hint : Bytes}
      → is_free a ≡ true
      → path_max ≤ length (template hint)
      → Allowed a (start hint) (broken buffer_overflow) lost
  uses_closed :
      {a : Transfer} {op : Op} → is_free a ≡ false → Allowed a op (broken closed_stream) lost
  ignores : {more : Bytes} {n : ℤ} → Allowed idle (block more n) (accepted false) idle
  appends :
      {path got more : Bytes} {n : ℤ} {room : ℕ}
      → file_block_size ≤ length more
      → length more ≤ room
      → Allowed
          (receiving path got n room)
          (block more n)
          (accepted true)
          (receiving path (got ++ more) (n +ℤ pos 1) (room - length more))
  completes :
      {path got more : Bytes} {n : ℤ} {room : ℕ}
      → length more < file_block_size
      → length more ≤ room
      → Allowed (receiving path got n room) (block more n) (accepted true) (over path (got ++ more))
  refuses :
      {path got more : Bytes} {next n : ℤ} {room : ℕ}
      → n ≢ next
      → Allowed (receiving path got next room) (block more n) (accepted false) (over path got)
  runs_full :
      {path got more : Bytes} {n : ℤ} {room : ℕ}
      → room < length more
      → Allowed
          (receiving path got n room)
          (block more n)
          (accepted false)
          (over path (got ++ take room more))

-- The replies to calls, one after the other, up to the first after which nothing is defined.
pub data Trace : Transfer → List Op → List Reply → Transfer → Type 0 where
  ends : {a : Transfer} → Trace a [] [] a
  stops :
      {a b : Transfer} {op : Op} {ops : List Op} {r : Reply}
      → Allowed a op r b
      → goes_on r ≡ false
      → Trace a (op ∷ ops) (r ∷ []) b
  goes :
      {a b c : Transfer} {op : Op} {ops : List Op} {r : Reply} {rs : List Reply}
      → Allowed a op r b
      → goes_on r ≡ true
      → Trace b ops rs c
      → Trace a (op ∷ ops) (r ∷ rs) c

module _ {W M : Type 0} (drv : Driver W M) (host : Host) where
  abbrev as_named : Result Bytes → Reply
  as_named (ok path) = named path
  as_named (raised e) = thrown e
  as_named (undefined f) = broken f

  abbrev as_accepted : Result Bool → Reply
  as_accepted (ok b) = accepted b
  as_accepted (raised e) = thrown e
  as_accepted (undefined f) = broken f

  abbrev pub do_op : Op → Server W M → Reply × Server W M
  do_op (start hint) s = (as_named (send_init drv host hint s).0, (send_init drv host hint s).1)
  do_op (block more n) s = (as_accepted (send_data more n s).0, (send_data more n s).1)

  abbrev pub chained : Reply → Server W M → List Reply × Server W M → List Reply × Server W M
  chained r s (rs, t) = if goes_on r then (r ∷ rs, t) else (r ∷ [], s)

  -- The calls on a server, up to the first after which nothing is defined.
  abbrev pub run_ops : List Op → Server W M → List Reply × Server W M
  run_ops [] s = ([], s)
  run_ops (op ∷ ops) s = let (r, t) = do_op op s in let rest = run_ops ops t in chained r t rest

-- How a server stands for a state.
abbrev pub Represents : {W M : Type 0} → Transfer → Server W M → Type 0
Represents idle s = s.file ≡ none
Represents (receiving path got next room) s = IsReceiving path got next room s
Represents (over path content) s = IsClosed path s × (s.disk.files path ≡ some content)
Represents given_up s = (path : Bytes) × IsClosed path s
Represents lost s = Unit {0}

-- `CloseFile` returns, and leaves the transfer alone.
pub record Closes {W M : Type 0} (drv : Driver W M) (s : Server W M) : Type 0 where
  pub result : Bool
  pub after : Server W M
  pub closes : drv.close_file s ≡ (ok result, after)
  pub disk : after.disk ≡ s.disk
  pub file : after.file ≡ s.file
  pub cur_block : after.cur_block ≡ s.cur_block
  pub cur_file : after.cur_file ≡ s.cur_file
