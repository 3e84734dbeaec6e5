-- ===== src/Server/Files/Blocks.antt =====
-- What each block of a transfer does (`SendData`, src/cncserver.cpp).
use cncremote.Prelude.{
  ℕ, ℤ, pos, ◌+ℤ◌, ◌-◌, ◌≤◌, ◌<◌, ◌≡◌, ◌≢◌, ◌↔◌, true, false, Bytes, bytes_eq_refl, ◌++◌, none,
  some, ok, undefined, closed_stream, arith, length, get_elem?, get_elem?-set_self, take, take_all,
}
use cncremote.Comms.{file_block_size}
use cncremote.Server.{Server}
use cncremote.Server.Files.{send_data, receive, eqb_ℤ}

-- A transfer into the file `path` is under way: `got` is written, `block` is the next block's number,
-- and the disk has room for `room` bytes.
pub record IsReceiving {W M : Type 0} (path got : Bytes) (block : ℤ) (room : ℕ) (s : Server W M)
    : Type 0 where
  pub handle : ℕ
  pub file : s.file ≡ some handle
  pub stream : get_elem? s.disk.streams handle ≡ some (record { path = path; is_open = true })
  pub content : s.disk.files path ≡ some got
  pub turn : s.cur_block ≡ block
  pub space : s.disk.space ≡ room
  pub name : s.cur_file ≡ path

-- The server holds a `FILE *` that it has closed.
pub record IsClosed {W M : Type 0} (path : Bytes) (s : Server W M) : Type 0 where
  pub handle : ℕ
  pub file : s.file ≡ some handle
  pub stream : get_elem? s.disk.streams handle ≡ some (record { path = path; is_open = false })

pub eqb_ℤ_iff : (a b : ℤ) → (eqb_ℤ a b ≡ true) ↔ (a ≡ b)
eqb_ℤ_iff a b = ground arith

module _ {W M : Type 0} where
  -- While no file is open a block is refused and nothing changes.
  pub send_data_unopened :
      (more : Bytes) (block : ℤ) (s : Server W M)
      → s.file ≡ none
      → send_data more block s ≡ (ok false, s)
  unfolding send_data
  send_data_unopened more block s e = rw (e, receive)

  -- Once the server has closed its stream, each further block, whatever its number, uses the stream
  -- again: the behaviour is undefined.
  pub send_data_closed :
      (path more : Bytes) (block : ℤ) (s : Server W M)
      → IsClosed path s
      → (send_data more block s).0 ≡ undefined closed_stream
  unfolding send_data
  send_data_closed path more block s v = ground (arith, v.file, v.stream)

  module _ (path got more : Bytes) (block : ℤ) (room : ℕ) (s : Server W M)
      (v : IsReceiving path got block room s) where
    -- While a transfer is under way, a block that is full or longer, whose turn it is, and for which there is room, is
    -- accepted and appended to the file; the next block is awaited, with the room that is left.
    pub send_data_long :
        file_block_size ≤ length more
        → length more ≤ room
        → ((send_data more block s).0 ≡ ok true)
          × IsReceiving path
              (got ++ more)
              (block +ℤ pos 1)
              (room - length more)
              (send_data more block s).1
    unfolding send_data
    send_data_long long fits =
        let same = bytes_eq_refl path in
        let all = take_all (length more) more (omega arith) in
        (
          ground arith,
          record {
            handle = v.handle;
            file = ground arith;
            stream = ground arith;
            content = ground arith;
            turn = ground arith;
            space = ground arith;
            name = ground arith;
          },
        )

    -- While a transfer is under way, a full block whose turn it is, and for which there is room, is
    -- accepted and appended to the file; the next block is awaited, with the room that is left.
    pub send_data_full :
        length more ≡ file_block_size
        → length more ≤ room
        → ((send_data more block s).0 ≡ ok true)
          × IsReceiving path
              (got ++ more)
              (block +ℤ pos 1)
              (room - length more)
              (send_data more block s).1
    send_data_full full fits = send_data_long (omega arith) fits

    -- While a transfer is under way, a block that is not full, whose turn it is and for which there
    -- is room, is accepted and appended to the file. It ends the transfer: the server closes its
    -- stream, and keeps the pointer to it.
    pub send_data_last :
        length more < file_block_size
        → length more ≤ room
        → ((send_data more block s).0 ≡ ok true)
          × ((send_data more block s).1.disk.files path ≡ some (got ++ more))
          × ((send_data more block s).1.cur_file ≡ path)
          × IsClosed path (send_data more block s).1
    unfolding send_data
    send_data_last short fits =
        let same = bytes_eq_refl path in
        let all = take_all (length more) more (omega arith) in
        let shut =
          get_elem?-set_self s.disk.streams v.handle (record { path = path; is_open = true })
            (record { path = path; is_open = false }) v.stream in
        (
          ground arith,
          ground arith,
          ground arith,
          record { handle = v.handle; file = ground arith; stream = ground arith },
        )

    -- While a transfer is under way, a block whose turn it is not is refused: all files are left as
    -- they were, and the server closes its stream, and keeps the pointer to it.
    pub send_data_out_of_turn :
        (n : ℤ)
        → n ≢ block
        → ((send_data more n s).0 ≡ ok false)
          × ((send_data more n s).1.disk.files ≡ s.disk.files)
          × IsClosed path (send_data more n s).1
    unfolding send_data
    send_data_out_of_turn n why =
        let shut =
          get_elem?-set_self s.disk.streams v.handle (record { path = path; is_open = true })
            (record { path = path; is_open = false }) v.stream in
        let turn = eqb_ℤ_iff n s.cur_block in
        (
          ground arith,
          ground arith,
          record { handle = v.handle; file = ground arith; stream = ground arith },
        )

    -- While a transfer is under way, a block whose turn it is, and that the disk has no room for, is
    -- refused: the part that fits is appended to the file, and the server closes its stream, and
    -- keeps the pointer to it.
    pub send_data_no_room :
        room < length more
        → ((send_data more block s).0 ≡ ok false)
          × ((send_data more block s).1.disk.files path ≡ some (got ++ take room more))
          × IsClosed path (send_data more block s).1
    unfolding send_data
    send_data_no_room full =
        let same = bytes_eq_refl path in
        let shut =
          get_elem?-set_self s.disk.streams v.handle (record { path = path; is_open = true })
            (record { path = path; is_open = false }) v.stream in
        (
          ground arith,
          ground arith,
          record { handle = v.handle; file = ground arith; stream = ground arith },
        )
