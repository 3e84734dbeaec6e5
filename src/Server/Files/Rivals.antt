-- ===== src/Server/Files/Rivals.antt =====
-- Two clients that send a file at the same time (`SendInit` and `SendData`, src/cncserver.cpp): the server has one
-- transfer.
use cncremote.Prelude.{
  ℕ, ℤ, pos, ◌+ℤ◌, ◌≡◌, ◌<◌, ◌≤◌, Bool, true, false, Bytes, [], some, ok, undefined, closed_stream,
  length, ◌-◌,
}
use cncremote.Comms.{file_block_size}
use cncremote.Server.{Server, Driver}
use cncremote.Server.Files.{Host, send_init, send_data, template, path_max}
use cncremote.Server.Files.Blocks.{
  IsReceiving, send_data_full, send_data_out_of_turn, send_data_closed,
}
use cncremote.Server.Files.Starts.{sweep, under_way, send_init_starts}

module _ {W M : Type 0} (drv : Driver W M) (host : Host) (hint theirs ours got : Bytes) (next : ℤ)
    (room : ℕ) (s t : Server W M) {b : Bool} (closes : drv.close_file s ≡ (ok b, t))
    (busy : IsReceiving ours got next room t) (short : length (template hint) < path_max)
    (made : host.mkstemp (sweep t.cur_file t.disk).files (template hint) ≡ some theirs)
    (works : host.fdopen_works theirs ≡ true) where
  -- The server once the second client has called `SendInit`.
  abbrev pub taken : Server W M
  taken = (send_init drv host hint s).1

  taken-IsReceiving : IsReceiving theirs [] (pos 0) t.disk.space taken
  taken-IsReceiving =
      (send_init_starts drv host hint s t closes (under_way busy) short theirs made works).1

  -- A second client that calls `SendInit` while a transfer is under way is given a file of its own. If the first client
  -- sends its first block only now, and that is full and fits, the block is accepted, but into the file of the second;
  -- the second client's first block is refused, and every block after that uses a closed stream.
  rivals-mixed :
      (mine other more : Bytes) (block : ℤ)
      → length mine ≡ file_block_size
      → length mine ≤ t.disk.space
      → let first = send_data mine (pos 0) taken in
        let second = send_data other (pos 0) first.1 in
        ((send_init drv host hint s).0 ≡ ok theirs)
        × (first.0 ≡ ok true)
        × (first.1.disk.files theirs ≡ some mine)
        × (second.0 ≡ ok false)
        × ((send_data more block second.1).0 ≡ undefined closed_stream)
  unfolding ◌+ℤ◌
  rivals-mixed mine other more block full fits =
      let (accepted, went) =
        send_data_full theirs [] mine (pos 0) t.disk.space taken taken-IsReceiving full fits in
      let (refused, kept, shut) =
        send_data_out_of_turn theirs mine other (pos 0 +ℤ pos 1) (t.disk.space - length mine)
          (send_data mine (pos 0) taken).1 went (pos 0) (λ e. absurd cc) in
      (
        (send_init_starts drv host hint s t closes (under_way busy) short theirs made works).0,
        accepted,
        went.content,
        refused,
        send_data_closed theirs more block
            (send_data other (pos 0) (send_data mine (pos 0) taken).1).1 shut,
      )
