-- ===== src/Server/Stdio.antt =====
-- The C file functions that src/cncserver.cpp calls, over the files and the streams of a process. A
-- `FILE *` is an index into the streams ever opened; it stays the same value after `fclose`, and using
-- it then is undefined. Writes reach the file at once, and stop when the disk is full.
use cncremote.Prelude.{
  ℕ, ◌-◌, min, Bool, true, false, Bytes, bytes_eq, List, [], ◌∷◌, ◌++◌, Option, none, some, length,
  get_elem?, set, take, Exec, ok, undefined, closed_stream, if◌then◌else◌,
}

pub record Stream : Type 0 where
  pub path : Bytes
  pub is_open : Bool

pub record Disk : Type 0 where
  pub files : Bytes → Option Bytes
  pub streams : List Stream
  pub space : ℕ

abbrev pub update : (Bytes → Option Bytes) → Bytes → Option Bytes → Bytes → Option Bytes
update f p v q = if bytes_eq p q then v else f q

abbrev pub append_to : Bytes → Option Bytes → Option Bytes
append_to more none = none
append_to more (some old) = some (old ++ more)

-- `fdopen` of the descriptor that `mkstemp` returned for a new, empty file.
unfoldable pub fdopen : Bytes → Exec Disk ℕ
fdopen path d = (
  ok (length d.streams),
  record d {
    files = update d.files path (some []);
    streams = d.streams ++ record { path = path; is_open = true } ∷ [];
  },
)

write_stream : Option Stream → Bytes → Exec Disk ℕ
write_stream none more d = (undefined closed_stream, d)
write_stream (some s) more d =
    if s.is_open
    then (
      ok (min (length more) d.space),
      record d {
        files =
            update d.files s.path
              (append_to (take (min (length more) d.space) more) (d.files s.path));
        space = d.space - min (length more) d.space;
      },
    )
    else (undefined closed_stream, d)

-- The bytes written: fewer than asked when the disk is full.
unfoldable pub fwrite : ℕ → Bytes → Exec Disk ℕ
unfolding write_stream
fwrite h more d = write_stream (get_elem? d.streams h) more d

close_stream : ℕ → Option Stream → Exec Disk (Unit {0})
close_stream h none d = (undefined closed_stream, d)
close_stream h (some s) d =
    if s.is_open
    then (ok tt, record d { streams = set d.streams h (record s { is_open = false }) })
    else (undefined closed_stream, d)

unfoldable pub fclose : ℕ → Exec Disk (Unit {0})
unfolding close_stream
fclose h d = close_stream h (get_elem? d.streams h) d

unfoldable pub remove : Bytes → Exec Disk (Unit {0})
remove path d = (ok tt, record d { files = update d.files path none })
