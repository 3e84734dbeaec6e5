-- ===== src/Server/Files.antt =====
-- `SendInit`, `SendData` and `DeleteTemp` of src/cncserver.cpp (the branch for unix).
pub mod Blocks
pub mod Starts
pub mod Rivals
pub mod Transfers
use cncremote.Prelude.{
  ℕ, ℤ, pos, ◌+ℤ◌, ◌+◌, c_string, Bool, true, false, Bytes, codes, List, [], ◌++◌, length, is_empty,
  leb, ltb, ◌==◌, not, pos_part, neg_part, if◌then◌else◌, Option, none, some, Exec, Result, ok,
  raised, undefined, pure, crash, continue, ◌>>=◌, ◌>>◌, buffer_overflow, ◌≡◌, append_assoc,
}
use cncremote.Comms.{file_block_size}
use cncremote.Server.{Server, Driver}
use cncremote.Server.Stdio.{Disk, fdopen, fwrite, fclose, remove}

-- What the system decides: the name that `mkstemp` makes of a template, none where it fails, and
-- whether `fdopen` succeeds. A made name is that of no file,
-- and as long as the template.
pub record Host : Type 0 where
  pub mkstemp : (Bytes → Option Bytes) → Bytes → Option Bytes
  pub fdopen_works : Bytes → Bool
  pub mkstemp_fresh :
      (files : Bytes → Option Bytes) (template path : Bytes)
      → mkstemp files template ≡ some path
      → files path ≡ none
  pub mkstemp_length :
      (files : Bytes → Option Bytes) (template path : Bytes)
      → mkstemp files template ≡ some path
      → length path ≡ length template

abbrev pub path_max : ℕ
path_max = 4096

abbrev pub template : Bytes → Bytes
template hint = codes "/tmp/CncRemote" ++ (c_string hint ++ codes "XXXXXX")

abbrev pub eqb_ℤ : ℤ → ℤ → Bool
eqb_ℤ a b = (pos_part a + neg_part b) == (pos_part b + neg_part a)

module _ {W M : Type 0} where
  abbrev pub on_disk : {A : Type 0} → Exec Disk A → Exec (Server W M) A
  on_disk m s = let (r, d) = m s.disk in (r, record s { disk = d })

  abbrev pub close_if_open : Option ℕ → Exec (Server W M) (Unit {0})
  close_if_open none = pure tt
  close_if_open (some h) = on_disk (fclose h)

  unfoldable pub delete_temp : Exec (Server W M) (Unit {0})
  unfolding fclose remove
  delete_temp s =
      (do
        close_if_open s.file
        if is_empty s.cur_file then pure tt else on_disk (remove s.cur_file))
        s

  abbrev restart : Exec (Server W M) (Unit {0})
  restart s = (ok tt, record s { cur_block = pos 0 })

  abbrev opened : Bytes → ℕ → Exec (Server W M) Bytes
  opened path h s = (ok path, record s { file = some h; cur_file = path })

  -- `m_file = fdopen(...)`, which is NULL where it fails.
  abbrev open_temp : Host → Option Bytes → Exec (Server W M) Bytes
  open_temp host none s = (ok [], s)
  open_temp host (some path) s =
      if host.fdopen_works path
      then (on_disk (fdopen path) >>= opened path) s
      else (ok [], record s { file = none })

  -- `sprintf` into `path[PATH_MAX]`, with the closing NUL.
  abbrev make_temp : Host → Bytes → Exec (Server W M) Bytes
  make_temp host hint s =
      if leb path_max (length (template hint))
      then (undefined buffer_overflow, s)
      else open_temp host (host.mkstemp s.disk.files (template hint)) s

  unfoldable pub send_init : Driver W M → Host → Bytes → Exec (Server W M) Bytes
  unfolding fdopen
  send_init d host hint = do d.close_file; delete_temp; restart; make_temp host hint

  abbrev next_block : ℤ → Exec (Server W M) (Unit {0})
  next_block block s = (ok tt, record s { cur_block = block +ℤ pos 1 })

  -- After the write: a short write closes the file and fails, the last block closes it.
  abbrev after_write : ℕ → Bytes → ℕ → Exec (Server W M) Bool
  after_write h more written =
      if not (written == length more)
      then (on_disk (fclose h) >> pure false)
      else if ltb (length more) file_block_size
      then (on_disk (fclose h) >> pure true)
      else pure true

  abbrev pub receive : Option ℕ → Bytes → ℤ → Exec (Server W M) Bool
  receive none more block s = (ok false, s)
  receive (some h) more block s =
      if not (eqb_ℤ block s.cur_block)
      then (on_disk (fclose h) >> pure false) s
      else (next_block block >> (on_disk (fwrite h more) >>= after_write h more)) s

  unfoldable pub send_data : Bytes → ℤ → Exec (Server W M) Bool
  unfolding fwrite fclose ◌+ℤ◌
  send_data more block s = receive s.file more block s
