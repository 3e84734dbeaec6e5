-- ===== src/Server/Files/Starts.antt =====
-- How a transfer starts (`SendInit` and `DeleteTemp`, src/cncserver.cpp).
use cncremote.Prelude.{
  get_elem?, get_elem?-append_left, get_elem?-inside, sym, subst, ◌∷◌, ℕ, ℤ, pos, ◌≤◌, ◌<◌, ◌≡◌,
  refl, ap, ◌∙◌, Bool, true, false, Bytes, bytes_eq_refl, [], none, some, ok, undefined,
  closed_stream, buffer_overflow, arith, length, set, get_elem?-set_self, get_elem?-append_last,
  if◌then◌else◌, is_empty,
}
use cncremote.Server.{Server, Driver}
use cncremote.Server.Stdio.{Disk, Stream, update, fdopen}
use cncremote.Server.Files.{Host, path_max, template, send_init, delete_temp, make_temp, open_temp}
use cncremote.Server.Files.Blocks.{IsReceiving, IsClosed}

-- No transfer was ever started, or one is under way.
pub data IsReady {W M : Type 0} (s : Server W M) : Type 0 where
  never : s.file ≡ none → IsReady s
  under_way :
      {path got : Bytes} {block : ℤ} {room : ℕ} → IsReceiving path got block room s → IsReady s

abbrev pub sweep : Bytes → Disk → Disk
sweep path d = if is_empty path then d else record d { files = update d.files path none }

-- What `DeleteTemp` leaves: the temporary file is gone, and the stream is closed if it was open.
record IsCleared {W M : Type 0} (s t : Server W M) : Type 0 where
  kept : t ≡ record s { disk = t.disk }
  space : t.disk.space ≡ s.disk.space
  files : t.disk.files ≡ (sweep s.cur_file s.disk).files
  shut : (h : ℕ) → s.file ≡ some h → (p : Bytes) × IsClosed p t

module _ {W M : Type 0} where
  delete_temp_ready :
      (s : Server W M) → IsReady s → (t : Server W M) × (delete_temp s ≡ (ok tt, t)) × IsCleared s t
  unfolding delete_temp
  delete_temp_ready s (never f) = (
    swept,
    ground arith,
    record { kept = ground arith; space = ground arith; files = ground arith; shut = λ h e. cc },
  )
    where
      swept : Server W M
      swept = record s { disk = sweep s.cur_file s.disk }
  delete_temp_ready s (under_way {path} v) =
      let shut = get_elem?-set_self s.disk.streams v.handle (still true) (still false) v.stream in
      (
        swept,
        ground arith,
        record {
          kept = ground arith;
          space = ground arith;
          files = ground arith;
          shut = λ h e. (path, record { handle = v.handle; file = v.file; stream = ground arith });
        },
      )
    where
      still : Bool → Stream
      still is_open = record { path = path; is_open = is_open }

      swept : Server W M
      swept = record s {
        disk =
            sweep s.cur_file
              (record (s.disk) { streams = set s.disk.streams v.handle (still false) });
      }

module _ {W M : Type 0} (drv : Driver W M) (host : Host) (hint : Bytes) (s t : Server W M)
    {b : Bool} where
  -- If `CloseFile` returns and the server holds a stream that it has closed, the start of the next
  -- transfer closes the stream again: the behaviour is undefined.
  pub send_init_closed :
      (path : Bytes)
      → drv.close_file s ≡ (ok b, t)
      → IsClosed path t
      → (send_init drv host hint s).0 ≡ undefined closed_stream
  unfolding send_init delete_temp
  send_init_closed path e v = rw e (ground (arith, v.file, v.stream))

  module _ (closes : drv.close_file s ≡ (ok b, t)) (ready : IsReady t) where
    init_after_clear :
        (u : Server W M)
        → delete_temp t ≡ (ok tt, u)
        → send_init drv host hint s ≡ make_temp host hint (record u { cur_block = pos 0 })
    unfolding send_init
    init_after_clear u e = rw (closes, e)

    -- If `CloseFile` returns and the server holds no stream that it has closed, a hint that makes a
    -- path of PATH_MAX bytes or more overruns the array that the path is printed into, whatever the
    -- host does.
    pub send_init_long :
        path_max ≤ length (template hint)
        → (send_init drv host hint s).0 ≡ undefined buffer_overflow
    send_init_long long =
        let (u, e, _) = delete_temp_ready t ready in rw (init_after_clear u e) (ground arith)

    make_temp_short :
        (u : Server W M)
        → length (template hint) < path_max
        → make_temp host hint u ≡ open_temp host (host.mkstemp u.disk.files (template hint)) u
    make_temp_short u short = ground arith

    module _ (short : length (template hint) < path_max) where
      -- If `CloseFile` returns, the server holds no stream that it has closed, the path fits into
      -- PATH_MAX bytes, and the host makes the file and opens it, then the path of the file is
      -- returned, and a transfer into it is under way: it is empty, block 0 is awaited, and the room
      -- is that of the disk.
      pub send_init_starts :
          (path : Bytes)
          → host.mkstemp (sweep t.cur_file t.disk).files (template hint) ≡ some path
          → host.fdopen_works path ≡ true
          → ((send_init drv host hint s).0 ≡ ok path)
            × IsReceiving path [] (pos 0) t.disk.space (send_init drv host hint s).1
      unfolding fdopen
      send_init_starts path made works =
          let (u, e, cleared) = delete_temp_ready t ready in
          let n : ℕ = length u.disk.streams in
          rw
            (
              init_after_clear u e,
              make_temp_short (record u { cur_block = pos 0 }) short,
              cleared.files,
              made,
              works,
            )
            (
              refl,
              record {
                handle = n;
                file = refl;
                stream =
                    get_elem?-append_last u.disk.streams (record { path = path; is_open = true });
                content = ground (arith, bytes_eq_refl path);
                turn = refl;
                space = cleared.space;
                name = refl;
              },
            )

      -- The stream that the server held is closed.
      pub send_init-shuts :
          (path : Bytes) (h : ℕ)
          → host.mkstemp (sweep t.cur_file t.disk).files (template hint) ≡ some path
          → host.fdopen_works path ≡ true
          → t.file ≡ some h
          → (p : Bytes) × (get_elem? (send_init drv host hint s).1.disk.streams h
              ≡ some (record { path = p; is_open = false }))
      unfolding fdopen
      send_init-shuts path h made works held =
          let (u, e, cleared) = delete_temp_ready t ready in
          let (p, c) = cleared.shut h held in
          let both : some c.handle ≡ some h = sym c.file ∙ ap (λ v. v.file) cleared.kept ∙ held in
          let same : c.handle ≡ h = cc in
          let closed : get_elem? u.disk.streams h ≡ some (record { path = p; is_open = false }) =
            subst (λ i. get_elem? u.disk.streams i ≡ some (record { path = p; is_open = false }))
              same c.stream in
          rw
            (
              init_after_clear u e,
              make_temp_short (record u { cur_block = pos 0 }) short,
              cleared.files,
              made,
              works,
            )
            (
              p,
              get_elem?-append_left u.disk.streams (record { path = path; is_open = true } ∷ []) h
                    (get_elem?-inside u.disk.streams h closed)
                  ∙ closed,
            )

      -- If `CloseFile` returns while a transfer is under way, and the path fits into PATH_MAX bytes
      -- but the host makes no file, then the empty path is returned; that transfer is over, and the
      -- server keeps the pointer to the stream that it closed.
      pub send_init_failed :
          (h : ℕ)
          → t.file ≡ some h
          → host.mkstemp (sweep t.cur_file t.disk).files (template hint) ≡ none
          → ((send_init drv host hint s).0 ≡ ok [])
            × (p : Bytes) × IsClosed p (send_init drv host hint s).1
      send_init_failed h f unmade =
          let (u, e, cleared) = delete_temp_ready t ready in
          let (p, c) = cleared.shut h f in
          rw
            (
              init_after_clear u e,
              make_temp_short (record u { cur_block = pos 0 }) short,
              cleared.files,
              unmade,
            )
            (refl, p, record { handle = c.handle; file = c.file; stream = c.stream })

      -- If `CloseFile` returns while no transfer is under way, and the path fits into PATH_MAX bytes but the
      -- host makes no file, then the empty path is returned, and still none is under way.
      pub send_init_unmade :
          t.file ≡ none
          → host.mkstemp (sweep t.cur_file t.disk).files (template hint) ≡ none
          → ((send_init drv host hint s).0 ≡ ok []) × ((send_init drv host hint s).1.file ≡ none)
      send_init_unmade free unmade =
          let (u, e, cleared) = delete_temp_ready t ready in
          rw
            (
              init_after_clear u e,
              make_temp_short (record u { cur_block = pos 0 }) short,
              cleared.files,
              unmade,
            )
            (refl, ap (λ v. v.file) cleared.kept ∙ free)

      -- If the host makes the file but cannot open it, the empty path is returned, and no transfer is
      -- under way.
      pub send_init_unopened :
          (path : Bytes)
          → host.mkstemp (sweep t.cur_file t.disk).files (template hint) ≡ some path
          → host.fdopen_works path ≡ false
          → ((send_init drv host hint s).0 ≡ ok []) × ((send_init drv host hint s).1.file ≡ none)
      send_init_unopened path made fails =
          let (u, e, cleared) = delete_temp_ready t ready in
          rw
            (
              init_after_clear u e,
              make_temp_short (record u { cur_block = pos 0 }) short,
              cleared.files,
              made,
              fails,
            )
            (refl, refl)
