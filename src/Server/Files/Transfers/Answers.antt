-- ===== src/Server/Files/Transfers/Answers.antt =====
-- Each single call of `SendInit` and `SendData` (src/cncserver.cpp) keeps what the transfer of files promises.
use cncremote.Prelude.{
  ℕ, ℤ, pos, ◌+ℤ◌, ◌-◌, ◌<◌, ◌≡◌, ◌≢◌, refl, sym, ap, subst, ◌∙◌, Bool, true, false, Bytes, [],
  ◌++◌, length, take, Option, none, Result, ok, undefined, buffer_overflow, closed_stream, leb, ltb,
  arith, Bool-cases, Option-cases, inl, inr,
}
use cncremote.Comms.{file_block_size}
use cncremote.Server.{Server, Driver}
use cncremote.Server.Files.{Host, send_init, send_data, template, path_max, eqb_ℤ}
use cncremote.Server.Files.Blocks.{
  IsReceiving, IsClosed, eqb_ℤ_iff, send_data_unopened, send_data_closed, send_data_long,
  send_data_last, send_data_out_of_turn, send_data_no_room,
}
use cncremote.Server.Files.Starts.{
  IsReady, never, under_way, sweep, send_init_closed, send_init_long, send_init_starts,
  send_init_failed, send_init_unmade, send_init_unopened,
}
use cncremote.Server.Files.Transfers.{
  Transfer, idle, receiving, over, given_up, lost, Op, start, block, Reply, is_free, Allowed, opens,
  opens_none, gives_up, overruns, uses_closed, ignores, appends, completes, refuses, runs_full,
  do_op, as_named, as_accepted, Represents, Closes,
}

abbrev pub is_known : Transfer → Bool
is_known lost = false
is_known _ = true

IsReceiving-kept :
    {W M : Type 0} {path got : Bytes} {next : ℤ} {room : ℕ} (s t : Server W M)
    → t.disk ≡ s.disk
    → t.file ≡ s.file
    → t.cur_block ≡ s.cur_block
    → t.cur_file ≡ s.cur_file
    → IsReceiving path got next room s
    → IsReceiving path got next room t
IsReceiving-kept s t disk file turn name v = record {
  handle = v.handle;
  file = file ∙ v.file;
  stream = rw disk v.stream;
  content = rw disk v.content;
  turn = turn ∙ v.turn;
  space = rw disk v.space;
  name = name ∙ v.name;
}

module _ {W M : Type 0} (drv : Driver W M) (host : Host) where
  -- The reply is allowed, and the server stands for the state after it.
  abbrev pub Answers : Transfer → Op → Reply × Server W M → Type 0
  Answers a op (r, s) = (b : Transfer) × Allowed a op r b × Represents b s

  Answers-block :
      (a b : Transfer) (more : Bytes) (n : ℤ) (s : Server W M) (r : Result Bool)
      → (send_data more n s).0 ≡ r
      → Allowed a (block more n) (as_accepted drv host r) b
      → Represents b (send_data more n s).1
      → Answers a (block more n) (do_op drv host (block more n) s)
  Answers-block a b more n s r e allowed v = (b, rw e allowed, v)

  Answers-start :
      (a b : Transfer) (hint : Bytes) (s : Server W M) (r : Result Bytes)
      → (send_init drv host hint s).0 ≡ r
      → Allowed a (start hint) (as_named drv host r) b
      → Represents b (send_init drv host hint s).1
      → Answers a (start hint) (do_op drv host (start hint) s)
  Answers-start a b hint s r e allowed v = (b, rw e allowed, v)

  -- A block whose turn it is.
  block_in_turn :
      (path got more : Bytes) (n : ℤ) (room : ℕ) (s : Server W M)
      → IsReceiving path got n room s
      → Answers (receiving path got n room) (block more n) (do_op drv host (block more n) s)
  block_in_turn path got more n room s v =
      let a = receiving path got n room in
      elim (Bool-cases (leb (length more) room)) [
        | inr full ↦
            (let (reply, content, shut) =
                send_data_no_room path got more n room s v (ground (arith, full)) in
              Answers-block a (over path (got ++ take room more)) more n s (ok false) reply
                (runs_full (ground (arith, full))) (shut, content))
        | inl fits ↦ elim (Bool-cases (ltb (length more) file_block_size)) [
          | inl short ↦
              (let (reply, content, name, shut) =
                  send_data_last path got more n room s v (ground (arith, short))
                    (ground (arith, fits)) in
                Answers-block a (over path (got ++ more)) more n s (ok true) reply
                  (completes (ground (arith, short)) (ground (arith, fits))) (shut, content))
          | inr long ↦
              (let (reply, went) =
                  send_data_long path got more n room s v (ground (arith, long))
                    (ground (arith, fits)) in
                Answers-block a (receiving path (got ++ more) (n +ℤ pos 1) (room - length more))
                  more n s (ok true) reply (appends (ground (arith, long)) (ground (arith, fits)))
                  went)
        ]
      ]

  block-receiving :
      (path got more : Bytes) (next n : ℤ) (room : ℕ) (s : Server W M)
      → IsReceiving path got next room s
      → Answers (receiving path got next room) (block more n) (do_op drv host (block more n) s)
  block-receiving path got more next n room s v =
      let a = receiving path got next room in
      elim (Bool-cases (eqb_ℤ n next)) [
        | inr e ↦
            (let other : n ≢ next = λ same. absurd (let f = (eqb_ℤ_iff n next).1 same in cc) in
              let (reply, files, shut) =
                send_data_out_of_turn path got more next room s v n other in
              Answers-block a (over path got) more n s (ok false) reply (refuses other)
                (shut, ap (λ (f : Bytes → Option Bytes). f path) files ∙ v.content))
        | inl e ↦
            subst (λ (k : ℤ). Answers a (block more k) (do_op drv host (block more k) s))
              (sym ((eqb_ℤ_iff n next).0 e)) (block_in_turn path got more next room s v)
      ]

  abbrev made_name : Bytes → Server W M → Option Bytes
  made_name hint t = host.mkstemp (sweep t.cur_file t.disk).files (template hint)

  -- `SendInit` while none of the server's streams is closed, but for the case that no file is made.
  start_ready :
      (a : Transfer) (hint : Bytes) (s : Server W M) (c : Closes drv s)
      → is_free a ≡ true
      → IsReady c.after
      → (length (template hint) < path_max
          → made_name hint c.after ≡ none
          → Answers a (start hint) (do_op drv host (start hint) s))
      → Answers a (start hint) (do_op drv host (start hint) s)
  start_ready a hint s c free ready unmade =
      elim (Bool-cases (ltb (length (template hint)) path_max)) [
        | inr long ↦
            Answers-start a lost hint s (undefined buffer_overflow)
              (send_init_long drv host hint s c.after {b = c.result} c.closes ready
                (ground (arith, long)))
              (overruns free (ground (arith, long))) tt
        | inl few ↦
            (let short : length (template hint) < path_max = ground (arith, few) in
              elim (Option-cases (made_name hint c.after)) [
                | inl made ↦ unmade short made
                | inr (path, made) ↦ elim (Bool-cases (host.fdopen_works path)) [
                  | inl works ↦
                      (let (reply, went) =
                          send_init_starts drv host hint s c.after {b = c.result} c.closes ready
                            short path made works in
                        Answers-start a (receiving path [] (pos 0) (c.after).disk.space) hint s
                          (ok path) reply (opens free short) went)
                  | inr fails ↦
                      (let (reply, went) =
                          send_init_unopened drv host hint s c.after {b = c.result} c.closes ready
                            short path made fails in
                        Answers-start a idle hint s (ok []) reply (opens_none free) went)
                ]
              ])
      ]

  start-idle :
      (hint : Bytes) (s : Server W M) (c : Closes drv s)
      → s.file ≡ none
      → Answers idle (start hint) (do_op drv host (start hint) s)
  start-idle hint s c e =
      let free : (c.after).file ≡ none = c.file ∙ e in
      start_ready idle hint s c refl (never free) λ short made.
        let (reply, went) =
          send_init_unmade drv host hint s c.after {b = c.result} c.closes (never free) short free
            made in
        Answers-start idle idle hint s (ok []) reply (opens_none refl) went

  start-receiving :
      (path got hint : Bytes) (next : ℤ) (room : ℕ) (s : Server W M) (c : Closes drv s)
      → IsReceiving path got next room s
      → Answers (receiving path got next room) (start hint) (do_op drv host (start hint) s)
  start-receiving path got hint next room s c v =
      let u = IsReceiving-kept s c.after c.disk c.file c.cur_block c.cur_file v in
      let a = receiving path got next room in
      start_ready a hint s c refl (under_way u) λ short made.
        let (reply, p, went) =
          send_init_failed drv host hint s c.after {b = c.result} c.closes (under_way u) short
            u.handle u.file made in
        Answers-start a given_up hint s (ok []) reply gives_up (p, went)

  start-closed :
      (a : Transfer) (path hint : Bytes) (s : Server W M) (c : Closes drv s)
      → is_free a ≡ false
      → IsClosed path s
      → Answers a (start hint) (do_op drv host (start hint) s)
  start-closed a path hint s c shut v =
      Answers-start a lost hint s (undefined closed_stream)
        (send_init_closed drv host hint s c.after {b = c.result} path c.closes
          (record { handle = v.handle; file = c.file ∙ v.file; stream = rw (c.disk) (v.stream) }))
        (uses_closed shut) tt

  block-closed :
      (a : Transfer) (path more : Bytes) (n : ℤ) (s : Server W M)
      → is_free a ≡ false
      → IsClosed path s
      → Answers a (block more n) (do_op drv host (block more n) s)
  block-closed a path more n s shut v =
      Answers-block a lost more n s (undefined closed_stream) (send_data_closed path more n s v)
        (uses_closed shut) tt

  pub do_op-Answers :
      (a : Transfer) (op : Op) (s : Server W M)
      → Closes drv s
      → is_known a ≡ true
      → Represents a s
      → Answers a op (do_op drv host op s)
  do_op-Answers idle (start hint) s c k v = start-idle hint s c v
  do_op-Answers idle (block more n) s c k v =
      let same = send_data_unopened more n s v in
      Answers-block idle idle more n s (ok false) (ap (λ r. r.0) same) ignores
        (ap (λ r. r.1.file) same ∙ v)
  do_op-Answers (receiving path got next room) (start hint) s c k v =
      start-receiving path got hint next room s c v
  do_op-Answers (receiving path got next room) (block more n) s c k v =
      block-receiving path got more next n room s v
  do_op-Answers (over path content) (start hint) s c k v =
      start-closed (over path content) path hint s c refl v.0
  do_op-Answers (over path content) (block more n) s c k v =
      block-closed (over path content) path more n s refl v.0
  do_op-Answers given_up (start hint) s c k v = start-closed given_up v.0 hint s c refl v.1
  do_op-Answers given_up (block more n) s c k v = block-closed given_up v.0 more n s refl v.1
  do_op-Answers lost op s c k v = absurd cc
