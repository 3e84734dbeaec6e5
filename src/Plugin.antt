-- ===== src/Plugin.antt =====
-- The plugin for LinuxCNC (drivers/linuxcnc/plugin/main.cpp), which an application loads to start the server, with the
-- `Connect` and `Ping` of its client (src/cncclient.cpp). The child process, the clock and the socket are parameters.
pub mod Laws
use cncremote.Prelude.{
  ℕ, zero as nat_zero, suc, ℤ, pos, negsuc, ◌+◌, ◌-◌, ◌*◌, ◌/◌, ◌^◌, ◌==◌, leb, ltb, Bool, true,
  false, not, ◌&&◌, ◌||◌, Bytes, codes, List, [], ◌∷◌, ◌++◌, Option, none, some, Result, Exec, ok,
  raised, undefined, continue, buffer_overflow, endless, length, is_empty, if◌then◌else◌,
}
use cncremote.Comms.Wire.{Wire}
use cncremote.Client.Calls.{Delivery, new_call, call}
use cncremote.Client.Session.{timeout}

-- What a call of the client's does in a `try` block.
pub data Answer : Type 0 where
  answers : Bool → Answer
  throws : Bytes → Answer

-- The world outside in a state `X`: a pipe from a shell command, if one can be opened; whether its end was
-- met; a line of it, in at most 254 bytes; waiting for the child, which gives its status; making a socket and
-- connecting it, and what comes of a request for "Version" on it; the clock, with its ticks in a second, and a sleep of
-- one millisecond.
pub record Shell (X Any : Type 0) : Type 0 where
  pub popen : Bytes → X → Bool × X
  pub feof : X → Bool
  pub fgets : X → Option Bytes × X
  pub pclose : X → ℤ × X
  pub kill : X → X
  pub connect : X → X
  pub version : X → Delivery Any × X
  pub now : X → ℕ
  pub later : X → X
  pub second : ℕ

-- The global variables: `exec` unless it is NULL, and what was handed to `LogFunc`.
pub record Plugin (X : Type 0) : Type 0 where
  pub server_path : Bytes
  pub exec : Bool
  pub exec_ret : ℤ
  pub log : List Bytes
  pub outside : X

-- `buf[l] <= 32` for a `char` that is signed.
abbrev is_blank : ℕ → Bool
is_blank c = leb c 32 || leb 128 c

-- A line without the blanks at its end; the first byte is kept.
abbrev trim_end : Bytes → Bytes
trim_end [] = []
trim_end (c ∷ cs) = let rest = trim_end cs in if is_empty rest && is_blank c then [] else c ∷ rest

abbrev trimmed : Bytes → Bytes
trimmed [] = []
trimmed (c ∷ cs) = c ∷ trim_end cs

abbrev pub is_zero : ℤ → Bool
is_zero (pos n) = n == 0
is_zero (negsuc n) = false

-- `Call` leaves nothing undefined.
abbrev answered : {A : Type 0} → Bool → Result A → Answer
answered took (ok r) = answers took
answered took (raised what) = throws what
answered took (undefined f) = throws []

module _ {X W : Type 0} (w : Wire W) (sh : Shell X w.Any) where
  abbrev log_text : Bytes → Plugin X → Plugin X
  log_text text p = record p { log = log ++ text ∷ [] }
    where
      open p use {log}

  abbrev pub with_outside : X → Plugin X → Plugin X
  with_outside x p = record p { outside = x }

  abbrev ended : ℤ × X → Plugin X → Plugin X
  ended (ret, x) p = record p { exec = false; exec_ret = ret; outside = x }

  abbrev heard : Option Bytes × X → Plugin X → Bool × Plugin X
  heard (none, x) p = (false, with_outside x p)
  heard (some line, x) p = (true, log_text (trimmed line) (with_outside x p))

  -- `ExecPoll`
  unfoldable pub exec_poll : Plugin X → Bool × Plugin X
  exec_poll p =
      if not p.exec
      then (false, p)
      else if sh.feof p.outside
      then (false, ended (sh.pclose p.outside) p)
      else heard (sh.fgets p.outside) p

  -- `msgBuf` has 256 bytes.
  abbrev started : Bytes → Bool × X → Exec (Plugin X) Bool
  started cmd (true, x) p = (ok true, record p { exec = true; outside = x })
  started cmd (false, x) p =
      let q = record p { exec = false; outside = x } in
      let text = codes "Failed to execute " ++ cmd in
      if leb 256 (length text) then (undefined buffer_overflow, q) else (ok false, log_text text q)

  -- `ExecStart`
  unfoldable pub exec_start : Bytes → Exec (Plugin X) Bool
  exec_start cmd p = started cmd (sh.popen cmd p.outside) (record p { exec_ret = negsuc 0 })

  -- `Client::Connect` of a client without plugins, for the index 0.
  abbrev pub connect : Plugin X → Answer × Plugin X
  connect p = (answers true, with_outside (sh.connect p.outside) p)

  abbrev microseconds : ℕ → ℕ
  microseconds ticks = ticks * 10 ^ 6 / sh.second

  -- `Client::Ping`, which does not use its argument, as the condition of an `if`: the time that the call took.
  abbrev pub ping : ℕ → Plugin X → Answer × Plugin X
  ping ms p =
      let (delivery, x) = sh.version p.outside in
      (
        answered (not (microseconds (sh.now x - sh.now p.outside) == 0))
            (call w timeout delivery new_call).0,
        with_outside x p,
      )

  -- `if(connected && client.Ping(ms))` in a `try` block.
  abbrev ping_if : ℕ → Answer × Plugin X → Answer × Plugin X
  ping_if ms (answers true, p) = ping ms p
  ping_if ms (answers false, p) = (answers false, p)
  ping_if ms (throws what, p) = (throws what, p)

  abbrev pub slept : Plugin X → Plugin X
  slept p = with_outside (sh.later p.outside) p

  -- `while(ExecPoll()){};`, for a number of rounds; `none` if it goes on.
  unfoldable pub poll_all : ℕ → Plugin X → Option (Plugin X)
  unfolding exec_poll
  poll_all nat_zero p = none
  poll_all (suc rounds) p = elim (exec_poll p).0 [
    | true ↦ poll_all rounds (exec_poll p).1
    | false ↦ some (exec_poll p).1
  ]

  -- `if(client.Connect(…)) { client.Ping(250); return true; }` in a `try` block: whether it returns.
  abbrev pub tries : Plugin X → Bool × Plugin X
  tries p = after_connect (connect p)
    where
      after_ping : Answer × Plugin X → Bool × Plugin X
      after_ping (answers b, q) = (true, q)
      after_ping (throws what, q) = (false, q)

      after_connect : Answer × Plugin X → Bool × Plugin X
      after_connect (answers true, q) = after_ping (ping 250 q)
      after_connect (answers false, q) = (false, q)
      after_connect (throws what, q) = (false, q)

  abbrev pub tries_next : Option (Plugin X) → Option (Bool × Plugin X)
  tries_next none = none
  tries_next (some q) = some (tries (slept q))

  -- The loop that waits for the server until the time `t`, in which `rounds` bounds both loops.
  unfoldable pub wait_server : ℕ → ℕ → ℕ → Plugin X → Option (Bool × Plugin X)
  unfolding poll_all
  wait_server nat_zero rounds t p = none
  wait_server (suc fuel) rounds t p = elim (ltb t (sh.now p.outside) && p.exec) [
    | false ↦ some (false, p)
    | true ↦ elim (tries_next (poll_all rounds p)) [
      | none ↦ none
      | some (true, q) ↦ some (true, q)
      | some (false, q) ↦ wait_server fuel rounds t q
    ]
  ]

  abbrev pub waited : Option (Bool × Plugin X) → Exec (Plugin X) Bool
  waited none p = (undefined endless, p)
  waited (some (b, q)) p = (ok b, q)

  abbrev wait_for : ℕ → Bool → Exec (Plugin X) Bool
  wait_for rounds false p = (ok false, log_text (codes "Failed to start server") p)
  wait_for rounds true p = waited (wait_server rounds rounds (sh.now p.outside + sh.second) p) p

  -- `Start`, from the test for a server to start.
  abbrev launch : ℕ → Exec (Plugin X) Bool
  launch rounds p =
      if is_empty p.server_path
      then (ok false, log_text (codes "No server available") p)
      else continue (exec_start p.server_path p) (wait_for rounds)

  abbrev unless_pinged : ℕ → Answer × Plugin X → Result Bool × Plugin X
  unless_pinged rounds (answers true, p) = (ok true, p)
  unless_pinged rounds (answers false, p) = launch rounds p
  unless_pinged rounds (throws what, p) = launch rounds p

  abbrev unless_running : ℕ → Answer × Plugin X → Result Bool × Plugin X
  unless_running rounds (answers true, p) = unless_pinged rounds (ping 100 p)
  unless_running rounds (answers false, p) = (ok false, p)
  unless_running rounds (throws what, p) = launch rounds p

  -- `Start`, with its loops followed for a number of rounds.
  unfoldable pub start : ℕ → Exec (Plugin X) Bool
  unfolding wait_server exec_start call new_call
  start rounds p = unless_running rounds (connect p)

  -- `while(exec) { ExecPoll(); usleep(1000); }`
  unfoldable pub run_exec : ℕ → Plugin X → Option (Plugin X)
  unfolding exec_poll
  run_exec nat_zero p = none
  run_exec (suc rounds) p =
      let rest = run_exec rounds (slept (exec_poll p).1) in if p.exec then rest else some p

  abbrev script : Bytes → Bytes
  script dir = dir ++ codes "linuxcncserver/cncremote.sh -c 2>&1"

  abbrev server_command : Bytes → Bytes
  server_command dir = dir ++ codes "linuxcncserver/cncremote.sh 2>&1"

  -- What `ControlExists` returns, by the status of the script.
  abbrev pub judged : Bytes → Option (Plugin X) → Exec (Plugin X) Bool
  judged dir none p = (undefined endless, p)
  judged dir (some q) p =
      if is_zero q.exec_ret
      then (ok true, record q { server_path = server_command dir })
      else (ok false, q)

  abbrev after_script : ℕ → Bytes → Bool → Exec (Plugin X) Bool
  after_script rounds dir true p = judged dir (run_exec rounds p) p
  after_script rounds dir false p = judged dir (some p) p

  abbrev ask_script : ℕ → Bytes → Exec (Plugin X) Bool
  ask_script rounds dir p = continue (exec_start (script dir) p) (after_script rounds dir)

  abbrev exists_or : ℕ → Bytes → Answer × Plugin X → Result Bool × Plugin X
  exists_or rounds dir (answers true, p) =
      (ok true, log_text (codes "LinuxCNC server is running") p)
  exists_or rounds dir (answers false, p) = ask_script rounds dir p
  exists_or rounds dir (throws what, p) = ask_script rounds dir (log_text what p)

  -- `ControlExists`
  unfoldable pub control_exists : ℕ → Bytes → Exec (Plugin X) Bool
  unfolding run_exec exec_start call new_call
  control_exists rounds dir p = exists_or rounds dir (ping_if 100 (connect p))

  -- `Stop`; `exec` still points to the stream that `pclose2` has closed.
  unfoldable pub stop : Plugin X → Plugin X
  stop p = if p.exec then with_outside (sh.pclose (sh.kill p.outside)).1 p else p
