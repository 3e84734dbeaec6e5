-- ===== src/Client/Polling/Busy.antt =====
-- How long `IsBusy` shows a command that the client has just sent (src/cncclient.cpp).
use cncremote.Prelude.{
  ℕ, ℤ, pos, ◌+ℤ◌, ltb_ℤ, leb_ℤ, ltb, ◌<◌, ◌≡◌, true, false, some, arith, +ℤ_parts, if◌then◌else◌,
  [],
}
use cncremote.Comms.{State, ControlState, rank}
use cncremote.Comms.Arithmetic.{Double}
use cncremote.Comms.Wire.{Wire}
use cncremote.Comms.States.{pack_state}
use cncremote.Comms.States.Laws.{unpack_state-pack_state}
use cncremote.Server.Handlers.{success}
use cncremote.Client.Calls.{get_response}
use cncremote.Client.Session.{Client, set_busy, is_busy}
use cncremote.Client.Polling.{take_status}

next_beat : (h : ℤ) → leb_ℤ (h +ℤ pos 1) h ≡ false
next_beat h = ground (arith, +ℤ_parts h (pos 1))

same_beat : (h : ℤ) → leb_ℤ h h ≡ true
same_beat h = ground arith

raise_above :
    (level r : ℕ) (k : ℤ)
    → level < r
    → ltb_ℤ (pos level) (if ltb_ℤ k (pos r) then pos r else k) ≡ true
raise_above level r k h = ground arith

shows :
    (level r : ℕ) (k : ℤ)
    → ltb_ℤ (pos level) k ≡ true
    → (if ltb_ℤ (pos r) k then ltb_ℤ (pos level) k else ltb_ℤ (pos level) (pos r)) ≡ true
shows level r k h = ground arith

settled :
    (level r : ℕ)
    → (if ltb_ℤ (pos r) (pos 0) then ltb_ℤ (pos level) (pos 0) else ltb_ℤ (pos level) (pos r))
      ≡ ltb level r
settled level r = ground arith

module _ {W : Type 0} ⦃d : Double W⦄ (w : Wire W) where
  -- The client once the answer to "GetState" has come.
  abbrev pub answered_status : State W → Client W w.Any → Client W w.Any
  answered_status st c = record c {
    status_call = record {
      response = some (success w 0 (pack_state w st));
      has_response = true;
      error = [];
      busy = false;
    };
  }

  abbrev pub status : State W → Client W w.Any → Client W w.Any
  status st c = take_status w (answered_status st c)

  -- A status answer becomes the client's state, whole.
  status_lem :
      (st : State W) (c : Client W w.Any)
      → status st c ≡ record (answered_status st c) {
        state = st;
        status_cache = if leb_ℤ c.busy_heart c.heart_beat then pos 0 else c.status_cache;
        heart_beat = c.heart_beat +ℤ pos 1;
      }
  unfolding take_status get_response
  status_lem st c = rw (w.is_nil-nil, unpack_state-pack_state w st)

  -- After a command in the state `wait`, the first status answer does not show it yet, whatever the
  -- server reports: the client is still busy at each level below `wait`. The second answer ends that:
  -- from then on the client is as busy as the server reports.
  set_busy-status :
      (wait : ControlState) (level : ℕ) (first second : State W) (c : Client W w.Any)
      → level < rank wait
      → let one = status first (set_busy wait c) in
        (is_busy true (pos level) one ≡ true)
        × (is_busy true (pos level) (status second one) ≡ ltb level (rank second.machine_state))
  unfolding set_busy is_busy
  set_busy-status wait level first second c below =
      let high = raise_above level (rank wait) c.status_cache below in
      rw
        (
          status_lem second (status first (set_busy wait c)),
          status_lem first (set_busy wait c),
          next_beat c.heart_beat,
          same_beat (c.heart_beat +ℤ pos 1),
        )
        (shows level (rank first.machine_state) _ high, settled level (rank second.machine_state))
