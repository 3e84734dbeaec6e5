-- ===== src/Client/Calls/Laws.antt =====
-- What a caller of `RemoteCall` can rely on.
use cncremote.Prelude.{
  ℕ, zero, suc, ◌<◌, ◌≡◌, ◌⊎◌, ◌≢◌, inl, inr, refl, true, false, Bytes, List, [], ◌∷◌, ◌++◌, Option,
  none, some, ok, raised, arith, replicate, ◌∙◌, ap, if◌then◌else◌, Option-cases, Bool-cases,
}
use cncremote.Comms.Wire.{Wire}
use cncremote.Server.Handlers.{Response}
use cncremote.Client.Calls.{
  RemoteCall, Event, responded, failed, Delivery, timeout_error, busy_error, new_call, on_event,
  on_events, begin_call, call_async, clear_response, wait, get_response, call,
}

-- The callbacks arrive after `k` silent milliseconds.
abbrev pub arrives : {Any : Type 0} → ℕ → List (Event Any) → List (List (Event Any)) → Delivery Any
arrives k es later = record { refused = none; ticks = replicate k [] ++ es ∷ later }

wait_idle :
    {Any : Type 0} (ms : ℕ) (ticks : List (List (Event Any))) (c : RemoteCall Any)
    → c.busy ≡ false
    → wait ms ticks c ≡ (true, c)
unfolding wait
wait_idle zero ticks c q = rw q
wait_idle (suc ms) [] c q = rw q
wait_idle (suc ms) (es ∷ ticks) c q = rw q

wait_busy :
    {Any : Type 0} (ms : ℕ) (es : List (Event Any)) (ticks : List (List (Event Any)))
    (c : RemoteCall Any)
    → c.busy ≡ true
    → wait (suc ms) (es ∷ ticks) c ≡ wait ms ticks (on_events es c)
unfolding wait
wait_busy ms es ticks c b = rw b

wait-arrives :
    {Any : Type 0} (k timeout : ℕ) (es : List (Event Any)) (later : List (List (Event Any)))
    (c : RemoteCall Any)
    → k < timeout
    → c.busy ≡ true
    → (on_events es c).busy ≡ false
    → wait timeout (replicate k [] ++ es ∷ later) c ≡ (true, on_events es c)
wait-arrives zero zero es later c h b q = absurd (omega arith)
wait-arrives zero (suc t) es later c h b q = wait_busy t es later c b ∙ wait_idle t later _ q
wait-arrives (suc k) zero es later c h b q = absurd (omega arith)
wait-arrives (suc k) (suc t) es later c h b q =
    wait_busy t [] (replicate k [] ++ es ∷ later) c b
    ∙ wait-arrives k t es later c (omega arith) b q

module _ {W : Type 0} (w : Wire W) where
  call-arrives :
      (k timeout : ℕ) (es : List (Event w.Any)) (later : List (List (Event w.Any)))
      (c : RemoteCall w.Any)
      → k < timeout
      → c.busy ≡ false
      → (on_events es (begin_call c)).busy ≡ false
      → call w timeout (arrives k es later) c ≡ get_response w (on_events es (begin_call c))
  unfolding call call_async
  call-arrives k timeout es later c h b q =
      rw (b, wait-arrives k timeout es later (begin_call c) h refl q)

  -- A call on an idle object whose send succeeds and whose response comes in time: the response is
  -- returned if its error is nil and thrown as that error's text if not, and the object is idle again.
  pub call_responded :
      (k timeout : ℕ) (r : Response w.Any) (later : List (List (Event w.Any)))
      (c : RemoteCall w.Any)
      → k < timeout
      → c.busy ≡ false
      → call w timeout (arrives k (responded r ∷ []) later) c ≡ (
        (if w.is_nil r.error then ok r else raised (w.stringify r.error)),
        record { response = some r; has_response = true; error = []; busy = false },
      )
  unfolding get_response on_event
  call_responded k timeout r later c h b =
      call-arrives k timeout (responded r ∷ []) later c h b refl
      ∙ elim (Bool-cases (w.is_nil r.error)) [ inl e ↦ rw e | inr e ↦ rw e ]

  -- A call whose transfer fails later, which the library says by `OnError`: the caller sees the error
  -- of a timeout and not the message of the failure, whatever that is.
  call_failed :
      (k timeout : ℕ) (message : Bytes) (later : List (List (Event w.Any))) (c : RemoteCall w.Any)
      → k < timeout
      → c.busy ≡ false
      → (call w timeout (arrives k (failed message ∷ []) later) c).0 ≡ raised timeout_error
  unfolding get_response on_event
  call_failed k timeout message later c h b =
      ap (λ r. r.0) (call-arrives k timeout (failed message ∷ []) later c h b refl)

  -- A call whose `Send` is refused throws the refusal's message and leaves the object busy, so that
  -- every later call, however it is delivered, throws `BusyError` and leaves the object as it is.
  call_refused :
      (timeout : ℕ) (message : Bytes) (ticks : List (List (Event w.Any))) (c : RemoteCall w.Any)
      → (t : ℕ) (delivery : Delivery w.Any) → c.busy ≡ false
      → let (r, c') = call w timeout (record { refused = some message; ticks = ticks }) c in
        (r ≡ raised message) × (call w t delivery c' ≡ (raised busy_error, c'))
  unfolding call call_async
  call_refused timeout message ticks c t delivery b = rw b (refl, refl)

  -- A call on an idle object that hears nothing in time throws the error of a timeout and stays busy.
  call_silent :
      (timeout : ℕ) (c : RemoteCall w.Any)
      → c.busy ≡ false
      → call w timeout (record { refused = none; ticks = [] }) c
        ≡ (raised timeout_error, begin_call c)
  unfolding call call_async wait
  call_silent zero c b = rw b
  call_silent (suc t) c b = rw b

-- What the caller and the library do to the object. The library makes a callback only for a call
-- that waits.
pub data Step {Any : Type 0} : RemoteCall Any → RemoteCall Any → Type 0 where
  calls : {c : RemoteCall Any} (refused : Option Bytes) → Step c (call_async refused c).1
  hears : {c : RemoteCall Any} (e : Event Any) → c.busy ≡ true → Step c (on_event e c)
  clears : {c : RemoteCall Any} → Step c (clear_response c)

pub data Reach {Any : Type 0} : RemoteCall Any → Type 0 where
  new : Reach new_call
  later : {c c' : RemoteCall Any} → Reach c → Step c c' → Reach c'

module _ {Any : Type 0} where
  pub record IsSound (c : RemoteCall Any) : Type 0 where
    pub held : (c.has_response ≡ false) ⊎ ((c.busy ≡ false) × (c.response ≢ none) × (c.error ≡ []))
    pub quiet : (c.busy ≡ false) ⊎ (c.error ≡ [])

  Step-IsSound : {c c' : RemoteCall Any} → Step c c' → IsSound c → IsSound c'
  unfolding call_async on_event clear_response
  Step-IsSound (calls none) v = ground arith
  Step-IsSound (calls (some m)) v = ground arith
  Step-IsSound (hears (responded r) b) v = ground arith
  Step-IsSound (hears (failed m) b) v = ground arith
  Step-IsSound clears v = ground arith

  -- Whatever the caller and the library do, in any order: while a response is held the call is over, the
  -- response is there and no error is stored; and while a call waits no error is stored.
  Reach-IsSound : {c : RemoteCall Any} → Reach c → IsSound c
  unfolding new_call
  Reach-IsSound new = ground arith
  Reach-IsSound (later r st) = Step-IsSound st (Reach-IsSound r)

-- In every reachable state `GetResponse` throws the error of a timeout, or gives or throws what the
-- stored response says: the `SendError` of a failed transfer is never thrown.
Reach-response :
    {W : Type 0} (w : Wire W) (c : RemoteCall w.Any)
    → Reach c
    → ((get_response w c).0 ≡ raised timeout_error)
      ⊎ ((r : Response w.Any) × (c.response ≡ some r)
          × ((get_response w c).0
              ≡ (if w.is_nil r.error then ok r else raised (w.stringify r.error))))
unfolding get_response
Reach-response w c h = elim (Reach-IsSound h).held [
  | inl q ↦ inl (rw q)
  | inr (idle, held, clean) ↦ elim (Option-cases c.response) [
    | inl e ↦ inl (absurd (held e))
    | inr (r, e) ↦ elim (Bool-cases c.has_response) [
      | inl q ↦ inr (r, e, ground (arith, clean, q))
      | inr q ↦ inl (rw q)
    ]
  ]
]
