-- ===== src/Client/Calls.antt =====
-- `RemoteCall` of src/cncclient.cpp: one remote call at a time, whose answer comes by a callback.
pub mod Laws
pub mod Defined
use cncremote.Prelude.{
  ℕ, zero, suc, Bool, true, false, Bytes, codes, List, [], ◌∷◌, Option, none, some, Exec, Result,
  ok, raised, undefined, throw, pure, continue, ◌>>=◌, ◌>>◌, is_empty, not, ◌||◌, if◌then◌else◌,
}
use cncremote.Comms.Wire.{Wire}
use cncremote.Server.Handlers.{Response, Notify}

pub record RemoteCall (Any : Type 0) : Type 0 where
  pub response : Option (Response Any)
  pub has_response : Bool
  pub error : Bytes
  pub busy : Bool

-- The callbacks that the library makes: `OnResponse` and `OnError`.
pub data Event (Any : Type 0) : Type 0 where
  responded : Response Any → Event Any
  failed : Bytes → Event Any

-- What comes of handing a request to the socket: the message of the error that `Send` returns, none
-- for LNR_OK; and the callbacks made in each of the following milliseconds.
pub record Delivery (Any : Type 0) : Type 0 where
  pub refused : Option Bytes
  pub ticks : List (List (Event Any))

abbrev pub timeout_error : Bytes
timeout_error = codes "Timed out calling function"

abbrev pub busy_error : Bytes
busy_error = codes "Waiting for response"

module _ {Any : Type 0} where
  unfoldable pub new_call : RemoteCall Any
  new_call = record { response = none; has_response = false; error = []; busy = false }

  unfoldable pub on_event : Event Any → RemoteCall Any → RemoteCall Any
  on_event (responded r) c = record c { response = some r; has_response = true; busy = false }
  on_event (failed message) c = record c { error = message; busy = false }

  abbrev pub on_events : List (Event Any) → RemoteCall Any → RemoteCall Any
  on_events [] c = c
  on_events (e ∷ es) c = on_events es (on_event e c)

  -- `CallAsync` up to the send.
  abbrev pub begin_call : RemoteCall Any → RemoteCall Any
  begin_call c = record c { busy = true; has_response = false; error = [] }

  abbrev sent : Option Bytes → Exec (RemoteCall Any) (Unit {0})
  sent none = pure tt
  sent (some message) = throw message

  -- `CallAsync`, with what the send returns.
  unfoldable pub call_async : Option Bytes → Exec (RemoteCall Any) (Unit {0})
  call_async refused c = if c.busy then (raised busy_error, c) else sent refused (begin_call c)

  unfoldable pub clear_response : RemoteCall Any → RemoteCall Any
  clear_response c = record c { has_response = false }

  -- `Wait`: the callbacks of a millisecond arrive while it sleeps.
  unfoldable pub wait : ℕ → List (List (Event Any)) → RemoteCall Any → Bool × RemoteCall Any
  wait zero ticks c = (not c.busy, c)
  wait (suc ms) [] c = (not c.busy, c)
  wait (suc ms) (es ∷ ticks) c = elim c.busy [
    | true ↦ wait ms ticks (on_events es c)
    | false ↦ (true, c)
  ]

module _ {W : Type 0} (w : Wire W) where
  abbrev checked : Option (Response w.Any) → Bytes → Result (Response w.Any)
  checked none error = raised timeout_error
  checked (some r) error =
      if not (w.is_nil r.error)
      then raised (w.stringify r.error)
      else if not (is_empty error)
      then raised error
      else ok r

  unfoldable pub get_response : Exec (RemoteCall w.Any) (Response w.Any)
  get_response c =
      if not c.has_response then (raised timeout_error, c) else (checked c.response c.error, c)

  abbrev await : ℕ → List (List (Event w.Any)) → Exec (RemoteCall w.Any) (Response w.Any)
  await timeout ticks c =
      let (done, c') = wait timeout ticks c in
      if done then get_response c' else (raised timeout_error, c')

  -- `Call`, with what comes of the request.
  unfoldable pub call : ℕ → Delivery w.Any → Exec (RemoteCall w.Any) (Response w.Any)
  unfolding call_async wait get_response on_event
  call timeout delivery = do call_async delivery.refused; await timeout delivery.ticks
