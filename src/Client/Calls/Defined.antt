-- ===== src/Client/Calls/Defined.antt =====
-- A call on a `RemoteCall` (src/cncclient.cpp) leaves nothing undefined, whatever comes of the request.
use cncremote.Prelude.{
  ℕ, inl, inr, Bool, true, false, not, Bytes, Option, none, some, Result, ok, raised, undefined,
  Exec, continue, if◌then◌else◌, is_empty, Bool-cases,
}
use cncremote.Comms.Wire.{Wire}
use cncremote.Server.Handlers.{Response}
use cncremote.Client.Calls.{RemoteCall, Delivery, call_async, checked, get_response, call, wait}

-- What C++ does is defined.
abbrev pub IsDefined : {A : Type 0} → Result A → Type 0
IsDefined (ok a) = Unit {0}
IsDefined (raised e) = Unit {0}
IsDefined (undefined f) = ⊥

module _ {S A : Type 0} where
  pub continue-IsDefined :
      {B : Type 0} (m : Result B × S) (f : B → Exec S A)
      → IsDefined m.0
      → ((b : B) (s : S) → IsDefined (f b s).0)
      → IsDefined (continue m f).0
  continue-IsDefined (ok b, s) f v h = h b s
  continue-IsDefined (raised e, s) f v h = tt
  continue-IsDefined (undefined x, s) f v h = v

  pub if_IsDefined :
      (b : Bool) (p q : Result A × S)
      → IsDefined p.0
      → IsDefined q.0
      → IsDefined (if b then p else q).0
  if_IsDefined true p q h k = h
  if_IsDefined false p q h k = k

module _ {W : Type 0} (w : Wire W) where
  checked-IsDefined : (r : Option (Response w.Any)) (error : Bytes) → IsDefined (checked w r error)
  checked-IsDefined none error = tt
  checked-IsDefined (some r) error = elim (Bool-cases (w.is_nil r.error)) [
    | inr e ↦ rw e tt
    | inl e ↦ elim (Bool-cases (is_empty error)) [ inl f ↦ rw (e, f) tt | inr f ↦ rw (e, f) tt ]
  ]

  get_response-IsDefined : (c : RemoteCall w.Any) → IsDefined (get_response w c).0
  unfolding get_response
  get_response-IsDefined c =
      if_IsDefined (not c.has_response) _ _ tt (checked-IsDefined c.response c.error)

  call_async-IsDefined :
      (refused : Option Bytes) (c : RemoteCall w.Any) → IsDefined (call_async refused c).0
  unfolding call_async
  call_async-IsDefined none c = if_IsDefined c.busy _ _ tt tt
  call_async-IsDefined (some e) c = if_IsDefined c.busy _ _ tt tt

  pub call-IsDefined :
      (timeout : ℕ) (delivery : Delivery w.Any) (c : RemoteCall w.Any)
      → IsDefined (call w timeout delivery c).0
  unfolding call
  call-IsDefined timeout delivery c =
      continue-IsDefined (call_async delivery.refused c) _ (call_async-IsDefined delivery.refused c)
        λ u c'. if_IsDefined (wait timeout delivery.ticks c').0 _ _ (get_response-IsDefined _) tt
