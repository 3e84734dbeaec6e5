-- ===== src/Client/Handled/Laws.antt =====
-- What the application sees in a build with HANDLE_CNCREMOTE_EXCEPTIONS (src/cncclient.cpp).
use cncremote.Prelude.{
  ◌+◌, ◌%◌, ◌^◌, ◌≡◌, ◌≢◌, refl, ◌⊎◌, inl, inr, Bool, false, Bytes, codes, List, [], ◌∷◌, ◌++◌,
  Option, none, some, Result, ok, raised, undefined, leb, Bool-cases, Option-cases, continue, ap,
  if◌then◌else◌,
}
use cncremote.Comms.Arithmetic.{Double}
use cncremote.Comms.Wire.{Wire}
use cncremote.Server.Handlers.{Response}
use cncremote.Client.Calls.{new_call}
use cncremote.Client.Calls.Defined.{IsDefined}
use cncremote.Client.Session.{Peer, Session, Client, remote, invoke}
use cncremote.Client.Commands.{err_indexed, result_as}
use cncremote.Client.Commands
use cncremote.Client.Uploads
use cncremote.Client.Uploads.Ends.{load_file-ends}
use cncremote.Client.Uploads.Defined.{invoke-IsDefined, load_file-IsDefined}
use cncremote.Client.Handled.{Handled, settle, load_file, get_next_error}

module _ {W Any S : Type 0} where
  -- The plain build's result, beside what this build makes of it.
  settle-cases :
      (m : Result (Option Bool) × Session W Any S) (es : List Bytes)
      → IsDefined m.0
      → m.0 ≢ ok none
      → ((b : Bool) × (m.0 ≡ ok (some b))
          × (settle (some false) es m ≡ (ok (some b), record { session = m.1; handed = es })))
        ⊎ ((e : Bytes) × (m.0 ≡ raised e)
            × (settle (some false) es m
                ≡ (ok (some false), record { session = m.1; handed = es ++ e ∷ [] })))
  settle-cases (ok none, s) es v over = absurd (over refl)
  settle-cases (ok (some b), s) es v over = inl (b, refl, refl)
  settle-cases (raised e, s) es v over = inr (e, refl, refl)
  settle-cases (undefined f, s) es v over = absurd v

module _ {W S : Type 0} ⦃d : Double W⦄ (w : Wire W) (peer : Peer w.Any S) where
  -- `LoadFile` in the build that hands exceptions to the application, for any file and whatever the server
  -- and the network do: it always returns true or false. Either that is what the other build returns, and no
  -- exception is handed on; or the other build throws an exception, which is handed on, once, and false is
  -- returned. The client and the world are left as in the other build.
  pub load_file-answers :
      (files : Bytes → Option Bytes) (file : Bytes) (h : Handled W w.Any S)
      → let plain = Uploads.load_file w peer files file h.session in
        ((b : Bool) × (plain.0 ≡ ok (some b))
          × (load_file w peer files file h
              ≡ (ok (some b), record { session = plain.1; handed = h.handed })))
        ⊎ ((e : Bytes) × (plain.0 ≡ raised e)
            × (load_file w peer files file h
                ≡ (ok (some false), record { session = plain.1; handed = h.handed ++ e ∷ [] })))
  unfolding load_file
  load_file-answers files file h =
      settle-cases (Uploads.load_file w peer files file h.session) h.handed
        (load_file-IsDefined w peer files file h.session)
        (load_file-ends w peer files file h.session)

  -- The client after an error was read.
  abbrev pub moved_on : Client W w.Any → Client W w.Any
  moved_on c = record c { err_index = (c.err_index + 1) % 2 ^ 32 }

  -- What comes of a read of an error, with the client and the exceptions before it.
  abbrev Reads : Client W w.Any → List Bytes → Result Bytes × Handled W w.Any S → Type 0
  Reads c es (r, h) =
      ((text : Bytes) × (r ≡ ok text) × (h.handed ≡ es) × (h.session.client ≡ moved_on c))
      ⊎ ((e : Bytes) × (r ≡ ok []) × (h.handed ≡ es ++ e ∷ []) × (h.session.client ≡ c))

  answered-Reads :
      (c : Client W w.Any) (es : List Bytes) (m : Result (Response w.Any) × Session W w.Any S)
      → IsDefined m.0
      → m.1.client ≡ c
      → Reads c es
          (settle [] es (continue (continue m (result_as w peer w.text)) (err_indexed w peer)))
  answered-Reads c es (raised e, s) v kept = inr (e, refl, refl, kept)
  answered-Reads c es (undefined f, s) v kept = absurd v
  answered-Reads c es (ok r, s) v kept = elim (Option-cases (w.text.unpack r.result)) [
    | inl e ↦ rw (result_as, e) (inr (codes "std::bad_cast", refl, refl, kept))
    | inr (text, e) ↦ rw (result_as, e) (inl (text, refl, refl, ap moved_on kept))
  ]

  -- `GetNextError` in the build that hands exceptions to the application never throws. If an error is pending,
  -- then whatever the server and the network do, either it returns a text, hands on nothing and moves on
  -- to the next error, or it returns the empty text and hands on one exception, and the same error stays the next
  -- one. If none is pending, it returns the empty text, hands on nothing and changes nothing.
  pub get_next_error-told :
      (h : Handled W w.Any S)
      → let (r, after) = get_next_error w peer h in
        let c = h.session.client in
        if leb c.state.error_count c.err_index
        then (r ≡ ok []) × (after ≡ h)
        else (((text : Bytes) × (r ≡ ok text)
              × (after.handed ≡ h.handed)
              × (after.session.client ≡ moved_on c))
            ⊎ ((e : Bytes) × (r ≡ ok [])
                × (after.handed ≡ h.handed ++ e ∷ [])
                × (after.session.client ≡ c)))
  unfolding get_next_error Commands.get_next_error remote invoke
  get_next_error-told h =
      let c = h.session.client in
      elim (Bool-cases (leb c.state.error_count c.err_index)) [
        | inl none_left ↦ rw none_left (refl, refl)
        | inr pending ↦ rw pending (
            answered-Reads c h.handed
              (remote w peer (codes "GetError") (w.nat.pack c.err_index) h.session)
              (invoke-IsDefined w peer (codes "GetError") (w.nat.pack c.err_index)
                (new_call, h.session))
              refl)
      ]
