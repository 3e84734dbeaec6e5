-- ===== src/Client/Polling/Refusals.antt =====
-- `Poll` after the socket has refused a status call (src/cncclient.cpp).
use cncremote.Prelude.{
  ℕ, zero, suc, pos, ◌≡◌, refl, ap, ◌∙◌, true, false, some, [], Bytes, Bool-cases, inl, inr,
}
use cncremote.Comms.Arithmetic.{Double}
use cncremote.Comms.Wire.{Wire}
use cncremote.Client.Calls.{call_async, begin_call}
use cncremote.Client.Session.{Client, Peer, Session}
use cncremote.Client.Polling.{poll, ask, take_status, take_version}

module _ {W S : Type 0} ⦃d : Double W⦄ (w : Wire W) (peer : Peer w.Any S) where
  abbrev pub polls : ℕ → Session W w.Any S → Session W w.Any S
  polls zero s = s
  polls (suc n) s = (poll w peer (polls n s)).1

  -- A world in which nothing is done but look for callbacks, a number of times.
  abbrev pub looked : ℕ → S → S
  looked zero world = world
  looked (suc n) world = (peer.arrived (looked n world)).1

  -- The client waits for an answer that is not there.
  pub record IsWaiting (c : Client W w.Any) : Type 0 where
    pub busy : c.status_call.busy ≡ true
    pub unanswered : c.status_call.has_response ≡ false

  poll_waiting :
      (s : Session W w.Any S)
      → IsWaiting s.client
      → (peer.arrived s.world).0 ≡ []
      → (poll w peer s).1 ≡ record s { world = (peer.arrived s.world).1 }
  unfolding poll take_status take_version
  poll_waiting s v silent =
      let ver = s.client.server_ver in
      elim (Bool-cases (peer.is_connected (peer.arrived s.world).1)) [
        | inr c ↦ rw (silent, v.unanswered, v.busy, c) refl
        | inl c ↦ elim (Bool-cases (d.lt ver d.nought)) [
          | inl l ↦ rw (silent, v.unanswered, v.busy, c, l) refl
          | inr l ↦ elim (Bool-cases (d.eq ver d.nought)) [
            | inl e ↦ rw (silent, v.unanswered, v.busy, c, l, e) refl
            | inr e ↦ rw (silent, v.unanswered, v.busy, c, l, e) refl
          ]
        ]
      ]

  polls_waiting :
      (s : Session W w.Any S)
      → IsWaiting s.client
      → ((world : S) → (peer.arrived world).0 ≡ [])
      → (n : ℕ) → polls n s ≡ record s { world = looked n s.world }
  polls_waiting s v silent zero = refl
  polls_waiting s v silent (suc n) =
      let kept = polls_waiting s v silent n in
      poll_waiting (polls n s) (rw kept v) (silent _)
      ∙ ap (λ (t : Session W w.Any S). record t { world = (peer.arrived t.world).1 }) kept

  -- If the socket refuses the status call of an idle client, which ignores that, and no callback
  -- comes, then no number of polls changes the client again: it waits for ever for the answer to a
  -- call that was not sent, and all that the polls do to the world is to look for callbacks, so that nothing else
  -- is asked for.
  pub ask_refused :
      (method message : Bytes) (s : Session W w.Any S) (n : ℕ)
      → s.client.status_call.busy ≡ false
      → (peer.request_async method (w.int.pack (pos 0)) s.world).0 ≡ some message
      → ((world : S) → (peer.arrived world).0 ≡ [])
      → polls n (ask w peer method s) ≡ record {
        client = record (s.client) { status_call = begin_call s.client.status_call };
        world = looked n (peer.request_async method (w.int.pack (pos 0)) s.world).1;
      }
  unfolding ask call_async
  ask_refused method message s n idle refused silent =
      polls_waiting (ask w peer method s)
        (rw (idle, refused) (record { busy = refl; unanswered = refl })) silent n
      ∙ rw (idle, refused) refl
