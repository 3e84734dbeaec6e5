-- ===== src/Network/Reading.antt =====
-- An application that reads the errors and messages of a server (src/cncclient.cpp, src/cncserver.cpp).
use cncremote.Prelude.{
  ℕ, zero as nat_zero, suc, ◌+◌, ◌-◌, ◌%◌, ◌^◌, ◌≤◌, ◌<◌, ltb, leb, ◌≡◌, refl, sym, ap, ap₂, ◌∙◌,
  Bool, true, false, Bytes, List, [], ◌∷◌, map, drop, get_elem?, length, some, Result, ok, arith,
  if◌then◌else◌, Option-cases, inl, inr, get_elem?-inside, get_elem?-outside, drop-get_elem?,
  drop_all,
}
use cncremote.Comms.Arithmetic.{Double}
use cncremote.Comms.Wire.{Codec, Wire}
use cncremote.Server.{Driver}
use cncremote.Server.Files.{Host}
use cncremote.Server.Handlers.{success}
use cncremote.Server.Logs.{get_error, entry}
use cncremote.Server.Protocol.{Query}
use cncremote.Client.Session.{Peer}
use cncremote.Client.Commands.{has_errors, get_next_error, result_as}
use cncremote.Network.{Net, direct}
use cncremote.Network.Calls.{Joined, with_server, remote-ok}

entry-eq : (texts : List Bytes) (i : ℕ) {a : Bytes} → get_elem? texts i ≡ some a → entry texts i ≡ a
entry-eq texts i e =
    let inside : leb (length texts) i ≡ false = ground (arith, get_elem?-inside texts i e) in
    rw (inside, e) refl

module _ {W M : Type 0} ⦃d : Double W⦄ (w : Wire W) (host : Host) (drv : Driver W M)
    (local : Bool) where
  abbrev peer : Peer w.Any (Net W w.Any M)
  peer = direct w host drv local

  abbrev Session : Type 0
  Session = Joined w host drv local

  -- `while(HasErrors()) GetNextError();` and the same for messages, for at most a number of rounds, with what is
  -- returned.
  abbrev pub read_errors : ℕ → Session → List (Result Bytes) × Session
  read_errors nat_zero s = ([], s)
  read_errors (suc n) s =
      let (r, s') = get_next_error w peer s in
      let (rs, t) = read_errors n s' in if has_errors w peer s then (r ∷ rs, t) else ([], s)

  abbrev at_error : ℕ → Session → Session
  at_error i s = record s { client = record client { err_index = i } }
    where
      open s use {client}

  result_as-ok :
      {A : Type 0} (codec : Codec w.Any A) (a : A) (s : Session)
      → result_as w peer codec (success w 0 (codec.pack a)) s ≡ (ok a, s)
  result_as-ok codec a s = rw (result_as, codec.unpack-pack a) refl

  next_error :
      (s : Session) (text : Bytes)
      → get_elem? s.world.server.errors s.client.err_index ≡ some text
      → ltb s.client.err_index s.client.state.error_count ≡ true
      → get_next_error w peer s ≡ (ok text, at_error ((s.client.err_index + 1) % 2 ^ 32) s)
  unfolding get_next_error get_error
  next_error s text e more =
      let q = Query.get_error s.client.err_index in
      let few : leb s.client.state.error_count s.client.err_index ≡ false = ground arith in
      let r =
        remote-ok w host drv local (w.nat.pack 0) q (w.text.pack text) s s.world.server
          (rw (entry-eq s.world.server.errors s.client.err_index e) refl) in
      simp (few, r, result_as-ok w.text text (with_server w host drv local s.world.server s)) refl

  read_errors-next :
      (n i : ℕ) (s : Session) (text : Bytes)
      → s.client.err_index ≡ i
      → get_elem? s.world.server.errors i ≡ some text
      → s.client.state.error_count ≡ length s.world.server.errors
      → length s.world.server.errors < 2 ^ 32
      → read_errors (suc n) s
        ≡ (ok text ∷ (read_errors n (at_error (suc i) s)).0, (read_errors n (at_error (suc i) s)).1)
  read_errors-next n i s text at e count few =
      let inside = get_elem?-inside s.world.server.errors i e in
      let more : has_errors w peer s ≡ true = ground (arith, count, at, inside) in
      let next : (s.client.err_index + 1) % 2 ^ 32 ≡ suc i = omega (arith, at, inside, few) in
      simp (more, next_error s text (rw at e) more, next) refl

  read_errors-from :
      (n k i : ℕ) (s : Session)
      → s.client.err_index ≡ i
      → s.client.state.error_count ≡ length s.world.server.errors
      → length s.world.server.errors < 2 ^ 32
      → i + k ≡ length s.world.server.errors
      → k < n
      → read_errors n s
        ≡ (map ok (drop i s.world.server.errors), at_error (length s.world.server.errors) s)
  read_errors-from nat_zero k i s at count few rest fuel = absurd (omega arith)
  read_errors-from (suc n) nat_zero i s at count few rest fuel =
      let all : i ≡ length s.world.server.errors = omega arith in
      let no_more : has_errors w peer s ≡ false = ground (arith, count, at, all) in
      simp no_more (
        ap₂ (λ (l : List (Result Bytes)) (t : Session). (l, t))
          (sym (
            ap (λ j. map ok (drop j s.world.server.errors)) all
            ∙ ap (map ok) (drop_all s.world.server.errors)))
          (ap (λ j. at_error j s) (at ∙ all)))
  read_errors-from (suc n) (suc k) i s at count few rest fuel =
      elim (Option-cases (get_elem? s.world.server.errors i)) [
        | inl e ↦ absurd (omega (arith, get_elem?-outside s.world.server.errors i e))
        | inr (text, e) ↦
            let tail =
              read_errors-from n k (suc i) (at_error (suc i) s) refl count few (omega arith)
                (omega arith) in
            read_errors-next n i s text at e count few
            ∙ ap (λ (r : List (Result Bytes) × Session). (ok text ∷ r.0, r.1)) tail
            ∙ ap (λ l. (map ok l, at_error (length s.world.server.errors) s))
                (sym (drop-get_elem? s.world.server.errors i e))
      ]

  -- Over a network that delivers, once the client has a state with the server's count of errors, reading the next error
  -- while there are errors ends after one round for each that was not read yet, and returns exactly these, in
  -- the order in which they were logged; then none is left. There are fewer than 2 ^ 32 errors, and not more
  -- were read than there are.
  pub read_errors-all :
      (n : ℕ) (s : Session)
      → s.client.state.error_count ≡ length s.world.server.errors
      → length s.world.server.errors < 2 ^ 32
      → s.client.err_index ≤ length s.world.server.errors
      → length s.world.server.errors < n + s.client.err_index
      → let (texts, t) = read_errors n s in
        (texts ≡ map ok (drop s.client.err_index s.world.server.errors))
        × (t.world ≡ s.world)
        × (has_errors w peer t ≡ false)
  read_errors-all n s count few read fuel =
      let left : ℕ = length s.world.server.errors - s.client.err_index in
      let all =
        read_errors-from n left s.client.err_index s refl count few (omega arith) (omega arith) in
      rw all (refl, refl, ground (arith, count))
