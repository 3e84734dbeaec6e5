-- ===== src/Client/Session/Reconnects.antt =====
-- What the application hears while the server is away (`Client::Handler` of src/cncclient.cpp).
use cncremote.Prelude.{
  ℕ, zero, suc, ℤ, ◌+◌, ◌≤◌, ◌≡◌, refl, ltb, ◌==◌, min, [], ◌∷◌, ◌++◌, arith, if◌then◌else◌, true,
  false, Bool-cases, inl, inr,
}
use cncremote.Comms.{mc_no_server}
use cncremote.Comms.Arithmetic.{Double}
use cncremote.Client.Session.{
  Client, on_disconnect, new_client, handler_connect, handler_disconnect,
}

abbrev more_tries : ℕ → ℕ
more_tries n = if ltb n 10 then n + 1 else n

module _ {W Any : Type 0} ⦃d : Double W⦄ where
  -- The library calls `OnDisconnect` for the connection that is lost and for each attempt that fails.
  abbrev pub fails : ℕ → Client W Any → Client W Any
  fails zero c = c
  fails (suc n) c = (handler_disconnect (fails n c)).1

  -- The application is told once.
  record IsAway (n : ℕ) (c c' : Client W Any) : Type 0 where
    told : c'.notices ≡ c.notices ++ on_disconnect ∷ []
    machine : c'.state.machine_state ≡ mc_no_server
    version : c'.server_ver ≡ d.nought
    tries : c'.retries ≡ min n 10

  -- A failure after the first only counts.
  disconnect_again :
      (c : Client W Any)
      → 1 ≤ c.retries
      → (handler_disconnect c).1 ≡ record c { retries = more_tries c.retries }
  unfolding handler_disconnect
  disconnect_again c h =
      let e : (c.retries == 0) ≡ false = ground arith in
      elim (Bool-cases (ltb c.retries 10)) [ inl l ↦ rw (e, l) refl | inr l ↦ rw (e, l) refl ]

  disconnect_first : (c : Client W Any) → c.retries ≡ 0 → IsAway 1 c (handler_disconnect c).1
  unfolding handler_disconnect
  disconnect_first c e =
      rw e (record { told = refl; machine = refl; version = refl; tries = omega arith })

  fails-IsAway : (n : ℕ) (c : Client W Any) → c.retries ≡ 0 → IsAway (suc n) c (fails (suc n) c)
  fails-IsAway zero c e = disconnect_first c e
  fails-IsAway (suc n) c e =
      let v = fails-IsAway n c e in
      rw (disconnect_again (fails (suc n) c) (omega (arith, v.tries))) (record {
        told = v.told;
        machine = v.machine;
        version = v.version;
        tries = rw (v.tries) (ground arith);
      })

  delay_lem :
      (n : ℕ) (c : Client W Any)
      → c.retries ≡ min n 10
      → (handler_disconnect c).0 ≡ (if ltb n 10 then 100 else 1000)
  unfolding handler_disconnect
  delay_lem n c e = elim (Bool-cases (ltb n 10)) [
    | inl l ↦ (let few : ltb c.retries 10 ≡ true = ground arith in rw (few, l) refl)
    | inr l ↦ (let many : ltb c.retries 10 ≡ false = ground arith in rw (many, l) refl)
  ]

  tries_lem : (n : ℕ) (c : Client W Any) → c.retries ≡ 0 → (fails n c).retries ≡ min n 10
  tries_lem zero c e = e
  tries_lem (suc n) c e = (fails-IsAway n c e).tries

  -- After a connection, however often the library says that it is lost or could not be made again: the
  -- application is told once, the version is forgotten, the state says that there is no server, and
  -- each of the first ten times, the loss itself the first of them, the next attempt is made after 100 ms, and
  -- from then on after 1000 ms.
  pub handler_disconnect-once :
      (n : ℕ) (c : Client W Any)
      → let away = fails (suc n) (handler_connect c) in
        (away.notices ≡ c.notices ++ on_disconnect ∷ [])
        × (away.server_ver ≡ d.nought)
        × (away.state.machine_state ≡ mc_no_server)
        × ((handler_disconnect (fails n (handler_connect c))).0 ≡ (if ltb n 10 then 100 else 1000))
  unfolding handler_connect
  handler_disconnect-once n c =
      let v = fails-IsAway n (handler_connect c) refl in
      (
        v.told,
        v.version,
        v.machine,
        delay_lem n (fails n (handler_connect c)) (tries_lem n (handler_connect c) refl),
      )

  fails_new :
      (n : ℕ) (c : Client W Any)
      → 1 ≤ c.retries
      → ((fails n c).notices ≡ c.notices) × (1 ≤ (fails n c).retries)
  fails_new zero c h = (refl, h)
  fails_new (suc n) c h =
      let (kept, tried) = fails_new n c h in
      rw (disconnect_again (fails n c) tried) (kept, ground arith)

-- A client that was never connected says nothing, however many attempts fail.
pub fails-new_client :
    {W : Type 0} ⦃d : Double W⦄ (Any : Type 0) (n : ℕ) (cache busy beat : ℤ)
    → (fails {W = W} n (new_client {Any = Any} cache busy beat)).notices ≡ []
unfolding new_client
fails-new_client Any n cache busy beat = (fails_new n (new_client cache busy beat) (omega arith)).0
