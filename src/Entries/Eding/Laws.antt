-- ===== src/Entries/Eding/Laws.antt =====
-- The library for Eding CNC (drivers/EdingCNC402/main.cpp) under a client that loads it (src/cncclient.cpp).
use cncremote.Prelude.{
  ℕ, ◌==◌, ◌≡◌, ◌≢◌, ◌⊎◌, refl, sym, ap, ◌∙◌, inl, inr, Bool, ◌&&◌, Bytes, List, [], ◌∷◌, Option,
  none, some, Result, ok, raised, undefined, Exec, unset_function, continue, Bool-cases,
  if◌then◌else◌, arith,
}
use cncremote.Server.{Server}
use cncremote.EdingCnc.{Library, Eding}
use cncremote.EdingCnc.Registry.{Windows}
use cncremote.Client.Plugins.{
  Call, opens, closes, asks, starts, stops, polls, quits, logs, connects, History,
}
use cncremote.Client.Plugins.Laws.{allow, replay}
use cncremote.Entries.{Listener}
use cncremote.Client.Plugins.Allowed.{
  allow-polls, allow-quits, allow-stops, allow-closes, allow-starts, replay-split,
}
use cncremote.Entries.Eding.Polls.{IsDefined, poll-IsDefined}
use cncremote.Entries.Eding.{Running, Global, start, stop, control_exists, quit, poll}

-- What is around the library when it is called, by what was called before: the registry and the running
-- processes, what the requests of clients have done to the server since the last call, and whether the system
-- unmaps the library when it is closed.
pub record Around (W C X : Type 0) : Type 0 where
  pub windows : History → Windows
  pub processes : History → Option (List Bytes)
  pub serves : History → Running W C X → Running W C X
  pub unmaps : History → Bool

module _ {W C X : Type 0} (lib : Library W C) (l : Listener X) (fresh : Server W (Eding W C))
    (around : Around W C X) (h : ℕ) where
  abbrev serve : History → Global W C X → Global W C X
  serve past none = none
  serve past (some r) = some (around.serves past r)

  -- What a call does to the library, if it is that with the handle `h`.
  abbrev on_call : Call → History → Exec (Global W C X) (Unit {0})
  on_call (opens path r) past g = (ok tt, g)
  on_call (closes k) past g = (ok tt, if k == h && around.unmaps past then none else g)
  on_call (asks k path) past g =
      (ok tt, if k == h then (control_exists lib l fresh (around.windows past) g).1 else g)
  on_call (starts k) past g = (ok tt, if k == h then (start lib l fresh g).1 else g)
  on_call (stops k) past g = (ok tt, if k == h then stop lib l fresh g else g)
  on_call (polls k) past g =
      if k == h
      then poll lib l fresh (around.processes past) (around.windows past) g
      else (ok tt, g)
  on_call (quits k) past g = (ok tt, if k == h then quit lib l fresh g else g)
  on_call (logs text) past g = (ok tt, g)
  on_call (connects addr port) past g = (ok tt, g)

  -- What the calls of a history have done to it.
  abbrev pub run : History → Result (Unit {0}) × Global W C X
  run [] = (ok tt, none)
  run (c ∷ past) = continue (run past) (λ _ g. on_call c past (serve past g))

  abbrev IsThere : Option ℕ → Global W C X → Type 0
  IsThere p g = p ≡ some h → (r : Running W C X) × (g ≡ some r)

  IsThere-subst : (p q : Option ℕ) (g : Global W C X) → q ≡ p → IsThere p g → IsThere q g
  IsThere-subst p q g e v i = v (sym e ∙ i)

  serve-IsThere :
      (past : History) (p : Option ℕ) (g : Global W C X) → IsThere p g → IsThere p (serve past g)
  serve-IsThere past p none v e = absurd (let (r, f) = v e in cc)
  serve-IsThere past p (some r) v e = (around.serves past r, refl)

  start-there : (g : Global W C X) → (r : Running W C X) × ((start lib l fresh g).1 ≡ some r)
  unfolding start
  start-there g = (_, refl)

  control_exists-there :
      (w : Windows) (g : Global W C X)
      → (r : Running W C X) × ((control_exists lib l fresh w g).1 ≡ some r)
  unfolding control_exists
  control_exists-there w g = (_, refl)

  poll-there :
      (processes : Option (List Bytes)) (w : Windows) (g : Global W C X)
      → (r : Running W C X) × (g ≡ some r)
      → IsDefined (poll lib l fresh processes w g).0
        × ((r : Running W C X) × ((poll lib l fresh processes w g).1 ≡ some r))
  unfolding poll
  poll-there processes w none (r, e) = absurd cc
  poll-there processes w (some r) there = (poll-IsDefined lib processes w r.server, (_, refl))

  on_call-IsThere :
      (c : Call) (past : History) (p q : Option ℕ) (g : Global W C X)
      → allow c p ≡ some q
      → IsThere p g
      → IsDefined (on_call c past g).0 × IsThere q (on_call c past g).1
  on_call-IsThere (opens path r) past p q g e v = (inl refl, IsThere-subst p q g (cc) v)
  on_call-IsThere (logs text) past p q g e v = (inl refl, IsThere-subst p q g (cc) v)
  on_call-IsThere (connects addr port) past p q g e v = (inl refl, IsThere-subst p q g (cc) v)
  on_call-IsThere (asks k path) past p q g e v = elim (Bool-cases (k == h)) [
    | inl s ↦ simp s (inl refl, λ i. control_exists-there (around.windows past) g)
    | inr s ↦ simp s (inl refl, IsThere-subst p q g (cc) v)
  ]
  on_call-IsThere (starts k) past p q g e v = elim (Bool-cases (k == h)) [
    | inl s ↦ simp s (inl refl, λ i. start-there g)
    | inr s ↦ simp s (
      inl refl,
      λ i. let f = allow-starts k p q e in let n : k ≢ h = ground arith in absurd (n cc),
    )
  ]
  on_call-IsThere (stops k) past p q g e v =
      (inl refl, λ i. let f = allow-stops k p q e in absurd cc)
  on_call-IsThere (polls k) past p q g e v =
      let (f, same) = allow-polls k p q e in
      elim (Bool-cases (k == h)) [
        | inl s ↦
            (let n : k ≡ h = ground arith in
              let (d, t) =
                poll-there (around.processes past) (around.windows past) g (v (f ∙ ap some n)) in
              simp s (d, λ i. t))
        | inr s ↦ simp s (inl refl, IsThere-subst p q g same v)
      ]
  on_call-IsThere (quits k) past p q g e v =
      let (same, other) = allow-quits k p q e in
      elim (Bool-cases (k == h)) [
        | inl s ↦ (let n : k ≡ h = ground arith in simp s (inl refl, λ i. absurd (other cc)))
        | inr s ↦ simp s (inl refl, IsThere-subst p q g same v)
      ]
  on_call-IsThere (closes k) past p q g e v =
      let (same, other) = allow-closes k p q e in
      elim (Bool-cases (k == h)) [
        | inl s ↦ (let n : k ≡ h = ground arith in simp s (inl refl, λ i. absurd (other cc)))
        | inr s ↦ simp s (inl refl, IsThere-subst p q g same v)
      ]

  after_call :
      (c : Call) (past : History) (p q : Option ℕ) (r : Result (Unit {0}) × Global W C X)
      → allow c p ≡ some q
      → IsDefined r.0
      → (r.0 ≡ ok tt → IsThere p r.1)
      → let t = continue r (λ _ g. on_call c past (serve past g)) in
        IsDefined t.0 × (t.0 ≡ ok tt → IsThere q t.1)
  after_call c past p q (ok tt, g) e d v =
      let (d', v') =
        on_call-IsThere c past p q (serve past g) e (serve-IsThere past p g (v refl)) in
      (d', λ _. v')
  after_call c past p q (raised m, g) e d v = (d, λ f. absurd cc)
  after_call c past p q (undefined x, g) e d v = (d, λ f. absurd cc)

  run-IsThere :
      (past : History) (p : Option ℕ)
      → replay past ≡ some p
      → (((run past).0 ≡ ok tt) ⊎ ((run past).0 ≡ undefined unset_function))
        × ((run past).0 ≡ ok tt → p ≡ some h → (r : Running W C X) × ((run past).1 ≡ some r))
  run-IsThere [] p e = (inl refl, λ ran i. absurd (let f : none ≡ p = cc in cc))
  run-IsThere (c ∷ past) q e =
      let (p, before, allowed) = replay-split c past e in
      let (d, v) = run-IsThere past p before in after_call c past p q (run past) allowed d v

  -- While a client that keeps to the protocol of plugins runs this one, whatever it has called before, whatever
  -- the requests in between did to the server, and whatever is installed and runs on the computer: the library
  -- has not used a server that is not there. Either all calls had a defined behaviour, and the server is there
  -- for the next poll, or the server has called a function of cncapi.dll that is not set.
  pub run-there :
      (past : History)
      → replay past ≡ some (some h)
      → ((run past).0 ≡ undefined unset_function)
        ⊎ (((run past).0 ≡ ok tt) × (r : Running W C X) × ((run past).1 ≡ some r))
  run-there past e =
      let (d, there) = run-IsThere past (some h) e in
      elim d [ inl ran ↦ (let (r, e) = there ran refl in inr (ran, r, e)) | inr unset ↦ inl unset ]
