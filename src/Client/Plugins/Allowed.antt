-- ===== src/Client/Plugins/Allowed.antt =====
-- What a call says of the plugin that runs, if the protocol of plugins allows it (include/cncplugin.h).
use cncremote.Prelude.{
  ℕ, ◌≡◌, ◌≢◌, refl, sym, ◌∙◌, inl, inr, ◌∷◌, Option, none, some, Option-cases, arith,
}
use cncremote.Client.Plugins.{Call, closes, starts, stops, polls, quits, History}
use cncremote.Client.Plugins.Laws.{allow, replay}

pub allow-polls : (k : ℕ) (p q : Option ℕ) → allow (polls k) p ≡ some q → (p ≡ some k) × (q ≡ p)
allow-polls k none q e = absurd cc
allow-polls k (some j) q e = grind arith

pub allow-quits : (k : ℕ) (p q : Option ℕ) → allow (quits k) p ≡ some q → (q ≡ p) × (p ≢ some k)
allow-quits k none q e = grind arith
allow-quits k (some j) q e = grind arith

pub allow-stops : (k : ℕ) (p q : Option ℕ) → allow (stops k) p ≡ some q → q ≡ none
allow-stops k none q e = absurd cc
allow-stops k (some j) q e = grind arith

pub allow-closes : (k : ℕ) (p q : Option ℕ) → allow (closes k) p ≡ some q → (q ≡ p) × (p ≢ some k)
allow-closes k none q e = grind arith
allow-closes k (some j) q e = grind arith

pub allow-starts : (k : ℕ) (p q : Option ℕ) → allow (starts k) p ≡ some q → q ≡ some k
allow-starts k none q e = grind arith
allow-starts k (some j) q e = absurd cc

pub replay-split :
    (c : Call) (past : History) {q : Option ℕ}
    → replay (c ∷ past) ≡ some q
    → (p : Option ℕ) × (replay past ≡ some p) × (allow c p ≡ some q)
replay-split c past e = elim (Option-cases (replay past)) [
  | inl n ↦ (let a : replay (c ∷ past) ≡ none = simp n refl in absurd cc)
  | inr (p, n) ↦ (let a : replay (c ∷ past) ≡ allow c p = simp n refl in (p, n, sym a ∙ e))
]
