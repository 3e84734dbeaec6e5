-- ===== src/Client/Plugins/Laws.antt =====
-- What is proved of the client's plugins (src/cncclient.cpp), against the protocol of include/cncplugin.h.
use cncremote.Prelude.{
  ℕ, zero as nat_zero, suc, ◌+◌, ◌==◌, ==_refl, ◌≡◌, refl, Bool, true, false, Bytes, codes, List,
  [], ◌∷◌, ◌++◌, Option, none, some, get_elem?, is_empty, arith, if◌then◌else◌,
}
use cncremote.Client.Plugins.{
  Call, opens, closes, starts, stops, polls, quits, connects, History, Plugged, stopped, polled,
  start_plugin, connected, chosen, select, calls, disconnect, connect,
}

-- The plugin that runs after a call, `none` if the call breaks the protocol: a plugin is started when none runs,
-- stopped and polled while it runs, and told to quit and unloaded while it does not.
abbrev pub allow : Call → Option ℕ → Option (Option ℕ)
allow (starts h) none = some (some h)
allow (starts h) (some k) = none
allow (stops h) none = none
allow (stops h) (some k) = if k == h then some none else none
allow (polls h) none = none
allow (polls h) (some k) = if k == h then some (some k) else none
allow (quits h) none = some none
allow (quits h) (some k) = if k == h then none else some (some k)
allow (closes h) none = some none
allow (closes h) (some k) = if k == h then none else some (some k)
allow _ r = some r

abbrev pub replay : History → Option (Option ℕ)
replay [] = some none
replay (c ∷ cs) = elim (replay cs) [ none ↦ none | some r ↦ allow c r ]

abbrev pub one : Bool → ℕ
one true = 1
one false = 0

abbrev pub times : (Call → ℕ) → History → ℕ
times f [] = 0
times f (c ∷ cs) = f c + times f cs

abbrev pub opening : ℕ → Call → ℕ
opening h (opens path (some k)) = one (k == h)
opening h _ = 0

abbrev pub closing : ℕ → Call → ℕ
closing h (closes k) = one (k == h)
closing h _ = 0

abbrev pub quitting : ℕ → Call → ℕ
quitting h (quits k) = one (k == h)
quitting h _ = 0

abbrev pub occurs : ℕ → List ℕ → ℕ
occurs h [] = 0
occurs h (k ∷ ks) = one (k == h) + occurs h ks

-- All calls kept to the protocol, and the plugin that runs is the one chosen; a library is open as often as it is
-- among the plugins, and none has been told to quit; without plugins none is chosen.
pub record IsOrderly (s : Plugged) : Type 0 where
  pub accepted : replay s.history ≡ some s.plugin
  pub balanced :
      (h : ℕ) → times (opening h) s.history ≡ times (closing h) s.history + occurs h s.plugins
  pub lasting : (h : ℕ) → times (quitting h) s.history ≡ 0
  pub idle : is_empty s.plugins ≡ true → s.plugin ≡ none

pub occurs-append :
    (h : ℕ) (ks : List ℕ) (k : ℕ) → occurs h (ks ++ k ∷ []) ≡ occurs h ks + one (k == h)
occurs-append h [] k = omega arith
occurs-append h (j ∷ ks) k = omega (arith, occurs-append h ks k)

-- A call that neither loads nor unloads a library.
abbrev pub IsQuiet : Call → Type 0
IsQuiet c = (h : ℕ) → (opening h c ≡ 0) × (closing h c ≡ 0) × (quitting h c ≡ 0)

pub quiet-IsOrderly :
    (c : Call) (p : Option ℕ) (s : Plugged)
    → IsQuiet c
    → allow c s.plugin ≡ some p
    → (is_empty s.plugins ≡ true → p ≡ none)
    → IsOrderly s
    → IsOrderly (record (calls c s) { plugin = p })
quiet-IsOrderly c p s quiet allowed idle v = record {
  accepted = simp (v.accepted, allowed) refl;
  balanced = λ h. omega (arith, v.balanced h, (quiet h).0, (quiet h).1);
  lasting = λ h. omega (arith, v.lasting h, (quiet h).2);
  idle = idle;
}

stopped-IsOrderly :
    (p : Option ℕ) (s : Plugged) → s.plugin ≡ p → IsOrderly s → IsOrderly (stopped p s)
stopped-IsOrderly none s e v = v
stopped-IsOrderly (some k) s e v =
    quiet-IsOrderly (stops k) none s (λ h. (refl, refl, refl)) (simp (e, ==_refl k) refl)
      (λ h. refl) v

pub disconnect-IsOrderly : (s : Plugged) → IsOrderly s → IsOrderly (disconnect s)
unfolding disconnect
disconnect-IsOrderly s v = stopped-IsOrderly s.plugin s refl v

pub stopped-plugin :
    (p : Option ℕ) (s : Plugged)
    → s.plugin ≡ p
    → ((stopped p s).plugin ≡ none) × ((stopped p s).plugins ≡ s.plugins)
stopped-plugin none s e = (e, refl)
stopped-plugin (some k) s e = (refl, refl)

pub polled-IsOrderly :
    (p : Option ℕ) (s : Plugged) → s.plugin ≡ p → IsOrderly s → IsOrderly (polled p s)
polled-IsOrderly none s e v = v
polled-IsOrderly (some k) s e v =
    quiet-IsOrderly (polls k) s.plugin s (λ h. (refl, refl, refl)) (simp (e, ==_refl k) refl) v.idle
      v

-- A socket is made and connected, which the protocol does not speak of.
connected-IsOrderly :
    (addr : Bytes) (port : ℕ) (s : Plugged) → IsOrderly s → IsOrderly (connected addr port s).1
connected-IsOrderly addr port s v =
    quiet-IsOrderly (connects addr port) s.plugin s (λ h. (refl, refl, refl)) refl v.idle v

start_plugin-IsOrderly :
    (h : ℕ) (s : Plugged)
    → s.plugin ≡ none
    → is_empty s.plugins ≡ false
    → IsOrderly s
    → IsOrderly (start_plugin h s)
start_plugin-IsOrderly h s free there v =
    quiet-IsOrderly (starts h) (some h) s (λ k. (refl, refl, refl)) (simp free refl)
      (λ e. absurd cc) v

get_elem?-there :
    {A : Type 0} (xs : List A) (i : ℕ) {a : A} → get_elem? xs i ≡ some a → is_empty xs ≡ false
get_elem?-there [] i e = absurd cc
get_elem?-there (x ∷ xs) i e = refl

chosen-IsOrderly :
    (r : Option ℕ) (port : ℕ) (s : Plugged)
    → s.plugin ≡ none
    → ((h : ℕ) → r ≡ some h → is_empty s.plugins ≡ false)
    → IsOrderly s
    → IsOrderly (chosen r port s).1
chosen-IsOrderly none port s free there v = v
chosen-IsOrderly (some h) port s free there v =
    connected-IsOrderly (codes "127.0.0.1") port (start_plugin h s)
      (start_plugin-IsOrderly h s free (there h refl) v)

select-IsOrderly :
    (index : ℕ) (addr : Bytes) (port : ℕ) (s : Plugged)
    → s.plugin ≡ none
    → IsOrderly s
    → IsOrderly (select index addr port s).1
select-IsOrderly nat_zero addr port s free v = connected-IsOrderly addr port s v
select-IsOrderly (suc i) addr port s free v =
    chosen-IsOrderly (get_elem? s.plugins i) port s free (λ h e. get_elem?-there s.plugins i e) v

pub connect-IsOrderly :
    (index : ℕ) (addr : Bytes) (port : ℕ) (s : Plugged)
    → IsOrderly s
    → IsOrderly (connect index addr port s).1
unfolding connect disconnect
connect-IsOrderly index addr port s v =
    select-IsOrderly index addr port (disconnect s) (stopped-plugin s.plugin s refl).0
      (disconnect-IsOrderly s v)
