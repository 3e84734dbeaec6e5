-- ===== src/Client/Plugins/Sessions.antt =====
-- A whole session of a client with plugins (src/cncclient.cpp).
use cncremote.Prelude.{
  ℕ, ◌+◌, ◌≡◌, refl, ap, ◌∙◌, Bool, Bytes, codes, List, [], ◌∷◌, ◌++◌, Option, none, some, is_empty,
  arith, Bool-cases, inl, inr,
}
use cncremote.Client.Plugins.{
  opens, closes, Entry, Outside, Plugged, new_plugged, calls, disconnect, connect, poll_plugin,
  has_symbols, ask, take_library, look_at, look_all, load_from, load_plugins, drop_plugin, drop_all,
  destroy,
}
use cncremote.Client.Plugins.Laws.{
  replay, times, opening, closing, quitting, occurs, IsOrderly, disconnect-IsOrderly,
  connect-IsOrderly, polled-IsOrderly, occurs-append, stopped-plugin,
}

-- A loading of plugins under way: no plugin runs.
record IsLoading (s : Plugged) : Type 0 where
  orderly : IsOrderly s
  free : s.plugin ≡ none

-- What an application does with the plugins.
pub data Act : Type 0 where
  loads : Bytes → Bool → Act
  joins : ℕ → Bytes → ℕ → Act
  leaves : Act
  waits : Act

module _ (o : Outside) where
  abbrev opened : Bytes → ℕ → Plugged → Plugged
  opened name h s = calls (opens name (some h)) s

  rejected-IsLoading :
      (name : Bytes) (h : ℕ) (s : Plugged)
      → IsLoading s
      → IsLoading (calls (closes h) (opened name h s))
  rejected-IsLoading name h s v = record {
    orderly = record {
      accepted = simp (v.orderly.accepted, v.free) refl;
      balanced = λ k. omega (arith, v.orderly.balanced k);
      lasting = λ k. omega (arith, v.orderly.lasting k);
      idle = λ e. v.free;
    };
    free = v.free;
  }

  asked-IsLoading :
      (name path : Bytes) (h : ℕ) (s : Plugged)
      → IsLoading s
      → IsLoading (ask o h path (opened name h s))
  asked-IsLoading name path h s v =
      elim (Bool-cases (o.exists h (path ++ codes "/") (opened name h s).history)) [
        | inl e ↦ simp e (record {
          orderly = record {
            accepted = simp (v.orderly.accepted, v.free) refl;
            balanced = λ k. omega (arith, v.orderly.balanced k, occurs-append k s.plugins h);
            lasting = λ k. omega (arith, v.orderly.lasting k);
            idle = λ e. v.free;
          };
          free = v.free;
        })
        | inr e ↦ simp e (record {
          orderly = record {
            accepted = simp (v.orderly.accepted, v.free) refl;
            balanced = λ k. omega (arith, v.orderly.balanced k);
            lasting = λ k. omega (arith, v.orderly.lasting k);
            idle = λ e. v.free;
          };
          free = v.free;
        })
      ]

  take_library-IsLoading :
      (path name : Bytes) (r : Option ℕ) (s : Plugged)
      → IsLoading s
      → IsLoading (take_library o path name r s)
  take_library-IsLoading path name none s v = record {
    orderly = record {
      accepted = simp (v.orderly.accepted, v.free) refl;
      balanced = λ k. omega (arith, v.orderly.balanced k);
      lasting = λ k. omega (arith, v.orderly.lasting k);
      idle = λ e. v.free;
    };
    free = v.free;
  }
  take_library-IsLoading path name (some h) s v =
      elim (Bool-cases (has_symbols o h (opened name h s).history)) [
        | inl e ↦ simp e (asked-IsLoading name path h s v)
        | inr e ↦ simp e (rejected-IsLoading name h s v)
      ]

  look_at-IsLoading :
      (path : Bytes) (e : Entry) (s : Plugged) → IsLoading s → IsLoading (look_at o path e s)
  unfolding look_at
  look_at-IsLoading path e s v = elim (Bool-cases e.is_file) [
    | inl f ↦
        simp (look_at, f)
          (take_library-IsLoading path (path ++ codes "/" ++ e.name)
            (o.load (path ++ codes "/" ++ e.name) s.history) s v)
    | inr f ↦ simp (look_at, f) v
  ]

  look_all-IsLoading :
      (path : Bytes) (es : List Entry) (s : Plugged)
      → IsLoading s
      → IsLoading (look_all o path es s)
  unfolding look_all
  look_all-IsLoading path [] s v = v
  look_all-IsLoading path (e ∷ es) s v =
      look_all-IsLoading path es (look_at o path e s) (look_at-IsLoading path e s v)

  load_from-IsOrderly :
      (path : Bytes) (r : Option (List Entry)) (s : Plugged)
      → IsLoading s
      → IsOrderly (load_from o path r s).1
  load_from-IsOrderly path none s v = v.orderly
  load_from-IsOrderly path (some []) s v = v.orderly
  load_from-IsOrderly path (some (e ∷ es)) s v = (look_all-IsLoading path (e ∷ es) s v).orderly

  load_plugins-IsOrderly :
      (path : Bytes) (has_log : Bool) (s : Plugged)
      → IsOrderly s
      → IsOrderly (load_plugins o path has_log s).1
  unfolding load_plugins
  load_plugins-IsOrderly path has_log s v = elim (Bool-cases (is_empty s.plugins)) [
    | inr e ↦ simp (load_plugins, e) v
    | inl e ↦ elim (Bool-cases has_log) [
      | inr l ↦ simp (load_plugins, e, l) v
      | inl l ↦
          simp (load_plugins, e, l)
            (load_from-IsOrderly path (o.entries path s.history) s
              (record { orderly = v; free = v.idle e }))
    ]
  ]

  abbrev pub act : Act → Plugged → Plugged
  act (loads path has_log) s = (load_plugins o path has_log s).1
  act (joins index addr port) s = (connect index addr port s).1
  act leaves s = disconnect s
  act waits s = poll_plugin s

  abbrev pub acts : List Act → Plugged → Plugged
  acts [] s = s
  acts (a ∷ more) s = acts more (act a s)

  act-IsOrderly : (a : Act) (s : Plugged) → IsOrderly s → IsOrderly (act a s)
  unfolding poll_plugin
  act-IsOrderly (loads path has_log) s v = load_plugins-IsOrderly path has_log s v
  act-IsOrderly (joins index addr port) s v = connect-IsOrderly index addr port s v
  act-IsOrderly leaves s v = disconnect-IsOrderly s v
  act-IsOrderly waits s v = polled-IsOrderly s.plugin s refl v

  kept-IsOrderly : (more : List Act) (s : Plugged) → IsOrderly s → IsOrderly (acts more s)
  kept-IsOrderly [] s v = v
  kept-IsOrderly (a ∷ more) s v = kept-IsOrderly more (act a s) (act-IsOrderly a s v)

  -- Whatever an application does with a new client, in any order, and whatever the libraries answer: a plugin is
  -- started only when none runs, stopped and polled only while it runs, and unloaded only while it does
  -- not; the plugin that runs is the one chosen; and a library is loaded as often as it is among the plugins,
  -- beyond how often it was unloaded.
  pub acts-IsOrderly : (more : List Act) → IsOrderly (acts more new_plugged)
  acts-IsOrderly more =
      kept-IsOrderly more new_plugged
        (record { accepted = refl; balanced = λ h. refl; lasting = λ h. refl; idle = λ e. refl })

-- How far the protocol has come when the plugins `hs` were dropped after `s`.
record IsDropped (hs : List ℕ) (s t : Plugged) : Type 0 where
  accepted : replay t.history ≡ some none
  open_as : (h : ℕ) → times (opening h) t.history ≡ times (opening h) s.history
  closed : (h : ℕ) → times (closing h) t.history ≡ occurs h hs + times (closing h) s.history
  quit : (h : ℕ) → times (quitting h) t.history ≡ occurs h hs + times (quitting h) s.history

drop_all-IsDropped :
    (hs : List ℕ) (s : Plugged) → replay s.history ≡ some none → IsDropped hs s (drop_all hs s)
unfolding drop_all
drop_all-IsDropped [] s free = record {
  accepted = free;
  open_as = λ h. refl;
  closed = λ h. omega arith;
  quit = λ h. omega arith;
}
drop_all-IsDropped (k ∷ ks) s free =
    let v = drop_all-IsDropped ks (drop_plugin k s) (simp free refl) in
    record {
      accepted = v.accepted;
      open_as = λ h. omega (arith, v.open_as h);
      closed = λ h. omega (arith, v.closed h);
      quit = λ h. omega (arith, v.quit h);
    }

disconnected : (s : Plugged) → ((disconnect s).plugin ≡ none) × ((disconnect s).plugins ≡ s.plugins)
unfolding disconnect
disconnected s = stopped-plugin s.plugin s refl

-- When the client ends after whatever was done with it, no plugin runs and every library has been unloaded as often
-- as it was loaded; each plugin was told to quit, once for each time that it was kept, and no other library.
pub destroy-closes :
    (o : Outside) (more : List Act)
    → let s = acts o more new_plugged in
      (replay (destroy s).history ≡ some none)
      × ((h : ℕ) → times (opening h) (destroy s).history ≡ times (closing h) (destroy s).history)
      × ((h : ℕ) → times (quitting h) (destroy s).history ≡ occurs h s.plugins)
unfolding destroy
destroy-closes o more =
    let s : Plugged = acts o more new_plugged in
    let v : IsOrderly s = acts-IsOrderly o more in
    let u : IsOrderly (disconnect s) = disconnect-IsOrderly s v in
    let (free, same) = disconnected s in
    let t = drop_all-IsDropped s.plugins (disconnect s) (u.accepted ∙ ap some free) in
    (
      t.accepted,
      λ h. omega (arith, t.open_as h, t.closed h, u.balanced h, ap (occurs h) same),
      λ h. omega (arith, t.quit h, u.lasting h),
    )
