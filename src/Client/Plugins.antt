-- ===== src/Client/Plugins.antt =====
-- The plugins of the client (`LoadPlugins`, `Connect`, `Disconnect`, `Poll` and the destructor of src/cncclient.cpp,
-- in the build with USE_PLUGINS for unix). A library is known by its handle; what is called outside is kept as
-- a history, the last call first, on which the outside's answers depend.
pub mod Laws
pub mod Sessions
pub mod Loading
pub mod Allowed
use cncremote.Prelude.{
  ℕ, zero as nat_zero, suc, ltb, ◌-◌, Bool, true, false, not, ◌&&◌, Bytes, codes, List, [], ◌∷◌,
  ◌++◌, Option, none, some, get_elem?, length, is_empty, if◌then◌else◌,
}

-- The calls that have an effect outside. `opens path none` is a `dlopen` that fails.
pub data Call : Type 0 where
  opens : Bytes → Option ℕ → Call
  closes : ℕ → Call
  asks : ℕ → Bytes → Call
  starts : ℕ → Call
  stops : ℕ → Call
  polls : ℕ → Call
  quits : ℕ → Call
  logs : Bytes → Call
  connects : Bytes → ℕ → Call

abbrev pub History : Type 0
History = List Call

-- An entry of a directory; `is_file` if its type is DT_REG.
pub record Entry : Type 0 where
  pub is_file : Bool
  pub name : Bytes

-- The answers: the entries of a directory, if it can be opened; the handle of a library, if it can be loaded, and
-- the text of the error; whether a library has a symbol; and what its `ControlExists` returns.
pub record Outside : Type 0 where
  pub entries : Bytes → History → Option (List Entry)
  pub load : Bytes → History → Option ℕ
  pub error : History → Bytes
  pub has : ℕ → Bytes → History → Bool
  pub exists : ℕ → Bytes → History → Bool

-- `m_plugins` and `m_plugin`, which points into it, by their handles.
pub record Plugged : Type 0 where
  pub plugins : List ℕ
  pub plugin : Option ℕ
  pub history : History

abbrev pub new_plugged : Plugged
new_plugged = record { plugins = []; plugin = none; history = [] }

abbrev pub calls : Call → Plugged → Plugged
calls call s = record s { history = call ∷ history }
  where
    open s use {history}

abbrev pub stopped : Option ℕ → Plugged → Plugged
stopped none s = s
stopped (some h) s = record (calls (stops h) s) { plugin = none }

-- `Disconnect`
unfoldable pub disconnect : Plugged → Plugged
disconnect s = stopped s.plugin s

abbrev pub start_plugin : ℕ → Plugged → Plugged
start_plugin h s = record (calls (starts h) s) { plugin = some h }

abbrev pub connected : Bytes → ℕ → Plugged → Bool × Plugged
connected addr port s = (true, calls (connects addr port) s)

abbrev pub chosen : Option ℕ → ℕ → Plugged → Bool × Plugged
chosen none port s = (false, s)
chosen (some h) port s = connected (codes "127.0.0.1") port (start_plugin h s)

abbrev pub select : ℕ → Bytes → ℕ → Plugged → Bool × Plugged
select nat_zero addr port s = connected addr port s
select (suc i) addr port s = chosen (get_elem? s.plugins i) port s

-- `Connect`
unfoldable pub connect : ℕ → Bytes → ℕ → Plugged → Bool × Plugged
unfolding disconnect
connect index addr port s = select index addr port (disconnect s)

abbrev pub polled : Option ℕ → Plugged → Plugged
polled none s = s
polled (some h) s = calls (polls h) s

-- What `Poll` does with the plugin, before all else.
unfoldable pub poll_plugin : Plugged → Plugged
poll_plugin s = polled s.plugin s

module _ (o : Outside) where
  abbrev pub has_symbols : ℕ → History → Bool
  has_symbols h past =
      o.has h (codes "Start") past
      && o.has h (codes "Stop") past
      && o.has h (codes "GetName") past
      && o.has h (codes "Quit") past
      && o.has h (codes "Poll") past
      && o.has h (codes "ControlExists") past

  abbrev pub keep : ℕ → Plugged → Plugged
  keep h s = record s { plugins = plugins ++ h ∷ [] }
    where
      open s use {plugins}

  -- `plg.ControlExists(…)`, which is only called if no symbol is missing.
  abbrev pub ask : ℕ → Bytes → Plugged → Plugged
  ask h path s =
      let s' = calls (asks h (path ++ codes "/")) s in
      if o.exists h (path ++ codes "/") s.history then keep h s' else calls (closes h) s'

  abbrev pub take_library : Bytes → Bytes → Option ℕ → Plugged → Plugged
  take_library path name none s =
      let s' = calls (opens name none) s in calls (logs (o.error s'.history)) s'
  take_library path name (some h) s =
      let s' = calls (opens name (some h)) s in
      if has_symbols h s'.history then ask h path s' else calls (closes h) s'

  -- A round of the loop over the entries.
  unfoldable pub look_at : Bytes → Entry → Plugged → Plugged
  look_at path e s =
      let name = path ++ codes "/" ++ e.name in
      if e.is_file then take_library path name (o.load name s.history) s else s

  unfoldable pub look_all : Bytes → List Entry → Plugged → Plugged
  unfolding look_at
  look_all path [] s = s
  look_all path (e ∷ es) s = look_all path es (look_at path e s)

  abbrev pub load_from : Bytes → Option (List Entry) → Plugged → Bool × Plugged
  load_from path none s = (false, s)
  load_from path (some []) s = (false, s)
  load_from path (some (e ∷ es)) s = (true, look_all path (e ∷ es) s)

  -- `LoadPlugins`; `has_log` unless `logFunc` is NULL.
  unfoldable pub load_plugins : Bytes → Bool → Plugged → Bool × Plugged
  unfolding look_all
  load_plugins path has_log s =
      if not (is_empty s.plugins)
      then (true, s)
      else if not has_log
      then (false, s)
      else load_from path (o.entries path s.history) s

abbrev pub drop_plugin : ℕ → Plugged → Plugged
drop_plugin h s = calls (closes h) (calls (quits h) s)

unfoldable pub drop_all : List ℕ → Plugged → Plugged
drop_all [] s = s
drop_all (h ∷ hs) s = drop_all hs (drop_plugin h s)

-- `Client::~Client`
unfoldable pub destroy : Plugged → Plugged
unfolding disconnect drop_all
destroy s = record (drop_all s.plugins (disconnect s)) { plugins = [] }
