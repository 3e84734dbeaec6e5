-- ===== src/EdingCnc/Registry.antt =====
-- `LoadDll` and `GuiRunning` of drivers/EdingCNC402/EdingCNC.cpp: how the server finds the library and sees
-- that Eding CNC runs.
pub mod Laws
use cncremote.Prelude.{
  ℕ, zero as nat_zero, suc, ℤ, pos, ◌-◌, ◌+◌, ◌≡◌, refl, ltb_ℤ, sub_ℕ, ◌==◌, leb, Bool, true, false,
  not, ◌&&◌, ◌||◌, Bytes, codes, List, [], ◌∷◌, ◌++◌, map, take, get_elem?, Option, none, some,
  bytes_eq, is_empty, if◌then◌else◌, Bool-cases, inl, inr, arith, ◌≤ℤ◌,
}
use Prim.Native.String.{String}
use cncremote.EdingCnc.{Linkage, unset, linked, unloaded, Eding}

-- A key below the uninstall key as the calls for it answer: its name, whether it can be opened, and
-- its two values.
pub record SubKey : Type 0 where
  pub name : Bytes
  pub opens : Bool
  pub publisher : Option Bytes
  pub location : Option Bytes

-- The two paths of the uninstall key that are tried, each with its subkeys if it can be opened; a subkey
-- that cannot be enumerated is `none`.
pub record Registry : Type 0 where
  pub wow64 : Option (List (Option SubKey))
  pub native : Option (List (Option SubKey))

-- `keyName[6] - L'0'`; a name of six characters has the NUL there.
abbrev pub key_version : Bytes → ℤ
key_version name = elim (get_elem? name 6) [ none ↦ sub_ℕ 0 b'0' | some c ↦ sub_ℕ c b'0' ]

abbrev pub is_eding : SubKey → Bool
is_eding k =
    k.opens && (elim k.publisher [ none ↦ false | some p ↦ bytes_eq p (codes "EDING CNC B.V.") ])

abbrev pub is_cnc : SubKey → Bool
is_cnc k = bytes_eq (take 6 k.name) (codes "CNC4.0")

-- The version and the path so far.
abbrev pub Found : Type 0
Found = ℤ × Bytes

abbrev located : SubKey → Found → Found
located k f = elim k.location [ none ↦ f | some path ↦ (key_version k.name, path) ]

abbrev pub is_two : ℤ → Bool
is_two (pos n) = n == 2
is_two _ = false

-- A round of the loop over the subkeys, and whether it goes on.
abbrev pub look_at : SubKey → Found → Found × Bool
look_at k f =
    if not (is_cnc k)
    then (f, true)
    else if ltb_ℤ (key_version k.name) f.0
    then (f, true)
    else if not (is_eding k)
    then (f, true)
    else (let g = located k f in (g, not (is_two g.0)))

unfoldable pub search_keys : List (Option SubKey) → Found → Found
search_keys [] f = f
search_keys (none ∷ ks) f = search_keys ks f
search_keys (some k ∷ ks) f = elim (look_at k f).1 [
  | true ↦ search_keys ks (look_at k f).0
  | false ↦ (look_at k f).0
]

abbrev names : List String → List Bytes
names = map codes

-- The symbols that are looked up in a library of a version.
unfoldable pub symbols : ℤ → List Bytes
symbols version =
    names (
      "CncGetCurrentToolNumber" ∷ "CncGetBlocDelete" ∷ "CncGetWorkPosition"
      ∷ "CncGetMachinePosition" ∷ "CncGetPauseStatus" ∷ "CncGetSpindleStatus"
      ∷ "CncSetTrackingVelocity" ∷ "CncStartVelocityTracking" ∷ "CncStopTracking"
      ∷ "CncGetJointConfig" ∷ "CncGetToolData" ∷ "CncIsServerConnected" ∷ "CncConnectServer"
      ∷ "CncDisConnectServer" ∷ [])
    ++ (names (
          if ltb_ℤ version (pos 3)
          then "CncLoadJob" ∷ "CncGetCurInterpreterLine" ∷ []
          else "CncLoadJobW" ∷ "CncGetCurInterpreterLineNumber" ∷ [])
        ++ names (
            "CncLoadToolTable" ∷ "CncUpdateToolData" ∷ "CncGetState" ∷ "CncGetStateText"
            ∷ "CncGetCurExecLine" ∷ "CncGetJointStatus" ∷ "CncGetSimulationMode"
            ∷ "CncGetAllAxesHomed" ∷ "CncGetSingleStepMode" ∷ "CncGetActualFeedOverride"
            ∷ "CncGetActualFeed" ∷ "CncGetIOStatus" ∷ "CncGetCurrentMcodesText"
            ∷ "CncGetCurrentGcodesText" ∷ "CncRunSingleLine" ∷ "CncStartJog" ∷ "CncSetOutput"
            ∷ "CncSetFeedOverride" ∷ "CncRewindJob" ∷ "CncReset" ∷ "CncReset2"
            ∷ "CncGetTrackingStatus" ∷ "CncPauseJob" ∷ "CncRunOrResumeJob" ∷ "CncSetSimulationMode"
            ∷ "CncSingleStepMode" ∷ "CncEnableBlockDelete" ∷ "CncStopJog" ∷ "CncGetInput"
            ∷ "CncAbortJob" ∷ "CncGetEMStopActive" ∷ "CncMoveTo" ∷ "CncGetActualToolZOffset"
            ∷ "CncGetActualOriginOffset" ∷ "CncSetSpeedOverride" ∷ "CncGetOptionalStop"
            ∷ "CncGetBlocDelete" ∷ "CncGetOutput" ∷ "CncInMillimeterMode" ∷ "CncGetProgrammedFeed"
            ∷ "CncGetCurrentToolNumber" ∷ "CncGetCurrentGcodeSettingsText" ∷ "CncEnableOptionalStop"
            ∷ "CncLogFifoGet" ∷ "CncGraphFifoGet" ∷ "CncStartRenderGraph" ∷ "CncGetMotionStatus"
            ∷ []))

abbrev pub all : (Bytes → Bool) → List Bytes → Bool
all p [] = true
all p (s ∷ ss) = p s && all p ss

-- What Windows gives: the registry, whether a library can be loaded, and whether it has a symbol.
pub record Windows : Type 0 where
  pub registry : Registry
  pub loads : Bytes → Bool
  pub has : Bytes → Bytes → Bool

abbrev first_key : Registry → Option (List (Option SubKey))
first_key r = elim r.wow64 [ none ↦ r.native | some ks ↦ some ks ]

abbrev pub keys : Registry → List (Option SubKey)
keys r = elim (first_key r) [ none ↦ [] | some ks ↦ ks ]

-- The version and the path of the library that is loaded; the path is empty if there is none.
unfoldable pub find_dll : Registry → Found
unfolding search_keys
find_dll r = search_keys (keys r) (pos 0, [])

abbrev pub dll_path : Found → Bytes
dll_path f = f.1 ++ codes "cncapi.dll"

abbrev pub has_all : Windows → Found → Bool
has_all w f = all (w.has (dll_path f)) (symbols f.0)

abbrev pub is_loaded : Linkage → Bool
is_loaded unset = false
is_loaded _ = true

module _ {W C : Type 0} where
  -- The symbols are set one by one, and the library is unloaded again if one is missing.
  abbrev link : Windows → Found → Eding W C → Bool × Eding W C
  link w f e = (
    has_all w f,
    record e {
      linkage = if has_all w f then linked else unloaded;
      tracking = w.has (dll_path f) (codes "CncStartVelocityTracking");
    },
  )

  abbrev load_found : Windows → Found → Eding W C → Bool × Eding W C
  load_found w f e =
      if is_empty f.1
      then (false, e)
      else if not (w.loads (dll_path f))
      then (false, e)
      else link w f e

  -- `LoadDll`
  unfoldable pub load_dll : Windows → Eding W C → Bool × Eding W C
  unfolding find_dll symbols
  load_dll w e = if is_loaded e.linkage then (true, e) else load_found w (find_dll w.registry) e

-- `GuiRunning` over the names of the running processes, `none` if there is no snapshot. The two lowest
-- bits of `found` are kept apart.
abbrev lower : ℕ → ℕ
lower c = if leb b'A' c && leb c b'Z' then c + 32 else c

abbrev same_name : Bytes → Bytes → Bool
same_name s t = bytes_eq (map lower s) (map lower t)

abbrev pub is_gui : Bytes → Bool
is_gui name = same_name name (codes "usbcnc.exe") || same_name name (codes "cnc.exe")

abbrev pub is_cnc_server : Bytes → Bool
is_cnc_server name = same_name name (codes "CncServer.exe")

unfoldable pub scan : List Bytes → Bool → Bool → Bool
scan [] gui server = false
scan (p ∷ ps) gui server =
    let rest = scan ps (gui || is_gui p) (server || is_cnc_server p) in
    if (gui || is_gui p) && (server || is_cnc_server p) then true else rest

unfoldable pub gui_running : Option (List Bytes) → Bool
unfolding scan
gui_running none = false
gui_running (some ps) = scan ps false false
