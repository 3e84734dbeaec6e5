-- ===== src/Client/Plugins/Loading.antt =====
-- Which plugins `LoadPlugins` keeps (src/cncclient.cpp).
use cncremote.Prelude.{
  ℕ, ◌≡◌, Bool, ◌&&◌, Bytes, codes, List, [], ◌∷◌, ◌++◌, Option, none, some, if◌then◌else◌,
}
use cncremote.Client.Plugins.{History, Entry, Outside, has_symbols}

-- The libraries answer the same whatever was called before.
pub record IsSteady (o : Outside) : Type 0 where
  pub load : (name : Bytes) (past : History) → o.load name past ≡ o.load name []
  pub has : (h : ℕ) (symbol : Bytes) (past : History) → o.has h symbol past ≡ o.has h symbol []
  pub exists : (h : ℕ) (path : Bytes) (past : History) → o.exists h path past ≡ o.exists h path []

module _ (o : Outside) where
  abbrev is_usable : Bytes → ℕ → Bool
  is_usable path h = has_symbols o h [] && o.exists h (path ++ codes "/") []

  abbrev usable : Bytes → Option ℕ → List ℕ
  usable path none = []
  usable path (some h) = if is_usable path h then h ∷ [] else []

  abbrev pub found : Bytes → Entry → List ℕ
  found path e = if e.is_file then usable path (o.load (path ++ codes "/" ++ e.name) []) else []

  -- The libraries among a directory's entries that have all symbols and whose control exists.
  abbrev pub kept : Bytes → List Entry → List ℕ
  kept path [] = []
  kept path (e ∷ es) = found path e ++ kept path es
