-- ===== src/LinuxCnc/Settings.antt =====
-- `IniLoad` of drivers/linuxcnc/server/linuxcnc.cpp, which nothing in the repository calls.
use cncremote.Prelude.{
  ℕ, ℤ, pos, negsuc, leb, ◌<◌, ◌≡◌, refl, false, Bytes, codes, bytes_eq, Option, none, some, Exec,
  ok, undefined, buffer_overflow, length, if◌then◌else◌, arith,
}

-- LINEAR_UNIT_CONVERSION
pub data LinearUnits : Type 0 where
  units_custom units_auto units_mm units_inch units_cm : LinearUnits

-- What is read: `emc_debug`, `emc_nmlfile` and `m_linearUnitConversion`.
pub record Settings : Type 0 where
  pub debug : ℤ
  pub nml_file : Bytes
  pub units : LinearUnits

-- An ini file that could be opened: the value of a tag in a section; and what `sscanf` makes of a text with "%i".
pub record IniFile : Type 0 where
  pub find : Bytes → Bytes → Option Bytes
  pub scan : Bytes → Option ℤ

abbrev units_of : Option Bytes → LinearUnits → LinearUnits
units_of none old = old
units_of (some text) old =
    if bytes_eq text (codes "AUTO")
    then units_auto
    else if bytes_eq text (codes "INCH")
    then units_inch
    else if bytes_eq text (codes "MM")
    then units_mm
    else if bytes_eq text (codes "CM")
    then units_cm
    else old

abbrev debug_of : IniFile → ℤ
debug_of ini = elim (ini.find (codes "DEBUG") (codes "EMC")) [
  | none ↦ pos 0
  | some text ↦ elim (ini.scan text) [ none ↦ pos 0 | some n ↦ n ]
]

abbrev with_units : IniFile → Settings → Settings
with_units ini s = record s {
  units = units_of (ini.find (codes "LINEAR_UNITS") (codes "DISPLAY")) s.units;
}

-- `strcpy` into an array of `size` bytes.
abbrev copied : ℕ → IniFile → Option Bytes → Exec Settings ℤ
copied size ini none s = (ok (pos 0), with_units ini s)
copied size ini (some name) s =
    if leb size (length name)
    then (undefined buffer_overflow, s)
    else (ok (pos 0), with_units ini (record s { nml_file = name }))

-- `IniLoad`, with the size of `emc_nmlfile`.
unfoldable pub ini_load : ℕ → Option IniFile → Exec Settings ℤ
ini_load size none s = (ok (negsuc 0), s)
ini_load size (some ini) s =
    copied size ini (ini.find (codes "NML_FILE") (codes "EMC")) (record s { debug = debug_of ini })

-- A file whose name of the NML file fits is read to its end; what it does not set, but for the debug flags, stays
-- as it was.
ini_load-fits :
    (size : ℕ) (ini : IniFile) (name : Bytes) (s : Settings)
    → ini.find (codes "NML_FILE") (codes "EMC") ≡ some name
    → length name < size
    → ini.find (codes "LINEAR_UNITS") (codes "DISPLAY") ≡ none
    → ini_load size (some ini) s
      ≡ (ok (pos 0), record { debug = debug_of ini; nml_file = name; units = s.units })
unfolding ini_load
ini_load-fits size ini name s named fits unset =
    let short : leb size (length name) ≡ false = ground arith in simp (named, short, unset) refl
