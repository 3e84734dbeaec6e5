-- ===== src/Comms/Messages.antt =====
-- The messages of include/cnccomms.h on the wire: `Axes`, `BoolAxes`, `PreviewAxes`, `ExceptionData` and the two arguments of a call.
use cncremote.Prelude.{ℤ, refl, ap, ◌≡◌, List, [], ◌∷◌, Option, none, some, Bool, map}
use cncremote.Comms.{PreviewAxes, PreviewType, ExceptionData}
use cncremote.Comms.Arithmetic.{Double}
use cncremote.Comms.Vectors.{Axes, zero, bool_zero}
use cncremote.Comms.Wire.{Codec, Wire, ◌>>=◌, member, member-pack, pack_six, unpack_six, six-pack}

-- MSGPACK_DEFINE_ARRAY(array): an array whose one element is the array of the six values.
module _ {Any A : Type 0} (list : Codec Any (List Any)) (c : Codec Any A) (blank : Axes A) where
  pub pack_axes : Axes A → Any
  pack_axes v = list.pack (list.pack (pack_six c v) ∷ [])

  abbrev inner : Option (List Any × List Any) → Option (Axes A)
  inner none = none
  inner (some (es, rest)) = unpack_six c es blank

  pub unpack_axes : Any → Option (Axes A)
  unpack_axes e = do outer ← list.unpack e; inner (member list outer [])

  pub axes-pack : (v : Axes A) → unpack_axes (pack_axes v) ≡ some v
  unfolding pack_axes unpack_axes
  axes-pack v =
      rw (list.unpack-pack (list.pack (pack_six c v) ∷ []), member-pack list (pack_six c v) [] [])
        (six-pack c v blank)

  unfoldable pub axes_codec : Codec Any (Axes A)
  axes_codec = record { pack = pack_axes; unpack = unpack_axes; unpack-pack = axes-pack }

module _ {W : Type 0} (w : Wire W) where
  -- MSGPACK_DEFINE_MAP(message, function)
  unfoldable pub pack_exception : ExceptionData → w.Any
  pack_exception e = (w.pair w.text w.text).pack (e.message, e.function)

  unfoldable pub unpack_exception : w.Any → Option ExceptionData
  unpack_exception e = do
    (message, function) ← (w.pair w.text w.text).unpack e
    some (record { message = message; function = function })

  pub exception-pack : (e : ExceptionData) → unpack_exception (pack_exception e) ≡ some e
  unfolding pack_exception unpack_exception
  exception-pack e = rw ((w.pair w.text w.text).unpack-pack (e.message, e.function))

-- `vector<int>` as an array.
unfoldable pub all_ints : {Any : Type 0} → Codec Any ℤ → List Any → Option (List ℤ)
all_ints c [] = some []
all_ints c (t ∷ ts) = do n ← c.unpack t; ns ← all_ints c ts; some (n ∷ ns)

all_ints-map : {Any : Type 0} (c : Codec Any ℤ) (ns : List ℤ) → all_ints c (map c.pack ns) ≡ some ns
unfolding all_ints
all_ints-map c [] = refl
all_ints-map c (n ∷ ns) = rw (c.unpack-pack n, all_ints-map c ns)

module _ {W : Type 0} (w : Wire W) where
  abbrev pub pack_ints : List ℤ → w.Any
  pack_ints ns = w.list.pack (map w.int.pack ns)

  unfoldable pub as_ints : w.Any → Option (List ℤ)
  as_ints e = do ts ← w.list.unpack e; all_ints w.int ts

  pub as_ints-pack : (ns : List ℤ) → as_ints (pack_ints ns) ≡ some ns
  unfolding as_ints
  as_ints-pack ns = rw (w.list.unpack-pack (map w.int.pack ns)) (all_ints-map w.int ns)

module _ {W : Type 0} ⦃d : Double W⦄ (w : Wire W) where
  unfoldable pub axes : Codec w.Any (Axes W)
  axes = axes_codec w.list w.real zero

  unfoldable pub bool_axes : Codec w.Any (Axes Bool)
  bool_axes = axes_codec w.list w.bool bool_zero

  -- `PreviewAxes` inherits the MessagePack members of its base `Axes`, and adds none.
  unfoldable pub pack_preview : PreviewAxes W → w.Any
  pack_preview p = axes.pack p.axes

  unfoldable pub pack_previews : List (PreviewAxes W) → w.Any
  pack_previews ps = w.list.pack (map pack_preview ps)

  abbrev pub with_kind : (PreviewType → PreviewType) → PreviewAxes W → PreviewAxes W
  with_kind as_kind p = record p { kind = as_kind p.kind }

  pack_preview-with_kind :
      (as_kind : PreviewType → PreviewType) (ps : List (PreviewAxes W))
      → map pack_preview ps ≡ map pack_preview (map (with_kind as_kind) ps)
  unfolding pack_preview
  pack_preview-with_kind as_kind [] = refl
  pack_preview-with_kind as_kind (p ∷ ps) =
      ap (◌∷◌ (pack_preview p)) (pack_preview-with_kind as_kind ps)

  -- Two points of a preview that differ only in their kind are the same on the wire, so that no
  -- receiver can tell a rapid move from the start of a path.
  pack_previews-kind :
      {B : Type 0} (decode : w.Any → B) (as_kind : PreviewType → PreviewType)
      (ps : List (PreviewAxes W))
      → decode (pack_previews ps) ≡ decode (pack_previews (map (with_kind as_kind) ps))
  unfolding pack_previews
  pack_previews-kind decode as_kind ps =
      ap (λ ts. decode (w.list.pack ts)) (pack_preview-with_kind as_kind ps)
