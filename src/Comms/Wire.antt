-- ===== src/Comms/Wire.antt =====
-- The MSGPACK_DEFINE_ARRAY and MSGPACK_DEFINE_MAP members of include/cnccomms.h, over the MessagePack
-- values of the linear-rpc library, which is a parameter.
use cncremote.Prelude.{ℕ, ℤ, Bool, Bytes, List, [], ◌∷◌, Option, none, some, ◌≡◌, true, false}
use cncremote.Comms.{ControlState, SpindleState}
use cncremote.Comms.Vectors.{Axes}

-- `pack` and `as<A>()`; `none` is `std::bad_cast`. The law: what is packed is read back.
pub record Codec (Any A : Type 0) : Type 0 where
  pub pack : A → Any
  pub unpack : Any → Option A
  pub unpack-pack : (v : A) → unpack (pack v) ≡ some v

-- What the library gives for the types that the program sends. The enumerators travel as integers;
-- an integer that is no enumerator has no place in the model. `nat` is for the `unsigned int`s, which the
-- program keeps below 2^32.
pub record Wire (W : Type 0) : Type 1 where
  pub Any : Type 0
  pub nil : Any
  pub is_nil : Any → Bool
  pub stringify : Any → Bytes
  pub bool : Codec Any Bool
  pub int : Codec Any ℤ
  pub nat : Codec Any ℕ
  pub real : Codec Any W
  pub text : Codec Any Bytes
  pub control_state : Codec Any ControlState
  pub spindle_state : Codec Any SpindleState
  pub list : Codec Any (List Any)
  pub pair : {A B : Type 0} → Codec Any A → Codec Any B → Codec Any (A × B)
  pub is_nil-nil : is_nil nil ≡ true
  pub is_nil-pack :
      {A B : Type 0} (f : Codec Any A) (g : Codec Any B) (v : A × B)
      → is_nil ((pair f g).pack v) ≡ false
  pub is_nil-text : (t : Bytes) → is_nil (text.pack t) ≡ false

infixl 5 ◌>>=◌
abbrev pub ◌>>=◌ : {A B : Type 0} → Option A → (A → Option B) → Option B
none >>= f = none
some a >>= f = f a

-- One element of a MessagePack array into a member; a member past the array's end keeps its value.
unfoldable pub member : {Any A : Type 0} → Codec Any A → List Any → A → Option (A × List Any)
member c [] old = some (old, [])
member c (e ∷ rest) old = do v ← c.unpack e; some (v, rest)

pub member-pack :
    {Any A : Type 0} (c : Codec Any A) (v : A) (rest : List Any) (old : A)
    → member c (c.pack v ∷ rest) old ≡ some (v, rest)
unfolding member
member-pack c v rest old = rw (c.unpack-pack v)

module _ {Any A : Type 0} (c : Codec Any A) where
  unfoldable pub pack_six : Axes A → List Any
  pack_six v = c.pack v.x ∷ c.pack v.y ∷ c.pack v.z ∷ c.pack v.a ∷ c.pack v.b ∷ c.pack v.c ∷ []

  -- Into `array[MAX_AXES]`: a longer array is a `bad_cast`.
  unfoldable pub unpack_six : List Any → Axes A → Option (Axes A)
  unfolding member
  unpack_six es old = do
    (x, es1) ← member c es old.x
    (y, es2) ← member c es1 old.y
    (z, es3) ← member c es2 old.z
    (a, es4) ← member c es3 old.a
    (b, es5) ← member c es4 old.b
    (c', es6) ← member c es5 old.c
    elim es6 [ [] ↦ some (record { x = x; y = y; z = z; a = a; b = b; c = c' }) | _ ↦ none ]

  pub six-pack : (v old : Axes A) → unpack_six (pack_six v) old ≡ some v
  unfolding pack_six unpack_six
  six-pack v old = rw (
    c.unpack-pack v.x,
    c.unpack-pack v.y,
    c.unpack-pack v.z,
    c.unpack-pack v.a,
    c.unpack-pack v.b,
    c.unpack-pack v.c,
  )
