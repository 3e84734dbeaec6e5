-- ===== src/Comms/Vectors.antt =====
-- `Axes` and `BoolAxes` of include/cnccomms.h: six values, one for each axis.
use cncremote.Prelude.{ℕ, zero as nat_zero, suc, Bool, false, List, [], ◌∷◌}
use cncremote.Comms.Arithmetic.{Double}

pub record Axes (A : Type 0) : Type 0 where
  pub x : A
  pub y : A
  pub z : A
  pub a : A
  pub b : A
  pub c : A

-- `array`, the other member of the union.
abbrev pub array : {A : Type 0} → Axes A → List A
array v = v.x ∷ v.y ∷ v.z ∷ v.a ∷ v.b ∷ v.c ∷ []

-- `array[i]` for an index below `MAX_AXES`.
abbrev pub at : {A : Type 0} → A → ℕ → Axes A → A
at old nat_zero v = v.x
at old (suc nat_zero) v = v.y
at old (suc (suc nat_zero)) v = v.z
at old (suc (suc (suc nat_zero))) v = v.a
at old (suc (suc (suc (suc nat_zero)))) v = v.b
at old (suc (suc (suc (suc (suc nat_zero))))) v = v.c
at old _ v = old

-- `array[i] = e` for an index below `MAX_AXES`.
abbrev pub put : {A : Type 0} → ℕ → A → Axes A → Axes A
put nat_zero e v = record v { x = e }
put (suc nat_zero) e v = record v { y = e }
put (suc (suc nat_zero)) e v = record v { z = e }
put (suc (suc (suc nat_zero))) e v = record v { a = e }
put (suc (suc (suc (suc nat_zero)))) e v = record v { b = e }
put (suc (suc (suc (suc (suc nat_zero))))) e v = record v { c = e }
put _ e v = v

abbrev pub fill : {A : Type 0} → A → Axes A
fill e = record { x = e; y = e; z = e; a = e; b = e; c = e }

-- `for (ct = 0; ct < MAX_AXES; ct++) ret.array[ct] = array[ct] n src;`
abbrev pub map_axes : {A B : Type 0} → (A → B) → Axes A → Axes B
map_axes f v = record { x = f v.x; y = f v.y; z = f v.z; a = f v.a; b = f v.b; c = f v.c }

abbrev pub zip_axes : {A B C : Type 0} → (A → B → C) → Axes A → Axes B → Axes C
zip_axes f v w = record {
  x = f v.x w.x;
  y = f v.y w.y;
  z = f v.z w.z;
  a = f v.a w.a;
  b = f v.b w.b;
  c = f v.c w.c;
}

-- `BoolAxes::Zero`
unfoldable pub bool_zero : Axes Bool
bool_zero = fill false

module _ {W : Type 0} ⦃d : Double W⦄ where
  -- `Axes::Zero`
  unfoldable pub zero : Axes W
  zero = fill d.nought

  unfoldable pub add : Axes W → Axes W → Axes W
  add = zip_axes d.add

  unfoldable pub sub : Axes W → Axes W → Axes W
  sub = zip_axes d.sub

  unfoldable pub scale : Axes W → W → Axes W
  scale v k = map_axes (λ e. d.mul e k) v

  unfoldable pub divide : Axes W → W → Axes W
  divide v k = map_axes (λ e. d.div e k) v

  -- `Axes::Length`
  unfoldable pub length : Axes W → W
  length v =
      let sq = λ (e : W). d.mul e e in
      d.sqrt (
        d.add (d.add (d.add (d.add (d.add (sq v.x) (sq v.y)) (sq v.z)) (sq v.a)) (sq v.b)) (sq v.c))
