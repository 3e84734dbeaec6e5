-- ===== src/Sample.antt =====
-- Concrete values for the parameters of the model: whole numbers for `double`, and MessagePack
-- values as trees.
use cncremote.Prelude.{
  ℕ, ℤ, pos, ◌+ℤ◌, sub_ℕ, pos_part, neg_part, ltb_ℤ, ◌+◌, ◌*◌, ◌/◌, ◌==◌, ◌≡◌, refl, ap, Bool, true,
  false, Bytes, List, [], ◌∷◌, Option, none, some,
}
use cncremote.Comms.{ControlState, SpindleState}
use cncremote.Comms.Arithmetic.{Double}
use cncremote.Comms.Wire.{Codec, Wire, ◌>>=◌}

abbrev pub negate : ℤ → ℤ
negate a = sub_ℕ (neg_part a) (pos_part a)

abbrev pub times : ℤ → ℤ → ℤ
times a b =
    sub_ℕ (pos_part a * pos_part b + neg_part a * neg_part b)
      (pos_part a * neg_part b + neg_part a * pos_part b)

abbrev pub quotient : ℤ → ℤ → ℤ
quotient a b = sub_ℕ (pos_part a / pos_part b) (neg_part a / pos_part b)

instance unfoldable pub whole_numbers : Double ℤ
unfolding ◌+ℤ◌
whole_numbers = record {
  nought = pos 0;
  add = ◌+ℤ◌;
  sub = λ a b. a +ℤ negate b;
  mul = times;
  div = quotient;
  sqrt = λ a. a;
  lt = ltb_ℤ;
  eq = λ a b. (pos_part a + neg_part b) == (pos_part b + neg_part a);
  literal = λ a n. quotient a (pos n);
}

mutual
  pub data Tree : Type 0 where
    nil : Tree
    bool : Bool → Tree
    int : ℤ → Tree
    nat : ℕ → Tree
    text : Bytes → Tree
    control : ControlState → Tree
    spindle : SpindleState → Tree
    arr : Trees → Tree
    pair : Tree → Tree → Tree

  pub data Trees : Type 0 where
    end : Trees
    more : Tree → Trees → Trees

abbrev pub to_list : Trees → List Tree
to_list end = []
to_list (more t ts) = t ∷ to_list ts

abbrev pub of_list : List Tree → Trees
of_list [] = end
of_list (t ∷ ts) = more t (of_list ts)

pub to_list-of_list : (ts : List Tree) → to_list (of_list ts) ≡ ts
to_list-of_list [] = refl
to_list-of_list (t ∷ ts) = ap (◌∷◌ t) (to_list-of_list ts)

abbrev pub as_bool : Tree → Option Bool
as_bool (bool b) = some b
as_bool _ = none

abbrev pub as_int : Tree → Option ℤ
as_int (int n) = some n
as_int _ = none

abbrev pub as_nat : Tree → Option ℕ
as_nat (nat n) = some n
as_nat _ = none

abbrev pub as_text : Tree → Option Bytes
as_text (text t) = some t
as_text _ = none

abbrev pub as_control : Tree → Option ControlState
as_control (control s) = some s
as_control _ = none

abbrev pub as_spindle : Tree → Option SpindleState
as_spindle (spindle s) = some s
as_spindle _ = none

abbrev pub as_list : Tree → Option (List Tree)
as_list (arr ts) = some (to_list ts)
as_list _ = none

abbrev pub as_pair : {A B : Type 0} → Codec Tree A → Codec Tree B → Tree → Option (A × B)
as_pair f g (pair s t) = do a ← f.unpack s; b ← g.unpack t; some (a, b)
as_pair f g _ = none

abbrev pub is_nil : Tree → Bool
is_nil nil = true
is_nil _ = false

pub as_pair-pack :
    {A B : Type 0} (f : Codec Tree A) (g : Codec Tree B) (v : A × B)
    → as_pair f g (pair (f.pack v.0) (g.pack v.1)) ≡ some v
as_pair-pack f g v = rw (f.unpack-pack v.0, g.unpack-pack v.1)

abbrev pub trees : Wire ℤ
trees = record {
  Any = Tree;
  nil = nil;
  is_nil = is_nil;
  stringify = λ _. [];
  bool = record { pack = bool; unpack = as_bool; unpack-pack = λ _. refl };
  int = record { pack = int; unpack = as_int; unpack-pack = λ _. refl };
  nat = record { pack = nat; unpack = as_nat; unpack-pack = λ _. refl };
  real = record { pack = int; unpack = as_int; unpack-pack = λ _. refl };
  text = record { pack = text; unpack = as_text; unpack-pack = λ _. refl };
  control_state = record { pack = control; unpack = as_control; unpack-pack = λ _. refl };
  spindle_state = record { pack = spindle; unpack = as_spindle; unpack-pack = λ _. refl };
  list = record {
    pack = λ ts. arr (of_list ts);
    unpack = as_list;
    unpack-pack = λ ts. ap {B = Option (List Tree)} some (to_list-of_list ts);
  };
  pair = λ f g. record {
    pack = λ v. pair (f.pack v.0) (g.pack v.1);
    unpack = as_pair f g;
    unpack-pack = as_pair-pack f g;
  };
  is_nil-nil = refl;
  is_nil-pack = λ f g v. refl;
  is_nil-text = λ t. refl;
}
