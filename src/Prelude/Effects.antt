-- ===== src/Prelude/Effects.antt =====
-- Methods that change an object and may throw. What was written before a throw stays written, so
-- the state comes back beside the exception too. `undefined` marks a call whose behaviour C++ leaves
-- undefined; nothing runs after it.
use cncremote.Prelude.Texts.{Bytes}

pub data Fault : Type 0 where
  closed_stream : Fault  -- a `FILE *` used after `fclose`
  buffer_overflow : Fault  -- a write past the end of an array
  out_of_range : Fault  -- a read past the end of an array
  null_pointer : Fault
  unset_function : Fault  -- a call through a pointer that was not set, or into an unloaded library
  freed_object : Fault  -- an object used after its `delete`
  overlap : Fault  -- a copy between objects that overlap
  endless : Fault  -- a loop that goes on for longer than it is followed

pub data Result {ℓ} (A : Type ℓ) : Type ℓ where
  ok : A → Result A
  raised : Bytes → Result A  -- a `std::exception`, with its `what()`
  undefined : Fault → Result A

abbrev pub Exec {ℓ} : Type ℓ → Type ℓ → Type ℓ
Exec S A = S → Result A × S

module _ {ℓ} {S A : Type ℓ} where
  abbrev pub pure : A → Exec S A
  pure a s = (ok a, s)

  abbrev pub throw : Bytes → Exec S A
  throw e s = (raised e, s)

  abbrev pub crash : Fault → Exec S A
  crash f s = (undefined f, s)

module _ {ℓ} {S A B : Type ℓ} where
  abbrev pub continue : Result A × S → (A → Exec S B) → Result B × S
  continue (ok a, s) f = f a s
  continue (raised e, s) f = (raised e, s)
  continue (undefined x, s) f = (undefined x, s)

  infixl 5 ◌>>=◌ ◌>>◌
  abbrev pub ◌>>=◌ : Exec S A → (A → Exec S B) → Exec S B
  ◌>>=◌ m f s = continue (m s) f

  abbrev pub ◌>>◌ : Exec S A → Exec S B → Exec S B
  ◌>>◌ m k s = continue (m s) (λ _. k)
