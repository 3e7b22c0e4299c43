-- ===== src/Prelude/Memory.antt =====
-- Calls that may leave the memory they own, and what a system call reports.
use Prim.Native.Nat.{ℕ}
use mathlib.Core.Bool.{Bool, true, false}
use mathlib.Core.List.{List}

-- `fault` is undefined behaviour: an access outside a block, or through a pointer that is not live.
pub data Outcome {ℓ} (A : Type ℓ) : Type ℓ where
  done : A → Outcome A
  fault : Outcome A

-- What `read` returns: the bytes received, or -1.
pub data ReadResult : Type 0 where
  received : List ℕ → ReadResult
  failed : ReadResult

-- The values of `errno` that the code sets itself.
pub data Errno : Type 0 where
  einval enomem enodata enobufs : Errno

-- One step after another, up to the first fault.
infixl 5 ◌>>=◌ ◌>>◌
abbrev pub ◌>>=◌ {ℓ κ} : {A : Type ℓ} {B : Type κ} → Outcome A → (A → Outcome B) → Outcome B
done a >>= f = f a
fault >>= f = fault

abbrev pub ◌>>◌ {ℓ} : {B : Type ℓ} → Outcome (Unit {0}) → Outcome B → Outcome B
m >> k = m >>= λ _. k

-- What must hold for the next step to be defined.
abbrev pub require : Bool → Outcome (Unit {0})
require true = done tt
require false = fault
