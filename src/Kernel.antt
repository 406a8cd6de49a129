-- ===== src/Kernel.antt =====
-- How a call of a kernel function ends. `kkill` (src/main.c) halts the processor and loops, so what
-- follows it is never run.

pub data Outcome {ℓ} (A : Type ℓ) : Type ℓ where
  -- The function returns.
  done : A → Outcome A
  -- `kkill` was called.
  killed : Outcome A
  -- A loop that never ends: a lock that nobody frees, or a walk that makes no step.
  hangs : Outcome A
  -- An access outside an array, or through a null pointer.
  fault : Outcome A

infixl 5 ◌>>=◌
abbrev pub ◌>>=◌ {ℓ κ} : {A : Type ℓ} {B : Type κ} → Outcome A → (A → Outcome B) → Outcome B
done a >>= f = f a
killed >>= f = killed
hangs >>= f = hangs
fault >>= f = fault
