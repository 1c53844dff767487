-- ===== src/Prelude/Words.antt =====
-- Casts to the unsigned widths of C, shifts, and tables over small ranges.
use Prim.Native.Nat.{ℕ, zero, suc, ◌*◌, ◌/◌, ◌%◌, ◌^◌, ◌<◌}
use mathlib.Core.Path.{◌≡◌}
use mathlib.Core.Bool.{Bool, true, false}
use native.Mathlib.Omega.{arith}
use cpu.Prelude.Tests.{if◌then◌else◌}

abbrev pub u8 : ℕ → ℕ
u8 n = n % 256

abbrev pub u16 : ℕ → ℕ
u16 n = n % 65536

abbrev pub u32 : ℕ → ℕ
u32 n = n % 4294967296

infixl 75 ◌<<<◌ ◌>>>◌
abbrev pub ◌<<<◌ : ℕ → ℕ → ℕ
x <<< k = x * 2 ^ k

abbrev pub ◌>>>◌ : ℕ → ℕ → ℕ
x >>> k = x / 2 ^ k

-- A table of the values below `size`: whether the test passes at each of them.
unfoldable pub passes_below : ℕ → (ℕ → Bool) → Bool
passes_below zero test = true
passes_below (suc top) test = if test top then passes_below top test else false

pub passes_below-entry :
    (size : ℕ) (test : ℕ → Bool) (i : ℕ) → passes_below size test ≡ true → i < size → test i ≡ true
unfolding passes_below
passes_below-entry zero test i passed below = elim below [ ]
passes_below-entry (suc top) test i passed below = ground (arith, passes_below-entry top test i)
