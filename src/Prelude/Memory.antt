-- ===== src/Prelude/Memory.antt =====
-- A C array or a region of memory as a function of the index.
use Prim.Native.Nat.{ℕ}
use cpu.Prelude.Tests.{◌==◌, if◌then◌else◌}

abbrev pub update {ℓ} : {A : Type ℓ} → (ℕ → A) → ℕ → A → ℕ → A
update f i v j = if j == i then v else f j
