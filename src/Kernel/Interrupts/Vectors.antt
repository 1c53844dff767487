-- ===== src/Kernel/Interrupts/Vectors.antt =====
-- software/kernel/interrupts.c: the code that stands at the vectors.
use cpu.Prelude.{ℕ, ◌+◌, ◌%◌, ◌/◌, ◌≡◌, refl, ◌∷◌, [], List}
use cpu.Kernel.Frame.{Memory}
use cpu.Kernel.Disk.{memcpy}
use cpu.Kernel.Interrupts.{set_vector, Handlers, init_interrupts}

-- The eight bytes from an address on.
abbrev pub eight_bytes : Memory → ℕ → List ℕ
eight_bytes mem a =
    mem a
    ∷ mem (a + 1)
    ∷ mem (a + 2)
    ∷ mem (a + 3)
    ∷ mem (a + 4)
    ∷ mem (a + 5)
    ∷ mem (a + 6)
    ∷ mem (a + 7)
    ∷ []

-- `mov A, XH`, `push A`, `mov A, XL`, `push A`, `ldd X` with the handler, `jmp`.
abbrev pub jump_to : ℕ → List ℕ
jump_to handler = 0xe7 ∷ 0xd9 ∷ 0xe6 ∷ 0xd9 ∷ 0xde ∷ handler % 256 ∷ handler / 256 % 256 ∷ 0xaf ∷ []

-- After `init_interrupts` each of the five vectors holds the code that saves X and jumps to its handler.
pub init_interrupts_lem :
    (h : Handlers) (mem : Memory)
    → let after = init_interrupts h mem in
      (eight_bytes after 0xFF00 ≡ jump_to h.page_fault)
      × (eight_bytes after 0xFF10 ≡ jump_to h.tick_isr)
      × (eight_bytes after 0xFF20 ≡ jump_to h.empty_isr)
      × (eight_bytes after 0xFF30 ≡ jump_to h.uart_isr)
      × (eight_bytes after 0xFF40 ≡ jump_to h.syscall_isr)
unfolding init_interrupts set_vector memcpy
init_interrupts_lem h mem = (refl, refl, refl, refl, refl)
