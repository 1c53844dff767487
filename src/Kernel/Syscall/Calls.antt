-- ===== src/Kernel/Syscall/Calls.antt =====
-- software/kernel/syscall.c: what the system calls leave in the frame, the port and the output.
use cpu.Prelude.{
  ℕ, ◌+◌, ◌*◌, ◌≤◌, ◌<◌, ◌≡◌, refl, sym, ap, ap₂, ◌∙◌, subst, inl, inr, Bool, true, false, [], ◌∷◌,
  ◌++◌, arith, ltb, ◌==◌, if◌then◌else◌, Bool-cases, u16,
}
use cpu.Kernel.Uart.{getc}
use cpu.Kernel.Frame.{Memory, load16, store16, store8, isr_ctx_a, isr_ctx_b, isr_ctx_pc}
use cpu.Kernel.Os.{find_free_proc}
use cpu.Kernel.Syscall.{
  Machine, set_memory, print_process_list, sys_stats, sys_fork, sys_table, syscall_isr,
}

-- What a call leaves: the program goes on behind the call, and A and B hold two bytes.
pub record Returns (before after : Machine) (in_a in_b : ℕ) : Type 0 where
  pub pc : load16 isr_ctx_pc after.os.memory ≡ u16 (load16 isr_ctx_pc before.os.memory + 1)
  pub a : after.os.memory isr_ctx_a ≡ in_a
  pub b : after.os.memory isr_ctx_b ≡ in_b
  pub others :
      (j : ℕ)
      → (j == isr_ctx_pc) ≡ false
      → (j == isr_ctx_pc + 1) ≡ false
      → (j == isr_ctx_a) ≡ false
      → (j == isr_ctx_b) ≡ false
      → after.os.memory j ≡ before.os.memory j

-- The memory after the program counter is moved on, B has a byte, and A has one.
abbrev frame : Memory → ℕ → ℕ → Memory
frame mem b a =
    store8 isr_ctx_a a
      (store8 isr_ctx_b b (store16 isr_ctx_pc (u16 (load16 isr_ctx_pc mem + 1)) mem))

Returns-frame :
    (before after : Machine) (a b : ℕ)
    → a < 256
    → b < 256
    → ((j : ℕ) → after.os.memory j ≡ frame before.os.memory b a j)
    → Returns before after a b
Returns-frame before after a b small_a small_b same = record {
  pc = ap₂ (λ l h. l + 256 * h) (same 0xfffe) (same 0xffff) ∙ omega arith;
  a = same isr_ctx_a ∙ omega arith;
  b = same isr_ctx_b ∙ omega arith;
  others = λ j low high not_a not_b. same j ∙ rw (not_a, not_b, high, low) refl;
}

-- A byte that is written as it was.
frame-same :
    (mem : Memory) (a j : ℕ)
    → mem isr_ctx_b < 256
    → store8 isr_ctx_a a (store16 isr_ctx_pc (u16 (load16 isr_ctx_pc mem + 1)) mem) j
      ≡ frame mem (mem isr_ctx_b) a j
frame-same mem a j small = elim (Bool-cases (j == isr_ctx_b)) [
  | inl at ↦
      let place : j ≡ isr_ctx_b = ground (arith, at) in
      subst
        (λ i.
          store8 isr_ctx_a a (store16 isr_ctx_pc (u16 (load16 isr_ctx_pc mem + 1)) mem) i
          ≡ frame mem (mem isr_ctx_b) a i)
        (sym place) (omega arith)
  | inr beside ↦ rw beside refl
]

abbrev entered : Machine → Machine
entered m = set_memory (λ mem. store16 isr_ctx_pc (u16 (load16 isr_ctx_pc mem + 1)) mem) m

module _ (sys_exec : Machine → ℕ × Machine) where
  abbrev called : ℕ → Machine → Machine
  called id m =
      set_memory (store8 isr_ctx_a (sys_table sys_exec id (entered m)).0)
        (sys_table sys_exec id (entered m)).1

  syscall_isr-called :
      (id : ℕ) (m : Machine)
      → m.os.memory isr_ctx_a ≡ id
      → id < 6
      → syscall_isr sys_exec m ≡ called id m
  unfolding syscall_isr
  syscall_isr-called id m number below =
      let valid : ltb id 6 ≡ true = ground arith in
      ap (λ k. if ltb k 6 then called k m else entered m) number ∙ rw valid refl

  syscall_isr-ignored :
      (m : Machine) → 6 ≤ m.os.memory isr_ctx_a → syscall_isr sys_exec m ≡ entered m
  unfolding syscall_isr
  syscall_isr-ignored m above =
      let unknown : ltb (m.os.memory isr_ctx_a) 6 ≡ false = ground arith in rw unknown refl

  returns :
      (id b : ℕ) (m : Machine)
      → m.os.memory isr_ctx_a ≡ id
      → id < 6
      → b < 256
      → ((j : ℕ) → (called id m).os.memory j ≡ frame m.os.memory b 0 j)
      → Returns m (syscall_isr sys_exec m) 0 b
  returns id b m number below small same =
      subst (λ after. Returns m after 0 b) (sym (syscall_isr-called id m number below))
        (Returns-frame m (called id m) 0 b (omega arith) small same)

  ignored :
      (m : Machine)
      → m.os.memory isr_ctx_a < 256
      → m.os.memory isr_ctx_b < 256
      → 6 ≤ m.os.memory isr_ctx_a
      → Returns m (syscall_isr sys_exec m) (m.os.memory isr_ctx_a) (m.os.memory isr_ctx_b)
  ignored m small_a small_b above =
      subst (λ after. Returns m after (m.os.memory isr_ctx_a) (m.os.memory isr_ctx_b))
        (sym (syscall_isr-ignored m above))
        (record {
          pc = omega arith;
          a = refl;
          b = refl;
          others = λ j low high not_a not_b. rw (high, low) refl;
        })

  forked :
      (m : Machine)
      → m.os.memory isr_ctx_a ≡ 4
      → m.os.memory isr_ctx_b < 256
      → Returns m
          (syscall_isr sys_exec m)
          0
          (if find_free_proc m.os.p_list == 0 then 255 else m.os.memory isr_ctx_b)
  unfolding sys_table sys_fork
  forked m number small =
      let memory_of : Bool → ℕ → ℕ = λ none_found.
        store8 isr_ctx_a 0
          (if none_found
            then set_memory (store8 isr_ctx_b 0xff) (entered m)
            else entered m).os.memory in
      elim (Bool-cases (find_free_proc m.os.p_list == 0)) [
        | inl none_found ↦ rw none_found (
            returns 4 255 m number (omega arith) (omega arith)
              (λ j. ap (λ t. memory_of t j) none_found))
        | inr some_found ↦ rw some_found (
            returns 4 (m.os.memory isr_ctx_b) m number (omega arith) small
              (λ j. ap (λ t. memory_of t j) some_found ∙ frame-same m.os.memory 0 j small))
      ]

  -- Every system call but exec, on a frame of bytes: the program goes on behind the call, and nothing of
  -- the memory changes but that, A and B. An id from 6 on leaves A and B. The others leave 0 in A, and:
  -- 1 puts out the byte in B; 2 takes the next received byte into B, 0 where there is none; 4 leaves 255
  -- in B where the first slot is free, which it takes for none; 0 and 3 leave B.
  pub syscall_isr_lem :
      (m : Machine)
      → m.os.memory isr_ctx_a < 256
      → m.os.memory isr_ctx_b < 256
      → (getc m.uart).0 < 256
      → (6 ≤ m.os.memory isr_ctx_a
          → Returns m (syscall_isr sys_exec m) (m.os.memory isr_ctx_a) (m.os.memory isr_ctx_b))
        × (m.os.memory isr_ctx_a ≡ 0 → Returns m (syscall_isr sys_exec m) 0 (m.os.memory isr_ctx_b))
        × (m.os.memory isr_ctx_a ≡ 1
            → Returns m (syscall_isr sys_exec m) 0 (m.os.memory isr_ctx_b)
              × ((syscall_isr sys_exec m).output ≡ m.output ++ (m.os.memory isr_ctx_b ∷ [])))
        × (m.os.memory isr_ctx_a ≡ 2
            → Returns m (syscall_isr sys_exec m) 0 (getc m.uart).0
              × ((syscall_isr sys_exec m).uart ≡ (getc m.uart).1))
        × (m.os.memory isr_ctx_a ≡ 3 → Returns m (syscall_isr sys_exec m) 0 (m.os.memory isr_ctx_b))
        × (m.os.memory isr_ctx_a ≡ 4
            → Returns m
                (syscall_isr sys_exec m)
                0
                (if find_free_proc m.os.p_list == 0 then 255 else m.os.memory isr_ctx_b))
  unfolding sys_table sys_stats print_process_list sys_fork
  syscall_isr_lem m small_a small_b byte =
      let mem = m.os.memory in
      let same : (j : ℕ) → _ = λ j. frame-same mem 0 j small_b in
      (
        ignored m small_a small_b,
        λ e. returns 0 (mem isr_ctx_b) m e (omega arith) small_b same,
        λ e. (
          returns 1 (mem isr_ctx_b) m e (omega arith) small_b same,
          ap Machine.output (syscall_isr-called 1 m e (omega arith)),
        ),
        λ e. (
          returns 2 (getc m.uart).0 m e (omega arith) byte (λ j. refl),
          ap Machine.uart (syscall_isr-called 2 m e (omega arith)),
        ),
        λ e. returns 3 (mem isr_ctx_b) m e (omega arith) small_b same,
        λ e. forked m e small_b,
      )
