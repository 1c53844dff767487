-- ===== src/Kernel/Syscall.antt =====
-- software/kernel/syscall.c, with the output of klib.c, `print_process_list` of proc.c and
-- `print_isr_ctx` of interrupts.c. `sys_exec`, which does not return when it succeeds, is a parameter.
pub mod Calls
use cpu.Prelude.{
  ℕ, zero, suc, ◌+◌, ◌-◌, ◌*◌, ◌/◌, ◌%◌, ◌^◌, ◌≤◌, ◌<◌, bit_and, bit_or, bit_xor, for_up, ◌≡◌, refl,
  sym, ap, ap₂, ◌∙◌, subst, fun_ext, ◌≢◌, ◌↔◌, ◌⊎◌, inl, inr, Bool, true, false, not, ◌&&◌, ◌||◌,
  Option, none, some, List, [], ◌∷◌, ◌++◌, map, arith, ltb, leb, ◌==◌, ==_iff, ==_refl, ==_ne,
  if◌then◌else◌, Bool-cases, Option-cases, length, get_elem?, length-append, get_elem-append_right,
  get_elem-append_left, u8, u16, u32, ◌<<<◌, ◌>>>◌, passes_below, passes_below-entry, update,
}
use cpu.Binutils.Text.{codes}
use cpu.Kernel.Klib.{CString, printhex}
use cpu.Kernel.Uart.{Uart, getc}
use cpu.Kernel.Frame.{Memory, IsrCtx, load16, store16, store8, isr_ctx_a, isr_ctx_b, isr_ctx_pc}
use cpu.Kernel.Os.{Process, Os, n_proc, find_free_proc}

-- What a system call works on: the processes, the serial port, the bytes put out at 0x4004, the ticks.
pub record Machine : Type 0 where
  pub os : Os
  pub uart : Uart
  pub output : List ℕ
  pub tick_counter : ℕ

abbrev pub puts : CString → Machine → Machine
puts s m = record m { output = m.output ++ s }

abbrev pub set_memory : (Memory → Memory) → Machine → Machine
set_memory f m = record m { os = record (m.os) { memory = f m.os.memory } }

-- The bytes of `print_isr_ctx`.
unfoldable pub ctx_text : IsrCtx → CString
ctx_text c =
    codes "pc "
    ++ printhex c.pc
    ++ codes " "
    ++ codes " a "
    ++ printhex c.a
    ++ codes " "
    ++ codes " b "
    ++ printhex c.b
    ++ codes " "
    ++ codes " f "
    ++ printhex c.f
    ++ codes " "
    ++ codes " m "
    ++ printhex c.m
    ++ codes " "
    ++ codes " s "
    ++ printhex c.s
    ++ codes " "
    ++ codes " x "
    ++ printhex c.x
    ++ codes " "

-- `p_state_str`, for the four states that there are.
abbrev pub state_char : ℕ → ℕ
state_char status =
    if status == 0 then b'0' else if status == 1 then b'R' else if status == 2 then b'W' else b'D'

unfoldable pub pages_text : (ℕ → ℕ) → ℕ → ℕ → CString
pages_text pages j zero = []
pages_text pages j (suc left) =
    codes "[" ++ printhex (pages j) ++ codes "]" ++ pages_text pages (j + 1) left

unfoldable pub process_text : Process → CString
process_text p =
    printhex p.pid
    ++ codes " "
    ++ (state_char p.status ∷ [])
    ++ codes "     "
    ++ printhex p.tlb_index
    ++ codes " ctx:\n"
    ++ ctx_text p.ctx
    ++ codes "\npages:\n"
    ++ pages_text p.pages 0 16
    ++ codes "\n"

unfoldable pub processes_text : (ℕ → Process) → ℕ → ℕ → CString
processes_text p_list i zero = []
processes_text p_list i (suc left) = process_text (p_list i) ++ processes_text p_list (i + 1) left

unfoldable pub print_process_list : Machine → Machine
print_process_list m =
    puts (codes "pid    status tlb_idx\n" ++ processes_text m.os.p_list 0 n_proc) m

-- A call returns the byte that goes into A.
abbrev pub sys_none : Machine → ℕ × Machine
sys_none m = (0, m)

abbrev pub sys_putchar : Machine → ℕ × Machine
sys_putchar m = (0, puts (m.os.memory isr_ctx_b ∷ []) m)

abbrev pub sys_getchar : Machine → ℕ × Machine
sys_getchar m =
    let (c, uart) = getc m.uart in (0, set_memory (store8 isr_ctx_b c) (record m { uart = uart }))

unfoldable pub pages_lines : (ℕ → ℕ) → ℕ → ℕ → CString
pages_lines pages i zero = []
pages_lines pages i (suc left) = printhex (pages i) ++ codes "\n" ++ pages_lines pages (i + 1) left

unfoldable pub sys_stats : Machine → ℕ × Machine
sys_stats m = (
  0,
  puts
      (codes "System is up for "
        ++ printhex m.tick_counter
        ++ codes " ticks.\n"
        ++ codes "current_proc pages\n"
        ++ pages_lines (m.os.p_list m.os.current_proc_idx).pages 0 16)
      (print_process_list m),
)

-- The index of a free process, taken for a pointer to it.
unfoldable pub sys_fork : Machine → ℕ × Machine
sys_fork m =
    (0, if find_free_proc m.os.p_list == 0 then set_memory (store8 isr_ctx_b 0xff) m else m)

abbrev pub nr_syscall : ℕ
nr_syscall = 6

module _ (sys_exec : Machine → ℕ × Machine) where
  -- `sys_table[id]`, for the ids that are below `nr_syscall`.
  unfoldable pub sys_table : ℕ → Machine → ℕ × Machine
  sys_table id m =
      if id == 0
      then sys_none m
      else if id == 1
      then sys_putchar m
      else if id == 2
      then sys_getchar m
      else if id == 3
      then sys_stats m
      else if id == 4
      then sys_fork m
      else sys_exec m

  -- The handler between its prologue and its epilogue.
  unfoldable pub syscall_isr : Machine → Machine
  syscall_isr m =
      let entered =
        set_memory (λ mem. store16 isr_ctx_pc (u16 (load16 isr_ctx_pc mem + 1)) mem) m in
      let id = entered.os.memory isr_ctx_a in
      let (a, done) = sys_table id entered in
      if ltb id nr_syscall then set_memory (store8 isr_ctx_a a) done else entered
