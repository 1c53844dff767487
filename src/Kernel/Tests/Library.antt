-- ===== src/Kernel/Tests/Library.antt =====
-- software/kernel/klib.c, kernel_main.c and syscall.c: instances.
use cpu.Prelude.{ℕ, ◌≤◌, ◌≡◌, refl, some, [], ◌∷◌, arith, ◌==◌, if◌then◌else◌}
use cpu.Binutils.Text.{codes}
use cpu.Kernel.Klib.{strcmp, getline}
use cpu.Kernel.Klib.Strings.{bytes_ok, precedes, negative, strcmp_lem}
use cpu.Kernel.Klib.Input.{received, first, no_line_end, getline_lem}
use cpu.Kernel.Shell.{fxn_mul, build_argv, cut_at_space}
use cpu.Kernel.Shell.Multiply.{fxn_mul_lem}
use cpu.Kernel.Shell.Arguments.{later_words, build_argv_lem}
use cpu.Kernel.Uart.{getc}
use cpu.Kernel.Frame.{isr_ctx_a, isr_ctx_b}
use cpu.Kernel.Os.{find_free_proc}
use cpu.Kernel.Syscall.{Machine, syscall_isr}
use cpu.Kernel.Syscall.Calls.{Returns, syscall_isr_lem}
use cpu.Kernel.Tests.Processes.{os}

strcmp_lem_example :
    (strcmp (codes "ls") (codes "ps") ≡ 0 → codes "ls" ≡ codes "ps")
    × (codes "ls" ≡ codes "ps" → strcmp (codes "ls") (codes "ps") ≡ 0)
    × (negative (strcmp (codes "ls") (codes "ps")) ≡ precedes (codes "ls") (codes "ps"))
unfolding bytes_ok
strcmp_lem_example = strcmp_lem (codes "ls") (codes "ps") refl refl

-- An empty buffer between the two letters of a line.
getline_lem_example :
    getline (b'l' ∷ 0 ∷ b's' ∷ b'\n' ∷ b'x' ∷ [])
    ≡ some (record { text = codes "ls"; echo = codes "ls\n"; rest = codes "x" })
unfolding no_line_end received first
getline_lem_example = getline_lem (b'l' ∷ 0 ∷ b's' ∷ []) (codes "x") b'\n' refl refl

fxn_mul_lem_example : fxn_mul 300 300 ≡ 24464
fxn_mul_lem_example = fxn_mul_lem 300 300 (omega arith) (omega arith)

-- A leading space, and two spaces in a row.
build_argv_lem_example : build_argv (codes " a  bc") ≡ some ([] ∷ codes "a" ∷ codes "bc" ∷ [])
unfolding later_words cut_at_space
build_argv_lem_example = build_argv_lem (codes " a  bc")

-- A process that puts out an X.
abbrev calling : Machine
calling = record {
  os = record os { memory = λ i. if i == isr_ctx_a then 1 else if i == isr_ctx_b then b'X' else 0 };
  uart = record { buffer = λ i. b'q'; size = 1; rd_pos = 0; wr_pos = 1 };
  output = [];
  tick_counter = 0;
}

abbrev no_exec : Machine → ℕ × Machine
no_exec m = (1, m)

syscall_isr_lem_example :
    (6 ≤ calling.os.memory isr_ctx_a → Returns calling (syscall_isr no_exec calling) 1 b'X')
    × (calling.os.memory isr_ctx_a ≡ 0 → Returns calling (syscall_isr no_exec calling) 0 b'X')
    × (calling.os.memory isr_ctx_a ≡ 1
        → Returns calling (syscall_isr no_exec calling) 0 b'X'
          × ((syscall_isr no_exec calling).output ≡ b'X' ∷ []))
    × (calling.os.memory isr_ctx_a ≡ 2
        → Returns calling (syscall_isr no_exec calling) 0 (getc calling.uart).0
          × ((syscall_isr no_exec calling).uart ≡ (getc calling.uart).1))
    × (calling.os.memory isr_ctx_a ≡ 3 → Returns calling (syscall_isr no_exec calling) 0 b'X')
    × (calling.os.memory isr_ctx_a ≡ 4
        → Returns calling
            (syscall_isr no_exec calling)
            0
            (if find_free_proc os.p_list == 0 then 255 else b'X'))
unfolding getc
syscall_isr_lem_example = syscall_isr_lem no_exec calling (omega arith) (omega arith) (omega arith)
