-- ===== src/Tools/Mkfs/Boot.antt =====
-- software/kernel/kernel_main.c with tools/mkfs.c: the kernel starts a program of the image.
use cpu.Prelude.{ℕ, ◌+◌, ◌/◌, ◌%◌, ◌≤◌, ◌≡◌, some, List, get_elem?}
use cpu.Binutils.Text.{Text}
use cpu.Kernel.Os.{Os}
use cpu.Kernel.Os.Start.{System}

-- Process 0 as it is started: the pages 16 to 31 hold the program, and TLB index 1 maps them.
pub record Started (content : List ℕ) (before after : System) : Type 0 where
  pub status : (after.os.p_list 0).status ≡ 1
  pub pid : (after.os.p_list 0).pid ≡ 1
  pub loaded :
      (j c : ℕ) → get_elem? content j ≡ some c → after.physical (16 + j / 4096) (j % 4096) ≡ c
  pub kept : (p i : ℕ) → 32 ≤ p → after.physical p i ≡ before.physical p i
