-- ===== src/Tools/Mkfs/Exec.antt =====
-- software/kernel/syscall.c with tools/mkfs.c: a process replaces its program by one of the image.
use cpu.Prelude.{ℕ, ◌/◌, ◌%◌, ◌≤◌, ◌<◌, ◌≡◌, false, some, List, get_elem?, ◌==◌}
use cpu.Binutils.Text.{Text}
use cpu.Kernel.Disk.{Disk}
use cpu.Kernel.Load.Loaded.{Distinct, Outside}
use cpu.Kernel.Os.{Process}
use cpu.Kernel.Os.Start.{System}

-- The program in the pages of a process, and every other page from 16 on as it was.
pub record Holds (content : List ℕ) (before after : ℕ → ℕ → ℕ) (p : Process) : Type 0 where
  pub range : (i : ℕ) → i < 16 → (16 ≤ p.pages i) × (p.pages i < 256)
  pub distinct : Distinct p.pages
  pub loaded : (j c : ℕ) → get_elem? content j ≡ some c → after (p.pages (j / 4096)) (j % 4096) ≡ c
  pub kept : (q i : ℕ) → 16 ≤ q → Outside p.pages q → after q i ≡ before q i

-- The other processes as they were.
abbrev pub Others : System → System → Type 0
Others before after =
    (i : ℕ) → (i == before.os.current_proc_idx) ≡ false → after.os.p_list i ≡ before.os.p_list i
