-- ===== src/Tools/Mkfs/Loading.antt =====
-- tools/mkfs.c and software/kernel/proc.c: a program of the image, loaded into the pages of a process.
use cpu.Prelude.{ℕ, ◌/◌, ◌%◌, ◌≤◌, ◌≡◌, some, List, get_elem?}
use cpu.Binutils.Text.{Text}
use cpu.Kernel.Load.Loaded.{Outside}
use cpu.Tools.Mkfs.{File}

-- The program stands in the pages of the process, page by page, and no other page from 16 on has changed.
pub record InPages (pages : ℕ → ℕ) (content : List ℕ) (before after : ℕ → ℕ → ℕ) : Type 0 where
  pub stored : (j c : ℕ) → get_elem? content j ≡ some c → after (pages (j / 4096)) (j % 4096) ≡ c
  pub kept : (p i : ℕ) → 16 ≤ p → Outside pages p → after p i ≡ before p i
