-- ===== src/Tools/Tests.antt =====
-- tools/mkfs.c and software/kernel/: an image of two files, one of them looked up, loaded, started by the
-- kernel, and started in place of another program.
use cpu.Prelude.{
  ℕ, ◌+◌, ◌≡◌, refl, inl, false, some, List, [], ◌∷◌, arith, true, if◌then◌else◌, ◌==◌, ltb, ◌%◌,
}
use cpu.Binutils.Text.{codes, str_eq}
use cpu.Kernel.Klib.Strings.{bytes_ok}
use cpu.Kernel.Disk.{Disk, block_free, read_file}
use cpu.Kernel.Disk.Cache.{Ready}
use cpu.Kernel.Directory.{found, missing, stat}
use cpu.Kernel.Load.{Loader, load_process}
use cpu.Kernel.Os.{Os}
use cpu.Kernel.Os.Start.{System, no_process}
use cpu.Tools.Mkfs.Missing.{load_process-missing}
use cpu.Tools.Mkfs.{File, char_at, append_directory, empty_image}
use cpu.Tools.Mkfs.Entries.{fitting}
use cpu.Tools.Mkfs.Lookup.{lookup, named, blocks, Loaded, stat-read_file}

abbrev readme : File
readme = record { name = codes "readme"; content = codes "hello" }

abbrev shell : File
shell = record { name = codes "sh.bin"; content = 0xe7 ∷ 0xd9 ∷ [] }

abbrev two_files : List File
two_files = readme ∷ shell ∷ []

abbrev no_blocks : Disk
no_blocks = record {
  block_cache = λ i. record { flags = block_free; device = 0; n = 0; cnt = 0; content = λ j. 0 };
  storage = blocks (append_directory (λ k. 7) two_files empty_image).fs;
}

no_blocks-Ready : Ready no_blocks
no_blocks-Ready i below = (refl, inl refl)

-- The second file starts at 768, a block behind the first.
stat-read_file_example :
    (e : Disk) × (memory' : ℕ → ℕ) × (e' : Disk) × (stat (codes "sh.bin") no_blocks
      ≡ some (found 3 2, e))
    × (read_file 0xa000 3 0 2 (λ i. 0) e ≡ some (memory', e'))
    × Loaded 0xa000 shell.content (λ i. 0) memory'
unfolding bytes_ok named fitting lookup str_eq
stat-read_file_example =
    stat-read_file (λ k. 7) two_files (codes "sh.bin") 768 shell no_blocks 0xa000 (λ i. 0) refl refl
      (omega arith) refl refl refl no_blocks-Ready (omega arith)

abbrev idle : Loader
idle = record {
  mmu = record {
    page_refcount = λ i. 0;
    tlb_map = λ i. 0;
    tlb = λ i. 0;
    tlb_index = 0;
    paging = false;
  };
  physical = λ p i. 0;
  disk = no_blocks;
}

-- Memory of zeros, and the image on the storage.
abbrev switched_on : System
switched_on = record {
  os = record {
    p_list = λ i. no_process;
    current_proc_idx = 0;
    do_switch = false;
    ticks_to_next_switch = 0;
    mmu = idle.mmu;
    memory = λ i. 0;
  };
  physical = λ p i. 0;
  disk = no_blocks;
}

-- A process whose X points to a name at the start of its first page.
abbrev caller : System
caller = record switched_on {
  os = record (switched_on.os) {
    p_list = λ i. record no_process { status = 1; pid = 1; tlb_index = 1; pages = λ k. k + 16 };
    mmu = record (idle.mmu) {
      page_refcount = λ j. if ltb j 32 then 1 else 0;
      tlb = λ a. if ltb a 0x7000 then a % 16 else 3;
      tlb_index = 1;
      paging = true;
    };
  };
  physical = λ p i. if p == 16 then char_at (codes "sh.bin") i else 0;
}

load_process-missing_example :
    (e : Disk) × (stat (codes "sh") no_blocks ≡ some (missing, e))
    × (e.storage ≡ no_blocks.storage)
    × Ready e
    × (load_process (codes "sh") (λ i. i + 16) idle ≡ some (record idle { disk = e }))
unfolding bytes_ok named fitting lookup str_eq
load_process-missing_example =
    load_process-missing (λ k. 7) two_files (codes "sh") (λ i. i + 16) idle refl refl (omega arith)
      refl refl refl no_blocks-Ready
