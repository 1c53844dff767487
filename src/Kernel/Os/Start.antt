-- ===== src/Kernel/Os/Start.antt =====
-- software/kernel/kernel_main.c, `start_init`, with the part of `main` before it, `init_proc` of proc.c
-- and `tick_isr` of interrupts.c. The messages are left out.
pub mod First
use cpu.Prelude.{
  ℕ, zero, suc, ◌+◌, Bool, true, false, Option, none, some, ltb, ◌==◌, if◌then◌else◌, update, u16,
}
use cpu.Kernel.Frame.{IsrCtx}
use cpu.Kernel.Klib.{CString}
use cpu.Kernel.Mmu.{Mmu, init_mmu, get_free_tlb}
use cpu.Kernel.Disk.{Disk}
use cpu.Kernel.Load.{Loader, and_then, load_process}
use cpu.Kernel.Os.{
  Process, Os, Space, n_proc, process_none, process_run, find_free_proc, get_new_pid, take_pages,
  populate_tlb, start_sched, sched,
}

-- The globals of the kernel, the physical pages, and the storage.
pub record System : Type 0 where
  pub os : Os
  pub physical : ℕ → ℕ → ℕ
  pub disk : Disk

-- A process of zeros.
abbrev pub no_process : Process
no_process = record {
  status = process_none;
  pid = 0;
  tlb_index = 0;
  ctx = record { s = 0; m = 0; x = 0; pc = 0; a = 0; b = 0; f = 0 };
  pages = λ i. 0;
}

unfoldable pub init_proc : Os → Os
init_proc o = record o {
  p_list = λ i. if ltb i n_proc then no_process else o.p_list i;
  current_proc_idx = 0xff;
  do_switch = false;
}

-- `init_proc` and `init_mmu`, as `main` calls them.
unfoldable pub kernel_init : System → System
kernel_init s = let o = init_proc s.os in record s { os = record o { mmu = init_mmu o.mmu } }

abbrev pub loader_of : System → Loader
loader_of s = record { mmu = s.os.mmu; physical = s.physical; disk = s.disk }

abbrev pub with_loader : System → Loader → System
with_loader s l = record {
  os = record (s.os) { mmu = l.mmu };
  physical = l.physical;
  disk = l.disk;
}

-- The entry of the process list as `start_init` fills it, before the program is loaded.
abbrev pub new_process : ℕ → ℕ → (ℕ → ℕ) → Process → Process
new_process pid tlb_index pages p = record {
  status = process_run;
  pid = pid;
  tlb_index = tlb_index;
  ctx = record (p.ctx) { pc = 0 };
  pages = pages;
}

abbrev pub enter_process : ℕ → ℕ → Os → Os
enter_process proc_idx pid o =
    let p = o.p_list proc_idx in
    let tlb = get_free_tlb o.mmu in
    let space = take_pages 16 (record { mmu = tlb.1; pages = p.pages }) in
    record o {
      p_list = update o.p_list proc_idx (new_process pid tlb.0 space.pages p);
      mmu = space.mmu;
    }

-- The last calls, once the program is loaded.
abbrev pub finish_start : ℕ → System → Loader → Option System
finish_start proc_idx s l =
    let t = with_loader s l in some (record t { os = start_sched (populate_tlb proc_idx t.os) })

abbrev pub start_process : CString → ℕ → System → ℕ → Option System
start_process path proc_idx s pid =
    let t = record s { os = enter_process proc_idx pid s.os } in
    and_then (load_process path (t.os.p_list proc_idx).pages (loader_of t))
      (finish_start proc_idx t)

-- `start_init`, up to the loop in which it waits for the first tick. Without a free process it writes
-- behind the list, where the model stops.
unfoldable pub start_init : CString → System → Option System
start_init path s =
    let proc_idx = find_free_proc s.os.p_list in
    if proc_idx == 0xff
    then none
    else and_then (get_new_pid 7 s.os.p_list) (start_process path proc_idx s)

-- `tick_counter++; sched();`
unfoldable pub tick_isr : ℕ × Os → Option (ℕ × Os)
tick_isr (tick_counter, o) = and_then (sched 6 o) (λ o'. some (u16 (tick_counter + 1), o'))

-- A row of interrupts of the timer.
unfoldable pub ticks : ℕ → ℕ × Os → Option (ℕ × Os)
ticks zero t = some t
ticks (suc n) t = and_then (tick_isr t) (ticks n)
