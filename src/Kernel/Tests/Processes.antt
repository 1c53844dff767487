-- ===== src/Kernel/Tests/Processes.antt =====
-- software/kernel/proc.c, interrupts.c and the page loops: runs and instances.
use cpu.Prelude.{ℕ, ◌<◌, ◌≤◌, ◌+◌, ◌%◌, ◌≡◌, inl, refl, arith, true, some, if◌then◌else◌, ltb, ◌==◌}
use cpu.Kernel.Mmu.{Mmu}
use cpu.Kernel.Frame.{IsrCtx, Memory}
use cpu.Kernel.Os.{Process, Os, Space, next_run, sched, take_pages, replace_pages}
use cpu.Kernel.Os.Turn.{CanRun, NoneRuns}
use cpu.Kernel.Os.Switch.{Switched, sched_switches, switches, switches-ends}
use cpu.Kernel.Os.Pages.{Fresh, Exclusive, take_pages-Fresh, replace_pages-Exclusive}

abbrev context : IsrCtx
context = record { s = 0x8ff; m = 0x1234; x = 7; pc = 0x40; a = 1; b = 2; f = 3 }

abbrev memory : Memory
memory = λ a. 9

-- Processes 1 and 4 can run; the other slots are free.
abbrev process : ℕ → Process
process i = record {
  status = if (i == 1) then 1 else if (i == 4) then 1 else 0;
  pid = i;
  tlb_index = i + 1;
  ctx = context;
  pages = λ k. 16 + k;
}

abbrev mmu : Mmu
mmu = record {
  page_refcount = λ p. if ltb p 32 then 1 else 0;
  tlb_map = λ i. 0;
  tlb = λ a. 0;
  tlb_index = 2;
  paging = true;
}

abbrev pub os : Os
os = record {
  p_list = process;
  current_proc_idx = 1;
  do_switch = true;
  ticks_to_next_switch = 1;
  mmu = mmu;
  memory = memory;
}

next_run-1 : next_run 6 process 1 ≡ some 4
unfolding next_run
next_run-1 = refl

switches-ends_example :
    (k : ℕ) × (o' : Os) × (0 < k) × (k ≤ 6) × (switches k os ≡ some o') × (o'.current_proc_idx ≡ 4)
switches-ends_example = switches-ends 4 os refl (inl (omega arith)) (omega arith) refl

sched_switches_example :
    (k : ℕ) × (o' : Os) × (sched 6 os ≡ some o')
    × (k < 6)
    × CanRun process ((2 + k) % 6)
    × NoneRuns process 2 k
    × Switched os ((2 + k) % 6) o'
sched_switches_example = sched_switches os 4 refl refl (inl (omega arith)) (omega arith) refl

abbrev space : Space
space = record { mmu = mmu; pages = λ k. 16 + k }

take_pages-Fresh_example : Fresh space (take_pages 16 space) 16
take_pages-Fresh_example = take_pages-Fresh 16 space

space-Exclusive : Exclusive space
space-Exclusive = record { own = λ i h. ground arith; distinct = λ i j h k ne. omega arith }

replace_pages-Exclusive_example : Exclusive (replace_pages 16 space)
replace_pages-Exclusive_example = replace_pages-Exclusive 16 space (omega arith) space-Exclusive
