-- ===== src/Kernel/Os.antt =====
-- software/kernel/proc.c, `populate_tlb` of mmu.c, and the loops over the pages of a process in
-- `start_init` of kernel_main.c and `sys_exec` of syscall.c: the process list, the scheduler, and the
-- pages of a process.
pub mod Slots
pub mod Turn
pub mod Switch
pub mod Pages
pub mod Start
pub mod Exec
use mathlib.Core.Option
use cpu.Prelude.{
  ℕ, zero, suc, ◌+◌, Bool, true, false, Option, none, some, ◌&&◌, not, u8, ltb, leb, ◌==◌,
  if◌then◌else◌, update, for_up,
}
use cpu.Kernel.Mmu.{
  Mmu, mmu_on, mmu_off, write_row, write_tlb_index, find_free_page, page_refcount_inc,
  page_refcount_dec,
}
use cpu.Kernel.Frame.{Memory, IsrCtx, save_isr_ctx, load_isr_ctx}

abbrev pub n_proc : ℕ
n_proc = 6

abbrev pub ticks_to_switch : ℕ
ticks_to_switch = 8

abbrev pub process_none : ℕ
process_none = 0

abbrev pub process_run : ℕ
process_run = 1

pub record Process : Type 0 where
  pub status : ℕ
  pub pid : ℕ
  pub tlb_index : ℕ
  pub ctx : IsrCtx
  pub pages : ℕ → ℕ

-- The globals of proc.c, the memory unit, and the memory that holds the interrupt frame.
pub record Os : Type 0 where
  pub p_list : ℕ → Process
  pub current_proc_idx : ℕ
  pub do_switch : Bool
  pub ticks_to_next_switch : ℕ
  pub mmu : Mmu
  pub memory : Memory

-- `for(i = 0; i<N_PROC; i++) if(status == PROCESS_NONE) return i; return 0xff;` with `left` rounds.
free_slot : (ℕ → Process) → ℕ → ℕ → ℕ
free_slot ps i zero = 0xff
free_slot ps i (suc left) =
    let rest = free_slot ps (i + 1) left in if (ps i).status == process_none then i else rest

unfoldable pub find_free_proc : (ℕ → Process) → ℕ
unfolding free_slot
find_free_proc ps = free_slot ps 0 n_proc

-- The inner loop of `get_new_pid` from `i` on: whether a live process has the pid.
pub pid_taken : (ℕ → Process) → ℕ → ℕ → ℕ → Bool
pid_taken ps pid i zero = false
pid_taken ps pid i (suc left) =
    if ((ps i).pid == pid) && not ((ps i).status == process_none)
    then true
    else pid_taken ps pid (i + 1) left

-- The outer loop; `none` means that the rounds ran out.
new_pid : ℕ → (ℕ → Process) → ℕ → Option ℕ
new_pid zero ps pid = none
new_pid (suc fuel) ps pid =
    let rest = new_pid fuel ps (u8 (pid + 1)) in
    if pid_taken ps pid 0 n_proc then rest else some pid

pub get_new_pid : ℕ → (ℕ → Process) → Option ℕ
get_new_pid fuel ps = new_pid fuel ps 1

-- What a process has of the memory unit: the counts, and its own pages.
pub record Space : Type 0 where
  pub mmu : Mmu
  pub pages : ℕ → ℕ

-- One round of the loop of `start_init`: `pages[i] = find_free_page(); page_refcount_inc(pages[i]);`
pub take_page : ℕ → Space → Space
take_page i s =
    let p = find_free_page s.mmu in
    record { mmu = page_refcount_inc p s.mmu; pages = update s.pages i p }

-- One round of the loop of `sys_exec`, which gives the old page back first.
pub replace_page : ℕ → Space → Space
replace_page i s = take_page i (record s { mmu = page_refcount_dec (s.pages i) s.mmu })

pub take_pages : ℕ → Space → Space
take_pages n = for_up n take_page

pub replace_pages : ℕ → Space → Space
replace_pages n = for_up n replace_page

pub populate_tlb : ℕ → Os → Os
populate_tlb proc_idx o =
    let p = o.p_list proc_idx in
    record o { mmu = mmu_on (write_row p.tlb_index p.pages 1 16 (mmu_off o.mmu)) }

pub start_sched : Os → Os
start_sched o = record o { do_switch = true; ticks_to_next_switch = ticks_to_switch }

-- `while(1)` of `sched`: the index of the process to run; `none` means that the rounds ran out.
unfoldable pub next_run : ℕ → (ℕ → Process) → ℕ → Option ℕ
next_run zero ps cur = none
next_run (suc fuel) ps cur =
    let above = u8 (cur + 1) in
    let i = if leb n_proc above then 0 else above in
    let rest = next_run fuel ps i in if (ps i).status == process_run then some i else rest

save_current : Os → Os
save_current o = if o.current_proc_idx == 0xff then o else record o {
  p_list =
      update o.p_list o.current_proc_idx
        (record (o.p_list o.current_proc_idx) { ctx = save_isr_ctx o.memory });
}

pub switch_to : ℕ → Os → Os
switch_to i o = record o {
  current_proc_idx = i;
  memory = load_isr_ctx (o.p_list i).ctx o.memory;
  mmu = write_tlb_index (o.p_list i).tlb_index o.mmu;
}

-- `none` means that the search for a process to run did not end within the fuel.
pub sched : ℕ → Os → Option Os
sched fuel o =
    let ticks = u8 (o.ticks_to_next_switch + 255) in
    let saved = save_current (record o { ticks_to_next_switch = ticks_to_switch }) in
    if o.do_switch
    then (if ltb 0 ticks
        then some (record o { ticks_to_next_switch = ticks })
        else Option.map (λ i. switch_to i saved) (next_run fuel saved.p_list o.current_proc_idx))
    else some o

pub force_sched : ℕ → Os → Option Os
force_sched fuel o = sched fuel (record o { ticks_to_next_switch = 1 })

pub skip_next_proc_frame_save : Os → Os
skip_next_proc_frame_save o = record o { current_proc_idx = 0xff }
