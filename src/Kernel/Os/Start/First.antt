-- ===== src/Kernel/Os/Start/First.antt =====
-- software/kernel/kernel_main.c: what the first process gets, and the ticks that enter it.
use cpu.Prelude.{
  ℕ, zero, u16, for_up, ◌&&◌, suc, ◌+◌, ◌≤◌, ◌<◌, ◌≡◌, refl, ap, ◌∙◌, true, some, arith, Bool-cases,
  ltb, ◌==◌, if◌then◌else◌, update, inl, inr,
}
use cpu.Kernel.Frame.{load16, isr_ctx_pc, load_isr_ctx}
use cpu.Kernel.Mmu.{
  Mmu, mmu_off, tlb_base, tlbf_base, offset, init_mmu, get_free_tlb, first_zero, write_row,
  write_tlb_index, find_free_page, page_refcount_inc,
}
use cpu.Kernel.Mmu.Free.{find_free_page-IsFirstFree}
use cpu.Kernel.Mmu.Table.{Entry, entry, entry-write_row, init_mmu_lem, tlb_map-init_mmu}
use cpu.Kernel.Klib.{CString}
use cpu.Kernel.Load.{Loader, load_process, and_then, page_of}
use cpu.Kernel.Os.{
  Os, Space, find_free_proc, get_new_pid, new_pid, pid_taken, take_pages, take_page, sched,
  next_run, save_current, switch_to, process_run, start_sched, populate_tlb,
}
use cpu.Kernel.Os.Start.{
  System, kernel_init, init_proc, loader_of, with_loader, enter_process, finish_start, start_init,
  ticks, tick_isr,
}

-- Pages 0 to 15 and `n` more are in use once, the others are free.
abbrev pub Counts : ℕ → Mmu → Type 0
Counts n m = (j : ℕ) → j < 256 → m.page_refcount j ≡ (if ltb j (16 + n) then 1 else 0)

find_free_page-Counts : (n : ℕ) (m : Mmu) → n < 16 → Counts n m → find_free_page m ≡ 16 + n
find_free_page-Counts n m below counts =
    let p = find_free_page m in
    elim (find_free_page-IsFirstFree m) [
      | inl (low, high, free, first) ↦ elim (Bool-cases (ltb p (16 + n))) [
        | inl under ↦ absurd (ground (arith, counts p high, free, under))
        | inr above ↦ elim (Bool-cases (ltb (16 + n) p)) [
          | inl over ↦ absurd (
              first (16 + n) (omega arith) (ground (arith, over))
                (ground (arith, counts (16 + n) (omega arith))))
          | inr at ↦ ground (arith, above, at)
        ]
      ]
      | inr (none_free, used) ↦ absurd (
          used (16 + n) (omega arith) (omega arith) (ground (arith, counts (16 + n) (omega arith))))
    ]

-- On a kernel that has given out no page, the pages of a process are those from 16 on.
pub take_pages-first :
    (n : ℕ) (s : Space)
    → n ≤ 16
    → Counts 0 s.mmu
    → ((i : ℕ) → i < n → (take_pages n s).pages i ≡ 16 + i) × Counts n (take_pages n s).mmu
unfolding take_pages take_page page_refcount_inc
take_pages-first zero s room counts = (λ i below. absurd (omega arith), counts)
take_pages-first (suc n) s room counts =
    let (pages, on) = take_pages-first n s (omega arith) counts in
    let page = find_free_page-Counts n (take_pages n s).mmu (omega arith) on in
    (λ i below. ground (arith, pages i, page), λ j below. ground (arith, on j below, page))

-- What the eighth tick leaves: process 0 runs, with its TLB index, its context in the frame.
pub record Entered (o : Os) (t : ℕ × Os) : Type 0 where
  pub current : t.1.current_proc_idx ≡ 0
  pub tlb_index : t.1.mmu.tlb_index ≡ (o.p_list 0).tlb_index
  pub memory : t.1.memory ≡ load_isr_ctx (o.p_list 0).ctx o.memory
  pub rows : t.1.mmu.tlb ≡ o.mmu.tlb
  pub paging : t.1.mmu.paging ≡ o.mmu.paging

-- The first switch comes from the kernel, whose frame is not saved.
pub ticks-Entered :
    (o : Os) (count : ℕ)
    → o.current_proc_idx ≡ 0xff
    → (o.p_list 0).status ≡ process_run
    → (t : ℕ × Os) × (ticks 8 (count, start_sched o) ≡ some t) × Entered o t
unfolding ticks tick_isr sched next_run save_current switch_to write_tlb_index start_sched
ticks-Entered o count kernel runs = (
  (for_up 8 (λ i c. u16 (c + 1)) count, switch_to 0 (start_sched o)),
  rw (kernel, runs) refl,
  record { current = refl; tlb_index = refl; memory = refl; rows = refl; paging = refl },
)

-- The process list and the memory unit when `load_process` is called.
abbrev pub entered : System → System
entered s = let k = kernel_init s in record k { os = enter_process 0 1 k.os }

get_free_tlb-first :
    (m : Mmu) → m.tlb_map 1 ≡ 0 → get_free_tlb m ≡ (1, record m { tlb_map = update m.tlb_map 1 1 })
unfolding get_free_tlb first_zero
get_free_tlb-first m free = rw free refl

-- The pages of the process in `entered`, and its TLB index.
pub entered-first :
    (s : System)
    → s.os.mmu.tlb_map 1 ≡ 0
    → ((i : ℕ) → i < 16 → ((entered s).os.p_list 0).pages i ≡ 16 + i)
      × (((entered s).os.p_list 0).tlb_index ≡ 1)
unfolding kernel_init init_proc
entered-first s index =
    let m = init_mmu s.os.mmu in
    let free : m.tlb_map 1 ≡ 0 = ap (λ f. f 1) (tlb_map-init_mmu s.os.mmu) ∙ index in
    let got = get_free_tlb-first m free in
    let counts : Counts 0 (get_free_tlb m).1 =
      λ j below. ap (λ r. r.1.page_refcount j) got ∙ (init_mmu_lem s.os.mmu).1 j below in
    (
      (take_pages-first 16 (record { mmu = (get_free_tlb m).1; pages = λ i. 0 }) (omega arith)
          counts).0,
      ap (λ r. r.0) got,
    )

tlb_index-take_pages : (n : ℕ) (s : Space) → (take_pages n s).mmu.tlb_index ≡ s.mmu.tlb_index
unfolding take_pages take_page page_refcount_inc
tlb_index-take_pages zero s = refl
tlb_index-take_pages (suc n) s = tlb_index-take_pages n s

-- `load_process` is called with the kernel's own table.
pub entered-table : (s : System) → s.os.mmu.tlb_map 1 ≡ 0 → (entered s).os.mmu.tlb_index ≡ 0
unfolding kernel_init init_proc
entered-table s index =
    let m = init_mmu s.os.mmu in
    let free : m.tlb_map 1 ≡ 0 = ap (λ f. f 1) (tlb_map-init_mmu s.os.mmu) ∙ index in
    tlb_index-take_pages 16 (record { mmu = (get_free_tlb m).1; pages = λ i. 0 })
    ∙ ap (λ r. r.1.tlb_index) (get_free_tlb-first m free)
    ∙ (init_mmu_lem s.os.mmu).2

-- What `start_init` leaves, once `load_process` has left `l`.
abbrev pub finished : System → Loader → System
finished s l =
    let t = with_loader (entered s) l in record t { os = start_sched (populate_tlb 0 t.os) }

pub start_init-finished :
    (path : CString) (s : System) (l : Loader)
    → load_process path ((entered s).os.p_list 0).pages (loader_of (entered s)) ≡ some l
    → start_init path (kernel_init s) ≡ some (finished s l)
unfolding start_init kernel_init init_proc find_free_proc get_new_pid new_pid pid_taken
start_init-finished path s l ran = ap (λ o. and_then o (finish_start 0 (entered s))) ran

pub finished-process :
    (s : System) (l : Loader)
    → (((finished s l).os.p_list 0).status ≡ process_run) × (((finished s l).os.p_list 0).pid ≡ 1)
unfolding start_sched populate_tlb kernel_init init_proc
finished-process s l = (refl, refl)

-- The machine after the switch: the process runs from 0, and sees its pages.
pub record Runs (o : Os) : Type 0 where
  pub current : o.current_proc_idx ≡ 0
  pub pc : load16 isr_ctx_pc o.memory ≡ 0
  pub tlb_index : o.mmu.tlb_index ≡ 1
  pub paging : o.mmu.paging ≡ true
  pub mapped : (p : ℕ) → p < 16 → entry o.mmu 1 p ≡ record { value = 16 + p; flags = 1 }

pub finished-Runs :
    (s : System) (l : Loader) (count : ℕ)
    → s.os.mmu.tlb_map 1 ≡ 0
    → (t : ℕ × Os) × (ticks 8 (count, (finished s l).os) ≡ some t) × Runs t.1
unfolding populate_tlb kernel_init init_proc load_isr_ctx
finished-Runs s l count index =
    let first = entered-first s index in
    let o = populate_tlb 0 (with_loader (entered s) l).os in
    let pages = ((entered s).os.p_list 0).pages in
    let entry_of : ℕ → (ℕ → ℕ) → Entry = λ p tlb. record {
      value = tlb (tlb_base + offset 1 p);
      flags = tlb (tlbf_base + offset 1 p);
    } in
    let mapped_to : (p : ℕ)
        → p < 16
        → (if (1 == 1) && ltb p 16
            then record { value = pages p; flags = 1 }
            else entry (mmu_off l.mmu) 1 p)
          ≡ record { value = 16 + p; flags = 1 } =
      λ p below.
        let inside : ltb p 16 ≡ true = ground (arith, below) in
        rw inside (ap (λ v. record { value = v; flags = 1 }) (first.0 p below)) in
    let (t, ticked, ent) = ticks-Entered o count refl refl in
    (
      t,
      ticked,
      record {
        current = ent.current;
        pc = ap (load16 isr_ctx_pc) ent.memory ∙ refl;
        tlb_index = ent.tlb_index ∙ first.1;
        paging = ent.paging;
        mapped = λ p below.
            ap (entry_of p) ent.rows
            ∙ ap (λ idx. entry (write_row idx pages 1 16 (mmu_off l.mmu)) 1 p) first.1
            ∙ entry-write_row 1 pages 1 16 (mmu_off l.mmu) 1 p (omega arith) (omega arith)
                (omega arith) below
            ∙ mapped_to p below;
      },
    )

-- What the process reads from its page `p`.
pub page_of-Runs : (o : Os) (p : ℕ) → Runs o → p < 16 → page_of o.mmu p ≡ 16 + p
unfolding page_of
page_of-Runs o p runs below = rw runs.paging (
    ap (λ idx. o.mmu.tlb (tlb_base + offset idx p)) runs.tlb_index
    ∙ ap Entry.value (runs.mapped p below))
