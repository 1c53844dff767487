-- ===== src/Kernel/Os/Exec/Replaced.antt =====
-- software/kernel/syscall.c, `sys_exec`: the calls in a row, and what they leave to the process.
use cpu.Prelude.{
  ℕ, ◌<◌, ◌≡◌, refl, ap, ◌∙◌, true, false, some, arith, ltb, ◌==◌, ==_refl, zero, suc,
}
use cpu.Kernel.Frame.{load16, isr_ctx_x, isr_ctx_pc}
use cpu.Kernel.Klib.{CString}
use cpu.Kernel.Mmu.{mmu_off, write_tlb_index, page_refcount_inc, page_refcount_dec}
use cpu.Kernel.Mmu.Table.{entry, entry-write_row}
use cpu.Kernel.Disk.{Disk}
use cpu.Kernel.Directory.{found, stat}
use cpu.Kernel.Load.{view, Loader, and_then, load_process}
use cpu.Kernel.Os.{Process, Os, Space, populate_tlb, replace_pages, replace_page, take_page}
use cpu.Kernel.Os.Pages.{Exclusive, replace_pages-Exclusive}
use cpu.Kernel.Os.Start.{System, loader_of, with_loader}
use cpu.Kernel.Os.Exec.{
  memcpy_from_user, text_at, enter_kernel, leave_kernel, exchange_pages, exec_loaded, exec_stat,
  exec_path, exec_copied, sys_exec,
}

abbrev pub current_process : System → Process
current_process s = s.os.p_list s.os.current_proc_idx

-- The kernel behind `memcpy_from_user`, and behind `stat`.
abbrev pub looked_up : System → Loader → Disk → System
looked_up s l disk = record (with_loader (enter_kernel s) l) { disk = disk }

-- The calls of `sys_exec` in a row, where each of them succeeds.
pub sys_exec-loaded :
    (buf : ℕ) (path : CString) (s : System) (l l' : Loader) (disk : Disk) (blk size : ℕ)
    → memcpy_from_user buf
        (load16 isr_ctx_x s.os.memory)
        16
        (current_process s).pages
        (loader_of (enter_kernel s))
      ≡ some l
    → text_at (view l) buf 16 ≡ some path
    → stat path l.disk ≡ some (found blk size, disk)
    → load_process path
        (current_process (exchange_pages (looked_up s l disk))).pages
        (loader_of (exchange_pages (looked_up s l disk)))
      ≡ some l'
    → sys_exec buf s ≡ some (exec_loaded (exchange_pages (looked_up s l disk)) l')
unfolding sys_exec enter_kernel
sys_exec-loaded buf path s l l' disk blk size copied text looked ran =
    let t = enter_kernel s in
    let u = exchange_pages (looked_up s l disk) in
    ap (λ o. and_then o (exec_copied buf t)) copied
    ∙ ap (λ o. and_then o (exec_path (with_loader t l))) text
    ∙ ap (λ o. and_then o (exec_stat path (with_loader t l))) looked
    ∙ ap (λ o. and_then o (λ l. some (exec_loaded u l))) ran

-- What a process is entered with: its program from 0 on, and its pages under its index.
pub record Enters (p : Process) (o : Os) : Type 0 where
  pub pc : load16 isr_ctx_pc o.memory ≡ 0
  pub tlb_index : o.mmu.tlb_index ≡ p.tlb_index
  pub mapped :
      (k : ℕ) → k < 16 → entry o.mmu p.tlb_index k ≡ record { value = p.pages k; flags = 1 }

pub exec_loaded-Enters :
    (t : System) (l : Loader)
    → (current_process t).tlb_index < 256
    → Enters (current_process t) (exec_loaded t l).1.os
unfolding leave_kernel populate_tlb write_tlb_index
exec_loaded-Enters t l small =
    let p = current_process t in
    record {
      pc = refl;
      tlb_index = refl;
      mapped = λ k below.
          entry-write_row p.tlb_index p.pages 1 16 (mmu_off l.mmu) p.tlb_index k (omega arith) small
            small below
          ∙ (let inside : ltb k 16 ≡ true = ground (arith, below) in
              rw (==_refl p.tlb_index, inside) refl);
    }

-- What `exec_loaded` leaves alone.
pub exec_loaded-kept :
    (t : System) (l : Loader)
    → (current_process (exec_loaded t l).1 ≡ current_process t)
      × ((exec_loaded t l).1.os.p_list ≡ t.os.p_list)
      × ((exec_loaded t l).1.physical ≡ l.physical)
unfolding leave_kernel populate_tlb
exec_loaded-kept t l = (refl, refl, refl)

-- The pages of the process behind `sys_exec`.
abbrev pub own_space : System → Space
own_space s = record { mmu = s.os.mmu; pages = (current_process s).pages }

pub exchange_pages-Exclusive :
    (s : System)
    → Exclusive (own_space s)
    → Exclusive (own_space (exchange_pages s))
      × ((current_process (exchange_pages s)).tlb_index ≡ (current_process s).tlb_index)
      × ((i : ℕ)
          → (i == s.os.current_proc_idx) ≡ false
          → (exchange_pages s).os.p_list i ≡ s.os.p_list i)
exchange_pages-Exclusive s own =
    let new = replace_pages-Exclusive 16 (own_space s) (omega arith) own in
    rw (==_refl s.os.current_proc_idx) (new, refl, λ i other. rw other refl)

pub tlb_index-replace_pages :
    (n : ℕ) (s : Space) → (replace_pages n s).mmu.tlb_index ≡ s.mmu.tlb_index
unfolding replace_pages replace_page take_page page_refcount_inc page_refcount_dec
tlb_index-replace_pages zero s = refl
tlb_index-replace_pages (suc n) s = tlb_index-replace_pages n s
