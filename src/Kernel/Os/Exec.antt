-- ===== src/Kernel/Os/Exec.antt =====
-- software/kernel/syscall.c, `sys_exec`, and `memcpy_from_user` of mmu.c. The messages are left out.
pub mod Copied
pub mod Replaced
use cpu.Prelude.{
  ℕ, zero, suc, ◌+◌, ◌/◌, ◌%◌, Bool, true, false, Option, none, some, List, [], ◌∷◌, ◌==◌,
  if◌then◌else◌, update, u16,
}
use cpu.Kernel.Frame.{Memory, load16, store16, store8, isr_ctx_x, isr_ctx_b, isr_ctx_pc}
use cpu.Kernel.Klib.{CString}
use cpu.Kernel.Mmu.{Mmu, mmu_off, write_tlb_index}
use cpu.Kernel.Disk.{Disk, memcpy}
use cpu.Kernel.Directory.{Found, found, missing, beyond, stat}
use cpu.Kernel.Load.{Loader, window, map_window, view, store_view, and_then, load_process}
use cpu.Kernel.Os.{Process, Os, Space, replace_pages, populate_tlb}
use cpu.Kernel.Os.Start.{System, loader_of, with_loader}

-- The copy through the window, which shows the user's page.
unfoldable pub memcpy_from_user_single_page : ℕ → ℕ → ℕ → (ℕ → ℕ) → Loader → Loader
memcpy_from_user_single_page dest src n pages l =
    let mapped = map_window (pages (src / 4096)) l in
    let seen = view mapped in
    store_view dest n mapped (memcpy seen dest seen (window + src % 4096) n, mapped.disk)

-- `none` is the `hlt` behind the message for two pages.
unfoldable pub memcpy_from_user : ℕ → ℕ → ℕ → (ℕ → ℕ) → Loader → Option Loader
memcpy_from_user dest src n pages l =
    if src / 4096 == u16 (src + n) / 4096
    then some (memcpy_from_user_single_page dest src n pages l)
    else none

-- A character in front of a string.
abbrev pub text_cons : ℕ → Option CString → Option CString
text_cons c none = none
text_cons c (some s) = some (c ∷ s)

-- The string in `left` bytes of a buffer; without an end it goes on behind the buffer, where the model
-- stops.
unfoldable pub text_at : (ℕ → ℕ) → ℕ → ℕ → Option CString
text_at mem p zero = none
text_at mem p (suc left) =
    let rest = text_at mem (p + 1) left in if mem p == 0 then some [] else text_cons (mem p) rest

-- `MMU_OFF(); write_tlb_index(p_list[current_proc_idx].tlb_index);`
unfoldable pub leave_kernel : System → System
leave_kernel s =
    let o = s.os in
    let idx = (o.p_list o.current_proc_idx).tlb_index in
    record s { os = record o { mmu = write_tlb_index idx (mmu_off o.mmu) } }

abbrev pub set_frame : (Memory → Memory) → System → System
set_frame f s = record s { os = record (s.os) { memory = f s.os.memory } }

-- The result says whether the call left through the epilogue.
abbrev pub exec_missing : System → Bool × System
exec_missing s = (false, set_frame (store8 isr_ctx_b 1) (leave_kernel s))

-- The process with its new pages.
abbrev pub exchange_pages : System → System
exchange_pages s =
    let o = s.os in
    let p = o.p_list o.current_proc_idx in
    let space = replace_pages 16 (record { mmu = o.mmu; pages = p.pages }) in
    record s {
      os = record o {
        p_list = update o.p_list o.current_proc_idx (record p { pages = space.pages });
        mmu = space.mmu;
      };
    }

abbrev pub exec_loaded : System → Loader → Bool × System
exec_loaded s l =
    let t = with_loader s l in
    let populated = record t { os = populate_tlb t.os.current_proc_idx t.os } in
    (true, leave_kernel (set_frame (store16 isr_ctx_pc 0) populated))

abbrev pub exec_found : CString → System → Option (Bool × System)
exec_found path s =
    let t = exchange_pages s in
    and_then (load_process path (t.os.p_list t.os.current_proc_idx).pages (loader_of t))
      (λ l. some (exec_loaded t l))

abbrev pub exec_stat : CString → System → Found × Disk → Option (Bool × System)
exec_stat path s (missing, disk) = some (exec_missing (record s { disk = disk }))
exec_stat path s (beyond, disk) = none
exec_stat path s (found blk size, disk) = exec_found path (record s { disk = disk })

abbrev pub exec_path : System → CString → Option (Bool × System)
exec_path s path = and_then (stat path s.disk) (exec_stat path s)

abbrev pub exec_copied : ℕ → System → Loader → Option (Bool × System)
exec_copied buf s l = and_then (text_at (view l) buf 16) (exec_path (with_loader s l))

-- `MMU_OFF(); write_tlb_index(0);`
unfoldable pub enter_kernel : System → System
enter_kernel s =
    let o = s.os in record s { os = record o { mmu = write_tlb_index 0 (mmu_off o.mmu) } }

-- `buf` is the address of the local array of 16 bytes.
unfoldable pub sys_exec : ℕ → System → Option (Bool × System)
sys_exec buf s =
    let t = enter_kernel s in
    let p = t.os.p_list t.os.current_proc_idx in
    and_then (memcpy_from_user buf (load16 isr_ctx_x t.os.memory) 16 p.pages (loader_of t))
      (exec_copied buf t)
