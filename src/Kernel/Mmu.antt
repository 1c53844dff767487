-- ===== src/Kernel/Mmu.antt =====
-- software/kernel/mmu.c: reference counts of physical pages, the allocation of TLB indices, and the
-- stores to the TLB of the memory bus.
pub mod Free
pub mod Table
use cpu.Prelude.{
  ℕ, zero, suc, ◌+◌, Bool, true, false, u8, u16, ◌<<<◌, ltb, ◌==◌, if◌then◌else◌, update, for_up,
}

-- `tlb` is the bus from TLB_BASE on; `tlb_index` and `paging` are what the stores to TLB_INDEX,
-- SET_PAGING and RESET_PAGING leave in the memory unit.
pub record Mmu : Type 0 where
  pub page_refcount : ℕ → ℕ
  pub tlb_map : ℕ → ℕ
  pub tlb : ℕ → ℕ
  pub tlb_index : ℕ
  pub paging : Bool

abbrev pub tlb_base : ℕ
tlb_base = 0x6000

abbrev pub tlbf_base : ℕ
tlbf_base = 0x7000

abbrev pub offset : ℕ → ℕ → ℕ
offset idx page = u16 (idx <<< 4 + page)

unfoldable pub write_tlbf : ℕ → ℕ → ℕ → Mmu → Mmu
write_tlbf idx page flags m = record m {
  tlb = update m.tlb (u16 (tlbf_base + offset idx page)) flags;
}

unfoldable pub write_tlb : ℕ → ℕ → ℕ → ℕ → Mmu → Mmu
write_tlb idx page value flags m = record m {
  tlb =
      update (update m.tlb (u16 (tlb_base + offset idx page)) value)
        (u16 (tlbf_base + offset idx page)) flags;
}

abbrev pub mmu_on : Mmu → Mmu
mmu_on m = record m { paging = true }

abbrev pub mmu_off : Mmu → Mmu
mmu_off m = record m { paging = false }

unfoldable pub write_tlb_index : ℕ → Mmu → Mmu
write_tlb_index idx m = record m { tlb_index = idx }

-- `for(i = 0; i<n; i++) write_tlb(idx, i, values[i], flags)`, in `init_mmu` and `populate_tlb`.
pub write_row : ℕ → (ℕ → ℕ) → ℕ → ℕ → Mmu → Mmu
write_row idx values flags n = for_up n (λ i m. write_tlb idx i (values i) flags m)

-- The loop of `init_mmu` over the counts, `n` rounds of it.
mark_pages : ℕ → Mmu → Mmu
mark_pages n =
    for_up n
      (λ i m. record m { page_refcount = update m.page_refcount i (if ltb i 0x10 then 1 else 0) })

pub init_mmu : Mmu → Mmu
unfolding write_tlb_index
init_mmu m = mmu_on (write_tlb_index 0 (mark_pages 0x100 (write_row 0 (λ i. i) 3 0x10 m)))

-- `while(1) { if(t[i] == 0) return i; if(i == 0xff) return 0; i++; }`, the loop of `find_free_page`
-- and `get_free_tlb`, where `left` is `0xff - i`.
unfoldable pub first_zero : (ℕ → ℕ) → ℕ → ℕ → ℕ
first_zero t i zero = if t i == 0 then i else 0
first_zero t i (suc left) = let rest = first_zero t (i + 1) left in if t i == 0 then i else rest

unfoldable pub find_free_page : Mmu → ℕ
find_free_page m = first_zero m.page_refcount 0x10 0xef

-- 0 is returned with no mark where the table is full.
unfoldable pub get_free_tlb : Mmu → ℕ × Mmu
get_free_tlb m =
    let i = first_zero m.tlb_map 0x01 0xfe in
    if i == 0 then (0, m) else (i, record m { tlb_map = update m.tlb_map i 1 })

unfoldable pub release_tlb : ℕ → Mmu → Mmu
release_tlb idx m = record m { tlb_map = update m.tlb_map idx 0 }

unfoldable pub page_refcount_inc : ℕ → Mmu → Mmu
page_refcount_inc page m = record m {
  page_refcount = update m.page_refcount page (u8 (m.page_refcount page + 1));
}

unfoldable pub page_refcount_dec : ℕ → Mmu → Mmu
page_refcount_dec page m = record m {
  page_refcount = update m.page_refcount page (u8 (m.page_refcount page + 255));
}
