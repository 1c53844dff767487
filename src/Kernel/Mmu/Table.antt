-- ===== src/Kernel/Mmu/Table.antt =====
-- software/kernel/mmu.c: the stores to the TLB as a table of entries by index and page.
use cpu.Prelude.{
  ℕ, zero, suc, ◌+◌, ◌≤◌, ◌<◌, ◌≡◌, ◌∙◌, ◌&&◌, refl, true, arith, ltb, ◌==◌, if◌then◌else◌,
}
use cpu.Kernel.Mmu.{
  Mmu, tlb_base, tlbf_base, offset, write_tlb, write_tlbf, write_row, mark_pages, init_mmu,
}

pub record Entry : Type 0 where
  pub value : ℕ
  pub flags : ℕ

-- The entry that the memory unit finds for a page of an index.
abbrev pub entry : Mmu → ℕ → ℕ → Entry
entry m idx page = record {
  value = m.tlb (tlb_base + offset idx page);
  flags = m.tlb (tlbf_base + offset idx page);
}

-- A store to the TLB sets the entry of its index and page, and no other: no two entries share an
-- address, and values do not meet flags.
pub entry-write_tlb :
    (m : Mmu) (idx page i p value flags : ℕ)
    → idx < 256
    → page < 16
    → i < 256
    → p < 16
    → entry (write_tlb idx page value flags m) i p
      ≡ (if (i == idx) && (p == page) then record { value = value; flags = flags } else entry m i p)
unfolding write_tlb
entry-write_tlb m idx page i p value flags hidx hpage hi hp = ground arith

pub entry-write_tlbf :
    (m : Mmu) (idx page i p flags : ℕ)
    → idx < 256
    → page < 16
    → i < 256
    → p < 16
    → entry (write_tlbf idx page flags m) i p ≡ (
        if (i == idx) && (p == page)
        then record { value = (entry m i p).value; flags = flags }
        else entry m i p)
unfolding write_tlbf
entry-write_tlbf m idx page i p flags hidx hpage hi hp = ground arith

pub entry-write_row :
    (idx : ℕ) (values : ℕ → ℕ) (flags n : ℕ) (m : Mmu) (i p : ℕ)
    → n ≤ 16
    → idx < 256
    → i < 256
    → p < 16
    → entry (write_row idx values flags n m) i p
      ≡ (if (i == idx) && ltb p n then record { value = values p; flags = flags } else entry m i p)
unfolding write_row
entry-write_row idx values flags zero m i p hn hidx hi hp = ground arith
entry-write_row idx values flags (suc n) m i p hn hidx hi hp = ground (
  arith,
  entry-write_tlb (write_row idx values flags n m) idx n i p (values n) flags,
  entry-write_row idx values flags n m i p,
)

tlb-mark_pages : (n : ℕ) (m : Mmu) → (mark_pages n m).tlb ≡ m.tlb
unfolding mark_pages
tlb-mark_pages zero m = refl
tlb-mark_pages (suc n) m = tlb-mark_pages n m

page_refcount-mark_pages :
    (n : ℕ) (m : Mmu) (j : ℕ)
    → (mark_pages n m).page_refcount j
      ≡ (if ltb j n then (if ltb j 16 then 1 else 0) else m.page_refcount j)
unfolding mark_pages
page_refcount-mark_pages zero m j = ground arith
page_refcount-mark_pages (suc n) m j = ground (arith, page_refcount-mark_pages n m j)

-- After `init_mmu` index 0 maps each of the 16 pages to itself, readable and writable, and is the
-- current one; other indices are as they were; the kernel's 16 pages are in use and all others free.
pub init_mmu_lem :
    (m : Mmu)
    → ((i p : ℕ)
        → i < 256
        → p < 16
        → entry (init_mmu m) i p
          ≡ (if i == 0 then record { value = p; flags = 3 } else entry m i p))
      × ((j : ℕ) → j < 256 → (init_mmu m).page_refcount j ≡ (if ltb j 16 then 1 else 0))
      × ((init_mmu m).tlb_index ≡ 0)
      × ((init_mmu m).paging ≡ true)
unfolding init_mmu
init_mmu_lem m = (
  λ i p hi hp. ground (arith, tlb-mark_pages 0x100 row, entry-write_row 0 (λ i. i) 3 0x10 m i p),
  λ j h. ground (arith, page_refcount-mark_pages 0x100 row j),
  refl,
  refl,
)
  where
    row : Mmu
    row = write_row 0 (λ i. i) 3 0x10 m

tlb_map-write_row :
    (idx : ℕ) (values : ℕ → ℕ) (flags n : ℕ) (m : Mmu)
    → (write_row idx values flags n m).tlb_map ≡ m.tlb_map
unfolding write_row write_tlb
tlb_map-write_row idx values flags zero m = refl
tlb_map-write_row idx values flags (suc n) m = tlb_map-write_row idx values flags n m

tlb_map-mark_pages : (n : ℕ) (m : Mmu) → (mark_pages n m).tlb_map ≡ m.tlb_map
unfolding mark_pages
tlb_map-mark_pages zero m = refl
tlb_map-mark_pages (suc n) m = tlb_map-mark_pages n m

-- `init_mmu` leaves the TLB indices that are given out.
pub tlb_map-init_mmu : (m : Mmu) → (init_mmu m).tlb_map ≡ m.tlb_map
unfolding init_mmu
tlb_map-init_mmu m =
    tlb_map-mark_pages 0x100 (write_row 0 (λ i. i) 3 0x10 m) ∙ tlb_map-write_row 0 (λ i. i) 3 0x10 m
