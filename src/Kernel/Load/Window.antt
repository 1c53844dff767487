-- ===== src/Kernel/Load/Window.antt =====
-- software/kernel/proc.c and mmu.c: which physical bytes the window shows, and where writes go.
use cpu.Prelude.{
  ℕ, zero, suc, ◌+◌, ◌/◌, ◌%◌, ◌<◌, ◌≡◌, inl, inr, refl, sym, ap, ◌∙◌, true, false, Bool-cases,
  arith, ◌==◌, ==_refl, ◌&&◌, not, bit_and, u16,
}
use cpu.Kernel.Mmu.{Mmu, tlb_base, tlbf_base, offset, mmu_off, write_tlb}
use cpu.Kernel.Mmu.Table.{Entry, entry, entry-write_tlb}
use cpu.Kernel.Disk.{Disk}
use cpu.Kernel.Load.{Loader, map_window, page_of, writable, store, store_view}

-- The window is entry 10 of table 0, with every permission.
pub entry-map_window :
    (page : ℕ) (l : Loader)
    → entry (map_window page l).mmu 0 10 ≡ record { value = page; flags = 255 }
unfolding map_window
entry-map_window page l =
    entry-write_tlb (mmu_off l.mmu) 0 10 0 10 page 255 (omega arith) (omega arith) (omega arith)
      (omega arith)

-- With index 0 current the window is the page that was mapped.
pub page_of-window :
    (page : ℕ) (l : Loader) → l.mmu.tlb_index ≡ 0 → page_of (map_window page l).mmu 10 ≡ page
unfolding page_of map_window write_tlb
page_of-window page l kernel =
    ap (λ idx. (write_tlb 0 10 page 255 (mmu_off l.mmu)).tlb (tlb_base + offset idx 10)) kernel
    ∙ ap Entry.value (
        entry-write_tlb (mmu_off l.mmu) 0 10 0 10 page 255 (omega arith) (omega arith) (omega arith)
          (omega arith))

-- The pages of index 0 in front of the window are the kernel's, which reads and writes them.
abbrev pub Identity : Mmu → Type 0
Identity m = (p : ℕ) → p < 10 → entry m 0 p ≡ record { value = p; flags = 3 }

pub page_of-front :
    (page p : ℕ) (l : Loader)
    → l.mmu.tlb_index ≡ 0
    → Identity l.mmu
    → p < 10
    → page_of (map_window page l).mmu p ≡ p
unfolding page_of map_window write_tlb
page_of-front page p l kernel same front =
    let apart : (p == 10) ≡ false = ground (arith, front) in
    ap (λ idx. (write_tlb 0 10 page 255 (mmu_off l.mmu)).tlb (tlb_base + offset idx p)) kernel
    ∙ ap Entry.value {y = entry l.mmu 0 p} (
        entry-write_tlb (mmu_off l.mmu) 0 10 0 p page 255 (omega arith) (omega arith) (omega arith)
          (omega (arith, front))
        ∙ rw apart refl)
    ∙ ap Entry.value (same p front)

pub writable-window :
    (page : ℕ) (l : Loader) → l.mmu.tlb_index ≡ 0 → writable (map_window page l).mmu 10 ≡ true
unfolding writable map_window write_tlb
writable-window page l kernel =
    ap
      (λ idx. not (
        bit_and ((write_tlb 0 10 page 255 (mmu_off l.mmu)).tlb (tlbf_base + offset idx 10)) 2 == 0))
      kernel
    ∙ ap (λ e. not (bit_and (Entry.flags e) 2 == 0)) (entry-map_window page l)

pub writable-front :
    (page p : ℕ) (l : Loader)
    → l.mmu.tlb_index ≡ 0
    → Identity l.mmu
    → p < 10
    → writable (map_window page l).mmu p ≡ true
unfolding writable map_window write_tlb
writable-front page p l kernel same front =
    let apart : (p == 10) ≡ false = ground (arith, front) in
    ap
      (λ idx.
        not (
          bit_and ((write_tlb 0 10 page 255 (mmu_off l.mmu)).tlb (tlbf_base + offset idx p)) 2
          == 0))
      kernel
    ∙ ap (λ e. not (bit_and (Entry.flags e) 2 == 0)) {y = record { value = p; flags = 3 }}
        (entry-write_tlb (mmu_off l.mmu) 0 10 0 p page 255 (omega arith) (omega arith) (omega arith)
            (omega (arith, front))
          ∙ rw apart refl
          ∙ same p front)

-- A write changes its own byte.
store-at :
    (m : Mmu) (a byte : ℕ) (physical : ℕ → ℕ → ℕ)
    → writable m (a / 4096) ≡ true
    → store m a byte physical (page_of m (a / 4096)) (a % 4096) ≡ byte
unfolding store
store-at m a byte physical may = rw (may, ==_refl (page_of m (a / 4096)), ==_refl (a % 4096)) refl

store-other :
    (m : Mmu) (a byte q i : ℕ) (physical : ℕ → ℕ → ℕ)
    → ((q == page_of m (a / 4096)) && (i == a % 4096)) ≡ false
    → store m a byte physical q i ≡ physical q i
unfolding store
store-other m a byte q i physical other = elim (Bool-cases (writable m (a / 4096))) [
  | inl may ↦ elim (Bool-cases (q == page_of m (a / 4096))) [
    | inl same ↦
        let beside : (i == a % 4096) ≡ false = rw same at other in
        let page : q ≡ page_of m (a / 4096) = ground (arith, same) in
        rw (may, same, beside) (ap (λ p. physical p i) (sym page))
    | inr apart ↦ rw (may, apart) refl
  ]
  | inr refused ↦ rw refused refl
]

-- The writes that are none of a byte leave it.
abbrev pub Misses : Mmu → ℕ → ℕ → ℕ → Type 0
Misses m a q i = ((q == page_of m (a / 4096)) && (i == a % 4096)) ≡ false

pub miss_page : (m : Mmu) (a q i : ℕ) → (q == page_of m (a / 4096)) ≡ false → Misses m a q i
miss_page m a q i apart = rw apart refl

pub miss_place : (m : Mmu) (a q i : ℕ) → (i == a % 4096) ≡ false → Misses m a q i
miss_place m a q i apart = elim (Bool-cases (q == page_of m (a / 4096))) [
  | inl same ↦ rw (same, apart) refl
  | inr other ↦ rw other refl
]

-- An address in the window shows the page.
pub shown :
    (page i : ℕ) (l : Loader)
    → l.mmu.tlb_index ≡ 0
    → i < 4096
    → page_of (map_window page l).mmu (u16 (40960 + i) / 4096) ≡ page
shown page i l table below =
    ap (page_of (map_window page l).mmu) {x = u16 (40960 + i) / 4096} {y = 10} (omega arith)
    ∙ page_of-window page l table

-- So may be written to there.
pub writable-shown :
    (page i : ℕ) (l : Loader)
    → l.mmu.tlb_index ≡ 0
    → i < 4096
    → writable (map_window page l).mmu (u16 (40960 + i) / 4096) ≡ true
writable-shown page i l table below =
    ap (writable (map_window page l).mmu) {x = u16 (40960 + i) / 4096} {y = 10} (omega arith)
    ∙ writable-window page l table

pub store_view-other :
    (dest n q i : ℕ) (l : Loader) (r : (ℕ → ℕ) × Disk)
    → ((k : ℕ) → k < n → Misses l.mmu (u16 (dest + k)) q i)
    → (store_view dest n l r).physical q i ≡ l.physical q i
unfolding store_view
store_view-other dest zero q i l r misses = refl
store_view-other dest (suc n) q i l r misses =
    store-other l.mmu (u16 (dest + n)) (r.0 (u16 (dest + n))) q i _ (misses n (omega arith))
    ∙ store_view-other dest n q i l r (λ k below. misses k (omega arith))

pub store_view-at :
    (dest n j : ℕ) (l : Loader) (r : (ℕ → ℕ) × Disk)
    → j < n
    → writable l.mmu (u16 (dest + j) / 4096) ≡ true
    → ((k : ℕ)
        → j < k
        → k < n
        → Misses l.mmu
            (u16 (dest + k))
            (page_of l.mmu (u16 (dest + j) / 4096))
            (u16 (dest + j) % 4096))
    → (store_view dest n l r).physical
        (page_of l.mmu (u16 (dest + j) / 4096))
        (u16 (dest + j) % 4096)
      ≡ r.0 (u16 (dest + j))
unfolding store_view
store_view-at dest zero j l r below may misses = absurd (omega arith)
store_view-at dest (suc n) j l r below may misses = elim (Bool-cases (j == n)) [
  | inl last ↦
      let at : j ≡ n = ground (arith, last) in
      rw at (store-at l.mmu (u16 (dest + n)) (r.0 (u16 (dest + n))) _ (rw at at may))
  | inr earlier ↦
      let less : j < n = ground (arith, earlier) in
      store-other l.mmu (u16 (dest + n)) (r.0 (u16 (dest + n))) _ _ _ (misses n less (omega arith))
      ∙ store_view-at dest n j l r less may (λ k above under. misses k above (omega arith))
]
