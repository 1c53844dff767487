-- ===== src/Kernel/Os/Exec/Copied.antt =====
-- software/kernel/mmu.c, `memcpy_from_user`: what is copied from the page of a process.
use cpu.Prelude.{
  ℕ, zero, suc, ◌+◌, ◌/◌, ◌%◌, ◌≤◌, ◌<◌, ◌≡◌, ◌⊎◌, inl, inr, refl, ap, ap₂, ◌∙◌, [], true, false,
  Bool-cases, none, some, arith, ◌==◌, if◌then◌else◌, u16, ◌≢◌, ==_ne, sym, subst,
}
use cpu.Kernel.Mmu.{write_tlb}
use cpu.Kernel.Disk.{Disk, memcpy}
use cpu.Kernel.Disk.File.{memcpy-inside}
use cpu.Kernel.Load.Window.{
  Identity, Misses, miss_page, miss_place, page_of-window, page_of-front, writable-front,
  store_view-at, store_view-other,
}
use cpu.Kernel.Load.{window, page_of, writable, store_view, Loader, map_window, view}
use cpu.Kernel.Os.Exec.{memcpy_from_user, memcpy_from_user_single_page, text_cons, text_at}

-- What a copy leaves: the bytes of the page at the destination, and all else in front of the window and
-- in the pages from 16 on as it was.
pub record Copied (dest src n : ℕ) (pages : ℕ → ℕ) (l l' : Loader) : Type 0 where
  pub inside :
      (i : ℕ) → i < n → view l' (dest + i) ≡ l.physical (pages (src / 4096)) (src % 4096 + i)
  pub outside :
      (a : ℕ)
      → a < 40960
      → (a < dest) ⊎ (dest + n ≤ a)
      → l'.physical (a / 4096) (a % 4096) ≡ l.physical (a / 4096) (a % 4096)
  pub physical : (q i : ℕ) → 16 ≤ q → l'.physical q i ≡ l.physical q i
  pub disk : l'.disk ≡ l.disk
  pub counts : l'.mmu.page_refcount ≡ l.mmu.page_refcount
  pub table : l'.mmu.tlb_index ≡ 0

module _ (page : ℕ) (l : Loader) (table : l.mmu.tlb_index ≡ 0) (kernel : Identity l.mmu) where
  front : (a : ℕ) → a < 40960 → page_of (map_window page l).mmu (a / 4096) ≡ a / 4096
  front a below = page_of-front page (a / 4096) l table kernel (omega arith)

  -- Two addresses in front of the window are two bytes.
  apart :
      (a b : ℕ)
      → a < 40960
      → b < 40960
      → a ≢ b
      → Misses (map_window page l).mmu b (a / 4096) (a % 4096)
  apart a b low_a low_b differ = elim (Bool-cases (a % 4096 == b % 4096)) [
    | inl same ↦
        let place : a % 4096 ≡ b % 4096 = ground (arith, same) in
        let there = front b low_b in
        miss_page (map_window page l).mmu b (a / 4096) (a % 4096) (
          ==_ne (a / 4096) (page_of (map_window page l).mmu (b / 4096))
            (λ e. differ (omega (arith, e, there, place))))
    | inr other ↦ miss_place (map_window page l).mmu b (a / 4096) (a % 4096) other
  ]

  -- A page from 16 on is not in front of the window.
  behind : (q i b : ℕ) → 16 ≤ q → b < 40960 → Misses (map_window page l).mmu b q i
  behind q i b above low =
      let there = front b low in
      miss_page (map_window page l).mmu b q i (
        ==_ne q (page_of (map_window page l).mmu (b / 4096))
          (λ e. absurd (omega (arith, e, there))))

  view-window : (i : ℕ) → i < 4096 → view (map_window page l) (40960 + i) ≡ l.physical page i
  unfolding view map_window
  view-window i below =
      ap₂ l.physical
        (ap (page_of (map_window page l).mmu) {x = (40960 + i) / 4096} {y = 10} (omega arith)
          ∙ page_of-window page l table)
        (omega arith)

-- With the kernel's table current, whose pages in front of the window are themselves, with permission to
-- write: a copy of bytes that end in front of the last of their page, to a place in front of the window,
-- is carried out. From the last byte of a page on, `memcpy_from_user` halts, also where the bytes end
-- there.
pub memcpy_from_user_lem :
    (dest src n : ℕ) (pages : ℕ → ℕ) (l : Loader)
    → l.mmu.tlb_index ≡ 0
    → Identity l.mmu
    → src + n < 65536
    → dest + n ≤ 40960
    → (src % 4096 + n < 4096
        → (l' : Loader) × (memcpy_from_user dest src n pages l ≡ some l')
          × Copied dest src n pages l l')
      × (4096 ≤ src % 4096 + n → n ≤ 4096 → memcpy_from_user dest src n pages l ≡ none)
unfolding memcpy_from_user memcpy_from_user_single_page map_window write_tlb view store_view
memcpy_from_user_lem dest src n pages l table kernel range target =
    let page = pages (src / 4096) in
    let mapped = map_window page l in
    let seen = view mapped in
    let r : (ℕ → ℕ) × Disk = (memcpy seen dest seen (window + src % 4096) n, mapped.disk) in
    let l' = store_view dest n mapped r in
    let fits : (k : ℕ) → k < n → u16 (dest + k) ≡ dest + k = λ k below. omega arith in
    let misses : (k q i : ℕ)
        → k < n
        → Misses mapped.mmu (dest + k) q i
        → Misses mapped.mmu (u16 (dest + k)) q i =
      λ k q i below h. subst (λ a. Misses mapped.mmu a q i) (sym (fits k below)) h in
    (
      λ room.
          let same : (src / 4096 == u16 (src + n) / 4096) ≡ true = ground (arith, room, range) in
          (
            l',
            rw same refl,
            record {
              inside = λ i below.
                  let e = fits i below in
                  ap (λ a. l'.physical (page_of mapped.mmu (a / 4096)) (a % 4096)) (sym e)
                  ∙ store_view-at dest n i mapped r below
                      (ap (λ a. writable mapped.mmu (a / 4096)) e
                        ∙ writable-front page ((dest + i) / 4096) l table kernel (omega arith))
                      (λ k above under.
                        subst
                          (λ a.
                            Misses mapped.mmu (u16 (dest + k)) (page_of mapped.mmu (a / 4096))
                              (a % 4096))
                          (sym e)
                          (subst (λ q. Misses mapped.mmu (u16 (dest + k)) q ((dest + i) % 4096))
                            (sym (front page l table kernel (dest + i) (omega arith)))
                            (misses k ((dest + i) / 4096) ((dest + i) % 4096) under (
                              apart page l table kernel (dest + i) (dest + k) (omega arith)
                                (omega arith) (λ e. absurd (omega (arith, e)))))))
                  ∙ ap r.0 e
                  ∙ memcpy-inside seen dest seen (40960 + src % 4096) n i (omega arith) below
                  ∙ ap seen {x = 40960 + src % 4096 + i} {y = 40960 + (src % 4096 + i)}
                      (omega arith)
                  ∙ view-window page l table kernel (src % 4096 + i) (omega arith);
              outside = λ a low out.
                  store_view-other dest n (a / 4096) (a % 4096) mapped r (λ k below.
                    misses k (a / 4096) (a % 4096) below (
                      apart page l table kernel a (dest + k) low (omega arith)
                        (λ e. absurd (ground (arith, out, e)))));
              physical = λ q i above. store_view-other dest n q i mapped r (λ k below.
                  misses k q i below
                    (behind page l table kernel q i (dest + k) above (omega arith)));
              disk = refl;
              counts = refl;
              table = table;
            },
          ),
      λ across small.
          let apart : (src / 4096 == u16 (src + n) / 4096) ≡ false =
            ground (arith, across, small, range) in
          rw apart refl,
    )

-- The string at a place is that of the bytes there.
pub text_at-same :
    (mem mem' : ℕ → ℕ) (left p q : ℕ)
    → ((i : ℕ) → i < left → mem (p + i) ≡ mem' (q + i))
    → text_at mem p left ≡ text_at mem' q left
unfolding text_at
text_at-same mem mem' zero p q same = refl
text_at-same mem mem' (suc left) p q same =
    let here : mem p ≡ mem' q =
      ap mem {x = p} {y = p + 0} (omega arith)
      ∙ same 0 (omega arith)
      ∙ ap mem' {x = q + 0} {y = q} (omega arith) in
    let rest = text_at-same mem mem' left (p + 1) (q + 1) (λ i below.
      ap mem {x = p + 1 + i} {y = p + suc i} (omega arith)
      ∙ same (suc i) (omega arith)
      ∙ ap mem' {x = q + suc i} {y = q + 1 + i} (omega arith)) in
    ap₂ (λ c o. if c == 0 then some [] else text_cons c o) here rest
