-- ===== src/Kernel/Load/Loaded.antt =====
-- software/kernel/proc.c: `load_process` fills the pages of the process with the file.
use cpu.Prelude.{
  ℕ, zero, suc, ◌+◌, ◌-◌, ◌*◌, ◌/◌, ◌%◌, ◌≤◌, ◌<◌, ◌≡◌, refl, sym, ap, ap₂, ◌∙◌, subst, ◌⊎◌, inl,
  inr, false, Option, some, arith, ltb, ◌==◌, ==_ne, Bool-cases, u8, u16,
}
use cpu.Kernel.Disk.{Storage}
use cpu.Kernel.Disk.Cache.{Ready}
use cpu.Kernel.Disk.File.{byte_at, read_file-Delivered}
use cpu.Kernel.Mmu.{write_tlb}
use cpu.Kernel.Load.Window.{
  shown, writable-shown, miss_page, miss_place, store_view-at, store_view-other,
}
use cpu.Kernel.Load.{
  Loader, window, map_window, view, store_view, and_then, load_page, read_now, load_loop,
}

-- The bytes of the file up to a place are in the pages.
abbrev pub Filled : (ℕ → ℕ) → ℕ → Storage → ℕ → (ℕ → ℕ → ℕ) → Type 0
Filled pages blk storage size physical =
    (j : ℕ) → j < size → physical (pages (j / 4096)) (j % 4096) ≡ byte_at storage blk j

-- The pages of a process are distinct.
abbrev pub Distinct : (ℕ → ℕ) → Type 0
Distinct pages = (i j : ℕ) → i < 16 → j < 16 → pages i ≡ pages j → i ≡ j

-- What a page holds after its round, and that the storage can be read again.
record Round (page blk already now : ℕ) (l l' : Loader) : Type 0 where
  table : l'.mmu.tlb_index ≡ 0
  ready : Ready l'.disk
  storage : l'.disk.storage ≡ l.disk.storage
  inside : (i : ℕ) → i < now → l'.physical page i ≡ byte_at l.disk.storage blk (already + i)
  others : (p i : ℕ) → (p == page) ≡ false → l'.physical p i ≡ l.physical p i

load_page-Round :
    (page blk already now : ℕ) (l : Loader)
    → l.mmu.tlb_index ≡ 0
    → Ready l.disk
    → already + now < 65536
    → now ≤ 4096
    → blk + (already + now) / 256 < 65536
    → (l' : Loader) × (load_page page blk already now l ≡ some l') × Round page blk already now l l'
unfolding load_page map_window store_view write_tlb
load_page-Round page blk already now l table ready range small blocks =
    let mapped = map_window page l in
    let (memory, e, ran, got) =
      read_file-Delivered window blk already now (view mapped) mapped.disk range (omega arith)
        blocks ready in
    let place : (i : ℕ) → i < 4096 → i ≡ u16 (40960 + i) % 4096 = λ i small. omega arith in
    let after = store_view window now mapped (memory, e) in
    (
      after,
      ap (λ o. and_then o (λ r. some (store_view window now mapped r))) ran,
      record {
        table = table;
        ready = got.ready;
        storage = got.storage;
        inside = λ i below.
            ap₂ after.physical (sym (shown page i l table (omega arith))) (place i (omega arith))
            ∙ store_view-at window now i mapped (memory, e) below
                (writable-shown page i l table (omega arith))
                (λ k above under.
                  miss_place mapped.mmu (u16 (40960 + k)) _ (u16 (40960 + i) % 4096) (
                    ==_ne (u16 (40960 + i) % 4096) (u16 (40960 + k) % 4096)
                      (λ same. absurd (omega arith))))
            ∙ ap memory {x = u16 (40960 + i)} {y = 40960 + i} (omega arith)
            ∙ got.inside i (omega arith) below;
        others = λ p i other.
            store_view-other window now p i mapped (memory, e)
              (λ k below.
                miss_page mapped.mmu (u16 (40960 + k)) p i
                  (ap (λ q. p == q) (shown page k l table (omega arith)) ∙ other));
      },
    )

-- A page that is none of the process.
abbrev pub Outside : (ℕ → ℕ) → ℕ → Type 0
Outside pages p = (i : ℕ) → i < 16 → (p == pages i) ≡ false

-- What the loop leaves: the file in the pages, and the other pages as they were.
pub record Reached (pages : ℕ → ℕ) (blk size : ℕ) (storage : Storage) (before after : ℕ → ℕ → ℕ)
    : Type 0 where
  pub filled : Filled pages blk storage size after
  pub kept : (p i : ℕ) → Outside pages p → after p i ≡ before p i

Filled-Round :
    (pages : ℕ → ℕ) (blk already now target : ℕ) (l l' : Loader)
    → Distinct pages
    → target < 16
    → already ≡ target * 4096
    → now ≤ 4096
    → already + now < 65536
    → Filled pages blk l.disk.storage already l.physical
    → Round (pages target) blk already now l l'
    → Filled pages blk l.disk.storage (already + now) l'.physical
Filled-Round pages blk already now target l l' distinct low at small range before r j below =
    elim (Bool-cases (ltb j already)) [
      | inl earlier ↦
          let front : j < already = ground (arith, earlier) in
          let other : (pages (j / 4096) == pages target) ≡ false =
            ==_ne (pages (j / 4096)) (pages target) (λ same.
              let e = distinct (j / 4096) target (omega arith) low same in
              absurd (omega (arith, e))) in
          r.others (pages (j / 4096)) (j % 4096) other ∙ before j front
      | inr here ↦
          let from : already ≤ j = ground (arith, here) in
          let page : j / 4096 ≡ target = omega arith in
          let place : j % 4096 ≡ j - already = omega arith in
          ap₂ (λ p i. l'.physical (pages p) i) page place
          ∙ r.inside (j - already) (omega arith)
          ∙ ap (byte_at l.disk.storage blk) (omega arith)
    ]

-- A round, and what the rounds behind it leave.
Reached-Round :
    (pages : ℕ → ℕ) (blk already now size target : ℕ) (l l' : Loader) (after : ℕ → ℕ → ℕ)
    → target < 16
    → Round (pages target) blk already now l l'
    → Reached pages blk size l'.disk.storage l'.physical after
    → Reached pages blk size l.disk.storage l.physical after
Reached-Round pages blk already now size target l l' after low r res = record {
  filled = λ j below. res.filled j below ∙ ap (λ s. byte_at s blk j) r.storage;
  kept = λ p i out. res.kept p i out ∙ r.others p i (out target low);
}

read_now_lem :
    (left : ℕ)
    → 0 < left
    → (0 < read_now left)
      × (read_now left ≤ left)
      × (read_now left ≤ 4096)
      × (0 < left - read_now left → read_now left ≡ 4096)
      × ((left - read_now left) + 4096 ≤ left ⊎ (left - read_now left ≡ 0))
read_now_lem left some_left =
    (ground arith, ground arith, ground arith, λ h. ground arith, ground arith)

pub load_loop-Reached :
    (fuel : ℕ) (pages : ℕ → ℕ) (blk left already target : ℕ) (l : Loader)
    → Distinct pages
    → l.mmu.tlb_index ≡ 0
    → Ready l.disk
    → (0 < left → already ≡ target * 4096)
    → already + left < 65536
    → left + 4096 ≤ fuel * 4096
    → blk + (already + left) / 256 < 65536
    → Filled pages blk l.disk.storage already l.physical
    → (l' : Loader) × (load_loop fuel pages blk left already target l ≡ some l')
      × Reached pages blk (already + left) l.disk.storage l.physical l'.physical
unfolding load_loop
load_loop-Reached zero pages blk left already target l distinct table ready at range enough blocks
      before =
    absurd (omega arith)
load_loop-Reached (suc fuel) pages blk left already target l distinct table ready at range enough
      blocks before =
    elim (Bool-cases (left == 0)) [
      | inl done ↦
          let nothing : left ≡ 0 = ground (arith, done) in
          (
            l,
            rw done refl,
            record {
              filled =
                  subst (λ size. Filled pages blk l.disk.storage size l.physical) {x = already}
                    {y = already + left} (omega arith) before;
              kept = λ p i out. refl;
            },
          )
      | inr more ↦
          let some_left : 0 < left = ground (arith, more) in
          let now = read_now left in
          let now_fits = read_now_lem left some_left in
          let start = at some_left in
          let low : target < 16 = omega (arith, start) in
          let (l₁, ran, r) =
            load_page-Round (pages target) blk already now l table ready (omega (arith, now_fits.1))
              now_fits.2 (omega (arith, now_fits.1)) in
          let next : u16 (already + now) ≡ already + now = omega (arith, now_fits.1) in
          let page : u8 (target + 1) ≡ target + 1 = omega (arith, low) in
          let loop : Loader → Option Loader = λ l'.
            load_loop fuel pages blk (left - now) (u16 (already + now)) (u8 (target + 1)) l' in
          let (l₂, ran₂, res) =
            load_loop-Reached fuel pages blk (left - now) (u16 (already + now)) (u8 (target + 1)) l₁
              distinct r.table r.ready (λ again. omega (arith, next, page, start, now_fits.3 again))
              (omega (arith, next, now_fits.1)) (omega (arith, now_fits.1, now_fits.4))
              (omega (arith, next, now_fits.1))
              (subst (λ size. Filled pages blk l₁.disk.storage size l₁.physical) (sym next)
                (subst (λ s. Filled pages blk s (already + now) l₁.physical) (sym r.storage)
                  (Filled-Round pages blk already now target l l₁ distinct low start now_fits.2
                    (omega (arith, now_fits.1)) before r))) in
          let all : already + now + (left - now) ≡ already + left = omega (arith, now_fits.1) in
          let size : u16 (already + now) + (left - now) ≡ already + left =
            omega (arith, next, all) in
          (
            l₂,
            rw more (ap (λ o. and_then o loop) ran ∙ ran₂),
            Reached-Round pages blk already now (already + left) target l l₁ l₂.physical low r
                (subst (λ n. Reached pages blk n l₁.disk.storage l₁.physical l₂.physical) size res),
          )
    ]
