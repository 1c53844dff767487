-- ===== src/Kernel/Mmu/Free.antt =====
-- software/kernel/mmu.c: what the searches for a free page and for a free TLB index return.
use cpu.Prelude.{
  ℕ, zero, suc, ◌+◌, ◌≤◌, ◌<◌, ◌≡◌, ◌≢◌, ◌⊎◌, inl, inr, refl, arith, ◌==◌, Bool-cases, update,
  if◌then◌else◌,
}
use cpu.Kernel.Mmu.{Mmu, first_zero, find_free_page, get_free_tlb, release_tlb}

-- Every entry from `lo` up to, not including, `hi` is in use.
abbrev pub AllUsed : (ℕ → ℕ) → ℕ → ℕ → Type 0
AllUsed t lo hi = (j : ℕ) → lo ≤ j → j < hi → t j ≢ 0

-- `r` is the first free entry of a table of 256 from `lo` on, or 0 where there is none.
abbrev pub IsFirstFree : (ℕ → ℕ) → ℕ → ℕ → Type 0
IsFirstFree t lo r =
    ((lo ≤ r) × (r < 256) × (t r ≡ 0) × AllUsed t lo r) ⊎ ((r ≡ 0) × AllUsed t lo 256)

AllUsed-cons : {t : ℕ → ℕ} {lo hi : ℕ} → t lo ≢ 0 → AllUsed t (lo + 1) hi → AllUsed t lo hi
AllUsed-cons h rest j p q = grind (arith, rest j)

first_zero-IsFirstFree :
    (t : ℕ → ℕ) (i left : ℕ) → i + left ≡ 255 → IsFirstFree t i (first_zero t i left)
unfolding first_zero
first_zero-IsFirstFree t i zero e = elim (Bool-cases (t i == 0)) [
  | inl free ↦ rw free (inl (omega arith, omega arith, ground arith, λ j p q. absurd (omega arith)))
  | inr used ↦ rw used (inr (refl, λ j p q. ground arith))
]
first_zero-IsFirstFree t i (suc left) e = elim (Bool-cases (t i == 0)) [
  | inl free ↦ rw free (inl (omega arith, omega arith, ground arith, λ j p q. absurd (omega arith)))
  | inr used ↦ rw used (elim (first_zero-IsFirstFree t (i + 1) left (omega arith)) [
    | inl (a, b, c, d) ↦ inl (omega arith, b, c, AllUsed-cons (ground arith) d)
    | inr (a, d) ↦ inr (a, AllUsed-cons (ground arith) d)
  ])
]

-- `find_free_page` returns the least page from 16 on whose count is 0, and 0 where pages 16 to 255
-- are all in use.
pub find_free_page-IsFirstFree : (m : Mmu) → IsFirstFree m.page_refcount 16 (find_free_page m)
unfolding find_free_page
find_free_page-IsFirstFree m = first_zero-IsFirstFree m.page_refcount 16 0xef (omega arith)

-- `get_free_tlb` returns the least index from 1 on that is not marked, marks it and no other, and
-- `release_tlb` of it gives the table back; where indices 1 to 255 are all marked it returns 0 and
-- changes nothing.
pub get_release_tlb :
    (m : Mmu)
    → let (i, m') = get_free_tlb m in
      IsFirstFree m.tlb_map 1 i
      × ((j : ℕ) → m'.tlb_map j ≡ (if i == 0 then m.tlb_map j else update m.tlb_map i 1 j))
      × (i ≢ 0 → (j : ℕ) → (release_tlb i m').tlb_map j ≡ m.tlb_map j)
unfolding get_free_tlb release_tlb
get_release_tlb m =
    let found = first_zero-IsFirstFree m.tlb_map 1 0xfe (omega arith) in
    let i = first_zero m.tlb_map 1 0xfe in
    elim (Bool-cases (i == 0)) [
      | inl none_free ↦ rw none_free (ground (arith, found), λ j. refl, ground arith)
      | inr some_free ↦ rw some_free (found, λ j. ground arith, λ h j. ground (arith, found))
    ]
