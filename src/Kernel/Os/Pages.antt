-- ===== src/Kernel/Os/Pages.antt =====
-- The pages of a process in `start_init` of software/kernel/kernel_main.c and `sys_exec` of
-- syscall.c: reference counts, and which pages a process gets.
use cpu.Prelude.{
  ℕ, zero, suc, ◌+◌, ◌≤◌, ◌<◌, ◌≡◌, ◌≢◌, inl, inr, refl, arith, u8, ◌==◌, if◌then◌else◌, update,
}
use cpu.Kernel.Mmu.{find_free_page, page_refcount_inc, page_refcount_dec}
use cpu.Kernel.Mmu.Free.{AllUsed, find_free_page-IsFirstFree}
use cpu.Kernel.Os.{Space, take_page, replace_page, take_pages, replace_pages}

-- How many of the slots below `n` hold the page.
pub owners : (ℕ → ℕ) → ℕ → ℕ → ℕ
owners pages p zero = 0
owners pages p (suc n) = (if pages n == p then 1 else 0) + owners pages p n

-- Slots from `n` on do not count.
owners-update :
    (pages : ℕ → ℕ) (p n i x : ℕ) → n ≤ i → owners (update pages i x) p n ≡ owners pages p n
unfolding owners
owners-update pages p zero i x h = refl
owners-update pages p (suc n) i x h = ground (arith, owners-update pages p n i x)

-- After a loop that takes a page for each of `n` slots, every count has grown, modulo 256, by the
-- number of those slots that hold the page.
pub take_pages-owners :
    (n p : ℕ) (s : Space)
    → s.mmu.page_refcount p < 256
    → let t = take_pages n s in
      t.mmu.page_refcount p ≡ u8 (s.mmu.page_refcount p + owners t.pages p n)
unfolding take_pages take_page page_refcount_inc owners
take_pages-owners zero p s h = omega arith
take_pages-owners (suc n) p s h = ground (
  arith,
  take_pages-owners n p s h,
  owners-update (take_pages n s).pages p n n (find_free_page (take_pages n s).mmu),
)

pages-replace_pages : (n i : ℕ) (s : Space) → n ≤ i → (replace_pages n s).pages i ≡ s.pages i
unfolding replace_pages replace_page take_page
pages-replace_pages zero i s h = refl
pages-replace_pages (suc n) i s h = ground (arith, pages-replace_pages n i s)

abbrev hit : ℕ → ℕ → ℕ
hit page p = if page == p then 1 else 0

replace_page-hit :
    (i p : ℕ) (s : Space)
    → let t = replace_page i s in
      u8 (t.mmu.page_refcount p + hit (s.pages i) p)
      ≡ u8 (s.mmu.page_refcount p + hit (t.pages i) p)
unfolding replace_page take_page page_refcount_inc page_refcount_dec
replace_page-hit i p s = counts (find_free_page (page_refcount_dec (s.pages i) s.mmu))
  where
    counts :
        (f : ℕ)
        → u8 (
            (page_refcount_inc f (page_refcount_dec (s.pages i) s.mmu)).page_refcount p
            + hit (s.pages i) p)
          ≡ u8 (s.mmu.page_refcount p + hit (update s.pages i f i) p)
    counts f = ground arith

owners-replace_page :
    (n p : ℕ) (s : Space)
    → owners (replace_page n s).pages p (suc n)
      ≡ hit ((replace_page n s).pages n) p + owners s.pages p n
unfolding owners replace_page take_page
owners-replace_page n p s =
    ground
      (arith, owners-update s.pages p n n (find_free_page (page_refcount_dec (s.pages n) s.mmu)))

-- The loop of `sys_exec` gives every old page back once and counts every new one once: modulo 256
-- counts and slots stay in step.
pub replace_pages-owners :
    (n p : ℕ) (s : Space)
    → let t = replace_pages n s in
      u8 (t.mmu.page_refcount p + owners s.pages p n)
      ≡ u8 (s.mmu.page_refcount p + owners t.pages p n)
unfolding replace_pages owners
replace_pages-owners zero p s = refl
replace_pages-owners (suc n) p s = ground (
  arith,
  replace_pages-owners n p s,
  pages-replace_pages n n s,
  replace_page-hit n p (replace_pages n s),
  owners-replace_page n p (replace_pages n s),
)

-- What the loop of `start_init` from the space `s` has done after `n` slots.
pub record Fresh (s t : Space) (n : ℕ) : Type 0 where
  pub given :
      (i : ℕ)
      → i < n
      → t.pages i ≢ 0
      → (16 ≤ t.pages i)
        × (t.pages i < 256)
        × (s.mmu.page_refcount (t.pages i) ≡ 0)
        × (t.mmu.page_refcount (t.pages i) ≡ 1)
  pub distinct : (i j : ℕ) → i < j → j < n → t.pages i ≢ 0 → t.pages i ≢ t.pages j
  pub exhausted : (i : ℕ) → i < n → t.pages i ≡ 0 → AllUsed t.mmu.page_refcount 16 256
  pub kept :
      (p : ℕ) → p ≢ 0 → s.mmu.page_refcount p ≢ 0 → t.mmu.page_refcount p ≡ s.mmu.page_refcount p

take_page-Fresh : (s t : Space) (n : ℕ) → Fresh s t n → Fresh s (take_page n t) (suc n)
unfolding take_page page_refcount_inc
take_page-Fresh s t n v = elim (find_free_page-IsFirstFree t.mmu) [
  | inl (low, high, free, first) ↦ record {
    given = λ i h p. ground (arith, v.given i, v.kept f);
    distinct = λ i j h k p. ground (arith, v.distinct i j h, v.given i);
    exhausted = λ i h p j a b.
        ground (arith, λ (q : i < n) (r : t.pages i ≡ 0). v.exhausted i q r f low high free);
    kept = λ p a b. ground (arith, v.kept p);
  }
  | inr (full, used) ↦ record {
    given = λ i h p. ground (arith, v.given i);
    distinct = λ i j h k p. ground (arith, v.distinct i j h);
    exhausted = λ i h p j a b. ground (arith, used j a b);
    kept = λ p a b. ground (arith, v.kept p);
  }
]
  where
    f : ℕ
    f = find_free_page t.mmu

-- From any counts, the loop of `start_init` gives each of the `n` slots a page of its own, from 16
-- on, that no one used and that it now uses once, or else page 0, and that only where pages 16 to
-- 255 are all in use; apart from page 0 it changes no count of a page that was in use.
pub take_pages-Fresh : (n : ℕ) (s : Space) → Fresh s (take_pages n s) n
unfolding take_pages
take_pages-Fresh zero s = record {
  given = λ i h. absurd (omega arith);
  distinct = λ i j h k. absurd (omega arith);
  exhausted = λ i h. absurd (omega arith);
  kept = λ p a b. refl;
}
take_pages-Fresh (suc n) s = take_page-Fresh s (take_pages n s) n (take_pages-Fresh n s)

-- The 16 pages of a process are its own: from 16 on, no two alike, each used once.
pub record Exclusive (s : Space) : Type 0 where
  pub own :
      (i : ℕ)
      → i < 16
      → (16 ≤ s.pages i) × (s.pages i < 256) × (s.mmu.page_refcount (s.pages i) ≡ 1)
  pub distinct : (i j : ℕ) → i < 16 → j < 16 → i ≢ j → s.pages i ≢ s.pages j

replace_page-Exclusive : (n : ℕ) (s : Space) → n < 16 → Exclusive s → Exclusive (replace_page n s)
unfolding replace_page take_page page_refcount_inc page_refcount_dec
replace_page-Exclusive n s h v =
    elim (find_free_page-IsFirstFree (page_refcount_dec (s.pages n) s.mmu)) [
      | inl (low, high, free, first) ↦ record {
        own = λ i k. ground (arith, v.own i k, v.own n h, v.distinct i n k h);
        distinct = λ i j k l ne. ground (
          arith,
          v.own i k,
          v.own j l,
          v.distinct i j k l ne,
          v.distinct i n k h,
          v.distinct j n l h,
        );
      }
      | inr (full, used) ↦
          absurd (used (s.pages n) (v.own n h).0 (v.own n h).1 (ground (arith, v.own n h)))
    ]

-- `sys_exec` on a process whose 16 pages are its own leaves it with 16 pages of its own: the search
-- never fails, and no page is shared.
pub replace_pages-Exclusive :
    (n : ℕ) (s : Space) → n ≤ 16 → Exclusive s → Exclusive (replace_pages n s)
unfolding replace_pages
replace_pages-Exclusive zero s h v = v
replace_pages-Exclusive (suc n) s h v =
    replace_page-Exclusive n (replace_pages n s) (omega arith)
      (replace_pages-Exclusive n s (omega arith) v)
