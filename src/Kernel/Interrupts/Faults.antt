-- ===== src/Kernel/Interrupts/Faults.antt =====
-- software/kernel/interrupts.c, `page_fault`: which pages a process sees after a fault.
use cpu.Prelude.{
  ℕ, ◌+◌, ◌<◌, ◌≡◌, refl, ap, ◌∙◌, true, false, Bool, Bool-cases, inl, inr, arith, bit_and, ◌==◌,
  ◌&&◌, if◌then◌else◌, passes_below, passes_below-entry, ltb,
}
use cpu.Kernel.Mmu.{Mmu, write_tlb}
use cpu.Kernel.Mmu.Table.{Entry, entry, entry-write_tlb}
use cpu.Kernel.Interrupts.{page_fault}

-- The entry that a fault leaves for its page.
abbrev pub granted : ℕ → ℕ → Entry → Entry
granted cause page before =
    if bit_and cause 0x20 == 0
    then (if bit_and cause 0x10 == 0 then before else record { value = 16 + page; flags = 1 })
    else record { value = 16 + page; flags = 3 }

-- A fault on a page of an index.
write_lem :
    (idx page i p flags : ℕ) (m : Mmu)
    → idx < 256
    → page < 16
    → i < 256
    → p < 16
    → entry (write_tlb idx page (16 + page) flags m) i p ≡ (
        if (i == idx) && (p == page) then record { value = 16 + p; flags = flags } else entry m i p)
write_lem idx page i p flags m small low index below =
    let written = entry-write_tlb m idx page i p (16 + page) flags small low index below in
    elim (Bool-cases ((i == idx) && (p == page))) [
      | inl hit ↦
          let at : page ≡ p = ground (arith, hit) in
          rw hit (rw hit at written ∙ ap (λ q. record { value = 16 + q; flags = flags }) at)
      | inr other ↦ rw other (rw other at written)
    ]

if_same : (b : Bool) (e : Entry) → e ≡ (if b then e else e)
if_same true e = refl
if_same false e = refl

-- A second store to an entry hides the first.
if_twice :
    (b : Bool) (r r' e x : Entry)
    → x ≡ (if b then r' else e)
    → (if b then r else x) ≡ (if b then r else e)
if_twice true r r' e x first = refl
if_twice false r r' e x first = first

nibble : passes_below 256 (λ c. ltb (bit_and c 0x0f) 16) ≡ true
unfolding passes_below
nibble = refl

entry-page_fault :
    (idx cause i p : ℕ) (m : Mmu)
    → idx < 256
    → cause < 256
    → i < 256
    → p < 16
    → entry (page_fault idx cause m) i p ≡ (
        if (i == idx) && (p == bit_and cause 0x0f)
        then granted cause p (entry m i p)
        else entry m i p)
unfolding page_fault
entry-page_fault idx cause i p m small byte index below =
    let page = bit_and cause 0x0f in
    let low : page < 16 =
      ground (arith, passes_below-entry 256 (λ c. ltb (bit_and c 0x0f) 16) cause nibble byte) in
    let write : (flags : ℕ) (n : Mmu) → _ =
      λ flags n. write_lem idx page i p flags n small low index below in
    elim (Bool-cases (bit_and cause 0x10 == 0)) [
      | inl not_read ↦ elim (Bool-cases (bit_and cause 0x20 == 0)) [
        | inl not_written ↦
            rw (not_read, not_written) (if_same ((i == idx) && (p == page)) (entry m i p))
        | inr written ↦ rw (not_read, written) (write 3 m)
      ]
      | inr read ↦ elim (Bool-cases (bit_and cause 0x20 == 0)) [
        | inl not_written ↦ rw (read, not_written) (write 1 m)
        | inr written ↦
            rw (read, written)
              (write 3 (write_tlb idx page (16 + page) 1 m)
                ∙ if_twice ((i == idx) && (p == page)) _ _ _ _ (write 1 m))
      ]
    ]

granted-value :
    (b : Bool) (cause p : ℕ) (e : Entry)
    → e.value ≡ 16 + p
    → (if b then granted cause p e else e).value ≡ 16 + p
granted-value true cause p e same = ground (arith, same)
granted-value false cause p e same = same

-- A page fault on page p of an index gives it the physical page 16 + p, readable, or readable and
-- writable after a write, whatever was there before, and no other entry changes. So an index 1 that maps
-- the pages to 16 to 31, in their order, keeps these pages through every fault.
pub page_fault_lem :
    (cause : ℕ) (m : Mmu)
    → cause < 256
    → ((p : ℕ) → p < 16 → (entry m 1 p).value ≡ 16 + p)
    → ((idx i p : ℕ)
        → idx < 256
        → i < 256
        → p < 16
        → entry (page_fault idx cause m) i p ≡ (
            if (i == idx) && (p == bit_and cause 0x0f)
            then granted cause p (entry m i p)
            else entry m i p))
      × ((p : ℕ) → p < 16 → (entry (page_fault 1 cause m) 1 p).value ≡ 16 + p)
page_fault_lem cause m byte first = (
  λ idx i p small index below. entry-page_fault idx cause i p m small byte index below,
  λ p below.
      ap Entry.value (entry-page_fault 1 cause 1 p m (omega arith) byte (omega arith) below)
      ∙ granted-value (p == bit_and cause 0x0f) cause p (entry m 1 p) (first p below),
)
