-- ===== src/Kernel/Tests/Devices.antt =====
-- software/kernel/uart.c and mmu.c: runs and instances.
use cpu.Prelude.{
  ◌≤◌, ◌≡◌, refl, arith, true, false, List, [], ◌∷◌, ◌++◌, if◌then◌else◌, ltb, ◌%◌, ◌+◌, ◌<◌, ◌==◌,
  ◌&&◌, ℕ,
}
use cpu.Kernel.Uart.{Uart, uart_isr, getc, Event, receive, read, run}
use cpu.Kernel.Uart.Fifo
use cpu.Kernel.Uart.Refine.{IsValid, run_refines}
use cpu.Kernel.Uart.Interleave.{
  Reader, Reach, here, next, interrupt, decrement, test, load, testing, fetching, start, waiting,
  delivered_in_order,
}
use cpu.Kernel.Mmu.{Mmu, first_zero, find_free_page}
use cpu.Kernel.Mmu.Table.{entry}
use cpu.Kernel.Interrupts.{page_fault}
use cpu.Kernel.Interrupts.Faults.{granted, page_fault_lem}

-- Two bytes wait round the end of the buffer.
abbrev wrapped : Uart
wrapped = record { buffer = λ i. i; size = 2; rd_pos = 255; wr_pos = 1 }

wrapped-IsValid : IsValid wrapped
wrapped-IsValid = omega arith

abbrev script : List Event
script = receive 7 ∷ read ∷ read ∷ read ∷ read ∷ []

run-wrapped : run wrapped script ≡ 255 ∷ 0 ∷ 7 ∷ 0 ∷ []
unfolding run uart_isr getc
run-wrapped = refl

run_refines_example : run wrapped script ≡ Fifo.run (255 ∷ 0 ∷ []) script
run_refines_example = run_refines script wrapped wrapped-IsValid

-- An interrupt between the load and the store of a decrement: three bytes are stored, two wait, and the
-- size is 1.
abbrev raced : Reader
raced = record {
  uart = record (uart_isr 7 wrapped) { size = 1 };
  pc = fetching;
  stored = 255 ∷ 0 ∷ 7 ∷ [];
  got = [];
  late = 1;
  overrun = false;
}

Reach-raced : Reach (start wrapped) raced
unfolding uart_isr
Reach-raced =
    next (next (next (next here (test refl refl)) (load refl)) (interrupt 7)) (decrement 2 refl)

delivered_in_order_example :
    (raced.overrun ≡ false → raced.stored ≡ [] ++ waiting raced)
    × (raced.late ≡ 0 → raced.overrun ≡ false)
    × (raced.uart.size ≤ 255)
    × (raced.pc ≡ testing
        → (raced.uart.size == 0) ≡ false
        → Reach raced (record raced {
          uart = (getc raced.uart).1;
          pc = testing;
          got = [] ++ ((getc raced.uart).0 ∷ []);
        }))
delivered_in_order_example = delivered_in_order wrapped wrapped-IsValid Reach-raced

-- Pages up to 17 are in use.
abbrev running : Mmu
running = record {
  page_refcount = λ p. if ltb p 18 then 1 else 0;
  tlb_map = λ i. 0;
  tlb = λ a. 0;
  tlb_index = 0;
  paging = true;
}

find_free_page-running : find_free_page running ≡ 18
unfolding find_free_page first_zero
find_free_page-running = refl

-- Every index maps the pages to 16 to 31.
abbrev mapped : Mmu
mapped = record running { tlb = λ a. a % 16 + 16 }

mapped-first : (p : ℕ) → p < 16 → (entry mapped 1 p).value ≡ 16 + p
mapped-first p below = omega arith

-- A read and a write of page 5.
page_fault_lem_example :
    ((idx i p : ℕ)
      → idx < 256
      → i < 256
      → p < 16
      → entry (page_fault idx 0x35 mapped) i p
        ≡ (if (i == idx) && (p == 5) then granted 0x35 p (entry mapped i p) else entry mapped i p))
    × ((p : ℕ) → p < 16 → (entry (page_fault 1 0x35 mapped) 1 p).value ≡ 16 + p)
page_fault_lem_example = page_fault_lem 0x35 mapped (omega arith) mapped-first
