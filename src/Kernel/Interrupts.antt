-- ===== src/Kernel/Interrupts.antt =====
-- software/kernel/interrupts.c: the vectors of `init_interrupts`, and `page_fault` between its prologue
-- and its epilogue, without the messages.
pub mod Vectors
pub mod Faults
use cpu.Prelude.{
  ℕ, ◌+◌, List, [], ◌∷◌, Option, none, some, get_elem?, bit_and, ◌==◌, if◌then◌else◌, update,
}
use cpu.Kernel.Frame.{Memory, store16}
use cpu.Kernel.Mmu.{Mmu, write_tlb}
use cpu.Kernel.Disk.{memcpy}

abbrev pub isr_vec_length : ℕ
isr_vec_length = 8

abbrev pub isr_addr_offset : ℕ
isr_addr_offset = 5

abbrev pub isr_vec : List ℕ
isr_vec = 0xe7 ∷ 0xd9 ∷ 0xe6 ∷ 0xd9 ∷ 0xde ∷ 0x00 ∷ 0x00 ∷ 0xaf ∷ []

abbrev pub isr_vec_byte : Option ℕ → ℕ
isr_vec_byte none = 0
isr_vec_byte (some c) = c

-- `memcpy` of `isr_vec` to a vector, and the address of the handler into it.
unfoldable pub set_vector : ℕ → ℕ → Memory → Memory
set_vector vector handler mem =
    store16 (vector + isr_addr_offset) handler
      (memcpy mem vector (λ i. isr_vec_byte (get_elem? isr_vec i)) 0 isr_vec_length)

-- The addresses that the linker gives to the handlers.
pub record Handlers : Type 0 where
  pub page_fault : ℕ
  pub tick_isr : ℕ
  pub empty_isr : ℕ
  pub uart_isr : ℕ
  pub syscall_isr : ℕ

unfoldable pub init_interrupts : Handlers → Memory → Memory
init_interrupts h mem = set_vector 0xFF40 h.syscall_isr (
    set_vector 0xFF30 h.uart_isr (
      set_vector 0xFF20 h.empty_isr
        (set_vector 0xFF10 h.tick_isr (set_vector 0xFF00 h.page_fault mem))))

-- The handler, with MMU_FAULT_IDX and MMU_FAULT_PAGE_CAUSE.
unfoldable pub page_fault : ℕ → ℕ → Mmu → Mmu
page_fault idx page_cause m =
    let page = bit_and page_cause 0x0f in
    let after_read =
      if bit_and page_cause 0x10 == 0 then m else write_tlb idx page (0x10 + page) 1 m in
    if bit_and page_cause 0x20 == 0
    then after_read
    else write_tlb idx page (0x10 + page) 3 after_read
