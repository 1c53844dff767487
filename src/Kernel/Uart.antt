-- ===== src/Kernel/Uart.antt =====
-- software/kernel/uart.c and `getc` of software/kernel/klib.c: the receive buffer of the serial
-- port. The byte that the interrupt handler reads from the port is an argument.
pub mod Fifo
pub mod Refine
pub mod Interleave
use cpu.Prelude.{ℕ, zero, suc, ◌+◌, ◌-◌, List, [], ◌∷◌, u8, ltb, ◌==◌, if◌then◌else◌, update}

pub record Uart : Type 0 where
  pub buffer : ℕ → ℕ
  pub size : ℕ
  pub rd_pos : ℕ
  pub wr_pos : ℕ

unfoldable pub init_uart : Uart → Uart
init_uart u = record u { size = 0; rd_pos = 0; wr_pos = 0 }

unfoldable pub uart_isr : ℕ → Uart → Uart
uart_isr byte u =
    if ltb u.size 0xff
    then record u {
      buffer = update u.buffer u.wr_pos byte;
      wr_pos = u8 (u.wr_pos + 1);
      size = u8 (u.size + 1);
    }
    else u

-- `uart_buffer_size--` runs only where the size is not 0.
unfoldable pub getc : Uart → ℕ × Uart
getc u =
    if u.size == 0
    then (0, u)
    else (u.buffer u.rd_pos, record u { size = u.size - 1; rd_pos = u8 (u.rd_pos + 1) })

-- What happens at the port, and what the kernel reads.
pub data Event : Type 0 where
  receive : ℕ → Event
  read : Event

unfoldable pub run : Uart → List Event → List ℕ
run u [] = []
run u (receive byte ∷ es) = run (uart_isr byte u) es
run u (read ∷ es) = let (c, u') = getc u in c ∷ run u' es
