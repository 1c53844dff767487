-- ===== src/Kernel/Uart/Refine.antt =====
-- software/kernel/uart.c: the buffer of 256 slots with two positions that wrap is a bounded queue.
use cpu.Prelude.{
  ℕ, zero, suc, ◌+◌, ◌-◌, ◌%◌, ◌≤◌, ◌<◌, ◌≡◌, ◌≢◌, refl, ◌∙◌, ap, ap₂, arith, List, [], ◌∷◌, ◌++◌,
  length, u8, update,
}
use cpu.Kernel.Uart.{Uart, init_uart, uart_isr, getc, Event, receive, read, run}
use cpu.Kernel.Uart.Fifo

-- The `n` bytes from position `h` on, going round at 256.
abbrev pub window : (ℕ → ℕ) → ℕ → ℕ → List ℕ
window buf h zero = []
window buf h (suc n) = buf h ∷ window buf (u8 (h + 1)) n

pub length-window : (buf : ℕ → ℕ) (h n : ℕ) → length (window buf h n) ≡ n
length-window buf h zero = refl
length-window buf h (suc n) = ap suc (length-window buf (u8 (h + 1)) n)

pub window_of_ne_zero :
    (buf : ℕ → ℕ) (h n : ℕ) → n ≢ 0 → window buf h n ≡ buf h ∷ window buf (u8 (h + 1)) (n - 1)
window_of_ne_zero buf h zero p = absurd (p refl)
window_of_ne_zero buf h (suc n) p = ap (λ k. window buf h (suc k)) (omega arith)

-- A write outside a window leaves it.
pub window-update :
    (buf : ℕ → ℕ) (h n i x : ℕ)
    → h < 256
    → n < 256
    → i ≡ (h + n) % 256
    → window (update buf i x) h n ≡ window buf h n
window-update buf h zero i x hh hn e = refl
window-update buf h (suc n) i x hh hn e =
    ap₂ ◌∷◌ (ground arith)
      (window-update buf (u8 (h + 1)) n i x (omega arith) (omega arith) (omega arith))

-- A write just past a window extends it.
pub window-update_end :
    (buf : ℕ → ℕ) (h n i x : ℕ)
    → h < 256
    → n < 256
    → i ≡ (h + n) % 256
    → window (update buf i x) h (suc n) ≡ window buf h n ++ (x ∷ [])
window-update_end buf h zero i x hh hn e = ground arith
window-update_end buf h (suc n) i x hh hn e =
    ap₂ ◌∷◌ (ground arith)
      (window-update_end buf (u8 (h + 1)) n i x (omega arith) (omega arith) (omega arith))

pub record IsValid (u : Uart) : Type 0 where
  pub size_le : u.size ≤ 255
  pub rd_lt : u.rd_pos < 256
  pub wr_eq : u.wr_pos ≡ (u.rd_pos + u.size) % 256

abbrev pub contents : Uart → List ℕ
contents u = window u.buffer u.rd_pos u.size

pub init_uart-IsValid : (u : Uart) → IsValid (init_uart u)
unfolding init_uart
init_uart-IsValid u = omega arith

pub uart_isr-IsValid : (u : Uart) (byte : ℕ) → IsValid u → IsValid (uart_isr byte u)
unfolding uart_isr
uart_isr-IsValid u byte v = ground arith

pub getc-IsValid : (u : Uart) → IsValid u → IsValid (getc u).1
unfolding getc
getc-IsValid u v = ground arith

uart_isr_refines :
    (u : Uart) (byte : ℕ) → IsValid u → contents (uart_isr byte u) ≡ Fifo.put byte (contents u)
unfolding uart_isr Fifo.put
uart_isr_refines u byte v = ground (
  arith,
  length-window u.buffer u.rd_pos u.size,
  window-update_end u.buffer u.rd_pos u.size u.wr_pos byte,
)

getc_refines :
    (u : Uart) → IsValid u → let (c, u') = getc u in (c, contents u') ≡ Fifo.get (contents u)
unfolding getc Fifo.get
getc_refines u v = ground (arith, window_of_ne_zero u.buffer u.rd_pos u.size)

-- From a valid buffer, no sequence of received bytes and reads tells it from the queue of at most
-- 255 bytes: bytes come out once, in order, and only those are lost that come while 255 wait.
pub run_refines : (es : List Event) (u : Uart) → IsValid u → run u es ≡ Fifo.run (contents u) es
unfolding run Fifo.run
run_refines [] u v = refl
run_refines (receive byte ∷ es) u v =
    run_refines es (uart_isr byte u) (uart_isr-IsValid u byte v)
    ∙ ap (λ q. Fifo.run q es) (uart_isr_refines u byte v)
run_refines (read ∷ es) u v =
    ap₂ (λ c rest. c ∷ rest) (ap (λ p. p.0) (getc_refines u v))
      (run_refines es (getc u).1 (getc-IsValid u v) ∙ ap (λ p. Fifo.run p.1 es) (getc_refines u v))
