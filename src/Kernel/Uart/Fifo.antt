-- ===== src/Kernel/Uart/Fifo.antt =====
-- What the receive buffer of software/kernel/uart.c promises: a queue of at most 255 bytes.
use cpu.Prelude.{ℕ, List, [], ◌∷◌, ◌++◌, length, ltb, if◌then◌else◌}
use cpu.Kernel.Uart.{Event, receive, read}

unfoldable pub put : ℕ → List ℕ → List ℕ
put byte q = if ltb (length q) 255 then q ++ (byte ∷ []) else q

-- An empty queue reads as the byte 0.
unfoldable pub get : List ℕ → ℕ × List ℕ
get [] = (0, [])
get (x ∷ q) = (x, q)

unfoldable pub run : List ℕ → List Event → List ℕ
run q [] = []
run q (receive byte ∷ es) = run (put byte q) es
run q (read ∷ es) = let (c, q') = get q in c ∷ run q' es
