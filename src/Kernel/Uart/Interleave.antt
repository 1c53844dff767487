-- ===== src/Kernel/Uart/Interleave.antt =====
-- `getc` of software/kernel/klib.c runs with interrupts enabled in the kernel's own shell, so that
-- `uart_isr` of software/kernel/uart.c comes in between its statements.
use cpu.Prelude.{
  ℕ, suc, ◌+◌, ◌-◌, ◌%◌, ◌≤◌, ◌<◌, ◌≡◌, refl, sym, ◌∙◌, ap, subst, arith, true, false, List, [],
  ◌∷◌, ◌++◌, u8, ltb, leb, Bool, ◌&&◌, ◌==◌, if◌then◌else◌, update, Bool-cases, inl, inr,
}
use mathlib.Core.List.{append_assoc}
use cpu.Kernel.Uart.{Uart, uart_isr, getc}
use cpu.Kernel.Uart.Refine.{IsValid, window, contents, window-update_end}

-- What runs next of `getc`. The compiler turns `uart_buffer_size--` into a load, a subtraction and a store:
-- `storing v` holds the size that was loaded, `bumping c` the byte that was fetched.
pub data Pc : Type 0 where
  testing loading : Pc
  storing : ℕ → Pc
  fetching : Pc
  bumping : ℕ → Pc

-- One byte more waits than the size says, between the decrement and the advance.
abbrev pub extra : Pc → ℕ
extra testing = 0
extra loading = 0
extra (storing v) = 0
extra fetching = 1
extra (bumping c) = 1

-- Beside the buffer and the reader's place: the bytes that the handler stored, those that `getc` returned
-- from a buffer that was not empty, how many increments of the handler were lost, and whether a byte was
-- overwritten that waited.
pub record Reader : Type 0 where
  pub uart : Uart
  pub pc : Pc
  pub stored : List ℕ
  pub got : List ℕ
  pub late : ℕ
  pub overrun : Bool

-- How many bytes wait in the buffer.
abbrev pub count : Reader → ℕ
count r = r.uart.size + r.late + extra r.pc

abbrev stored_by : ℕ → Reader → List ℕ
stored_by byte r = if ltb r.uart.size 0xff then r.stored ++ (byte ∷ []) else r.stored

abbrev overrun_by : Reader → Bool
overrun_by r = if ltb r.uart.size 0xff && leb 256 (count r) then true else r.overrun

abbrev pub interrupted : ℕ → Reader → Reader
interrupted byte r = record r {
  uart = uart_isr byte r.uart;
  stored = stored_by byte r;
  overrun = overrun_by r;
}

-- The store of the decrement: what the handler has added since the load is lost.
abbrev pub decremented : ℕ → Reader → Reader
decremented v r = record r {
  uart = record (r.uart) { size = v - 1 };
  pc = fetching;
  late = r.late + (r.uart.size - v);
}

abbrev pub bumped : ℕ → Reader → Reader
bumped c r = record r {
  uart = record (r.uart) { rd_pos = u8 (r.uart.rd_pos + 1) };
  pc = testing;
  got = r.got ++ (c ∷ []);
}

-- One step of `getc`, or one interrupt.
pub data Step (r : Reader) : Reader → Type 0 where
  interrupt : (byte : ℕ) → Step r (interrupted byte r)
  empty : r.pc ≡ testing → (r.uart.size == 0) ≡ true → Step r r
  test : r.pc ≡ testing → (r.uart.size == 0) ≡ false → Step r (record r { pc = loading })
  load : r.pc ≡ loading → Step r (record r { pc = storing r.uart.size })
  decrement : (v : ℕ) → r.pc ≡ storing v → Step r (decremented v r)
  fetch : r.pc ≡ fetching → Step r (record r { pc = bumping (r.uart.buffer r.uart.rd_pos) })
  advance : (c : ℕ) → r.pc ≡ bumping c → Step r (bumped c r)

pub data Reach (r : Reader) : Reader → Type 0 where
  here : Reach r r
  next : {s t : Reader} → Reach r s → Step s t → Reach r t

abbrev pub waiting : Reader → List ℕ
waiting r = window r.uart.buffer r.uart.rd_pos (count r)

abbrev Holding : ℕ → Pc → Type 0
Holding size testing = Unit {0}
Holding size loading = 0 < size
Holding size (storing v) = (0 < v) × (v ≤ size)
Holding size fetching = Unit {0}
Holding size (bumping c) = Unit {0}

abbrev Fetched : (ℕ → ℕ) → ℕ → Pc → Type 0
Fetched buf rd testing = Unit {0}
Fetched buf rd loading = Unit {0}
Fetched buf rd (storing v) = Unit {0}
Fetched buf rd fetching = Unit {0}
Fetched buf rd (bumping c) = c ≡ buf rd

-- While no waiting byte is overwritten: the order, and the byte that the reader holds.
record Ordered (r : Reader) : Type 0 where
  in_order : r.stored ≡ r.got ++ waiting r
  fetched : Fetched r.uart.buffer r.uart.rd_pos r.pc

record Inv (r : Reader) : Type 0 where
  size_le : r.uart.size ≤ 255
  rd_lt : r.uart.rd_pos < 256
  wr_eq : r.uart.wr_pos ≡ (r.uart.rd_pos + count r) % 256
  holding : Holding r.uart.size r.pc
  exact : r.late ≡ 0 → r.overrun ≡ false
  ordered : r.overrun ≡ false → Ordered r

extra-le : (pc : Pc) → extra pc ≤ 1
extra-le testing = omega arith
extra-le loading = omega arith
extra-le (storing v) = omega arith
extra-le fetching = omega arith
extra-le (bumping c) = omega arith

Holding-grown : (n n' : ℕ) (pc : Pc) → n ≤ n' → Holding n pc → Holding n' pc
Holding-grown n n' testing grown p = tt
Holding-grown n n' loading grown p = omega arith
Holding-grown n n' (storing v) grown p = (p.0, omega (arith, p.1))
Holding-grown n n' fetching grown p = tt
Holding-grown n n' (bumping c) grown p = tt

Fetched-update :
    (buf : ℕ → ℕ) (rd wr n : ℕ) (pc : Pc) (byte : ℕ)
    → n + extra pc < 256
    → rd < 256
    → wr ≡ (rd + (n + extra pc)) % 256
    → Fetched buf rd pc
    → Fetched (update buf wr byte) rd pc
Fetched-update buf rd wr n testing byte h k e p = tt
Fetched-update buf rd wr n loading byte h k e p = tt
Fetched-update buf rd wr n (storing v) byte h k e p = tt
Fetched-update buf rd wr n fetching byte h k e p = tt
Fetched-update buf rd wr n (bumping c) byte h k e p = ground arith

-- The first byte that waits is the one that the reader holds.
window-head :
    (buf : ℕ → ℕ) (rd n : ℕ) → window buf rd (n + 1) ≡ buf rd ∷ window buf (u8 (rd + 1)) (n + 0)
window-head buf rd n =
    ap (window buf rd) {y = suc n} (omega arith)
    ∙ ap (λ k. buf rd ∷ window buf (u8 (rd + 1)) k) {x = n} {y = n + 0} (omega arith)

-- The handler puts its byte behind those that wait, where they leave room.
Ordered-stored :
    (r : Reader) (byte : ℕ)
    → r.uart.size < 255
    → count r < 256
    → Inv r
    → Ordered r
    → Ordered (record r {
      uart = record {
        buffer = update r.uart.buffer r.uart.wr_pos byte;
        size = u8 (r.uart.size + 1);
        rd_pos = r.uart.rd_pos;
        wr_pos = u8 (r.uart.wr_pos + 1);
      };
      stored = r.stored ++ (byte ∷ []);
    })
Ordered-stored r byte small room v o = record {
  in_order =
      ap (λ xs. xs ++ (byte ∷ [])) o.in_order
      ∙ append_assoc r.got (waiting r) (byte ∷ [])
      ∙ ap (λ q. r.got ++ q)
          (sym (
            ap (window (update r.uart.buffer r.uart.wr_pos byte) r.uart.rd_pos) {y = suc (count r)}
              (omega arith)
            ∙ window-update_end r.uart.buffer r.uart.rd_pos (count r) r.uart.wr_pos byte v.rd_lt
                room v.wr_eq));
  fetched =
      Fetched-update r.uart.buffer r.uart.rd_pos r.uart.wr_pos (r.uart.size + r.late) r.pc byte room
        v.rd_lt v.wr_eq o.fetched;
}

interrupted-Inv : (r : Reader) (byte : ℕ) → Inv r → Inv (interrupted byte r)
unfolding uart_isr
interrupted-Inv r byte v = elim (Bool-cases (ltb r.uart.size 0xff)) [
  | inl room ↦
      let small : r.uart.size < 255 = ground (arith, room) in
      let grown : r.uart.size ≤ u8 (r.uart.size + 1) = omega (arith, small) in
      elim (Bool-cases (leb 256 (count r))) [
        | inl over ↦
            rw (room, over)
              (record {
                size_le = omega (arith, small);
                rd_lt = v.rd_lt;
                wr_eq = omega (arith, small, v.wr_eq);
                holding = Holding-grown r.uart.size (u8 (r.uart.size + 1)) r.pc grown v.holding;
                exact = λ none_late. absurd (ground (arith, over, none_late, extra-le r.pc, small));
                ordered = λ h. absurd cc;
              })
        | inr fits ↦
            rw (room, fits)
              (record {
                size_le = omega (arith, small);
                rd_lt = v.rd_lt;
                wr_eq = omega (arith, small, v.wr_eq);
                holding = Holding-grown r.uart.size (u8 (r.uart.size + 1)) r.pc grown v.holding;
                exact = v.exact;
                ordered = λ h. Ordered-stored r byte small (ground (arith, fits)) v (v.ordered h);
              })
      ]
  | inr full ↦ rw full v
]

-- The byte that was fetched is the first that waits.
Ordered-bumped : (r : Reader) (c : ℕ) → r.pc ≡ bumping c → Ordered r → Ordered (bumped c r)
Ordered-bumped r c at o = record {
  in_order =
      o.in_order
      ∙ ap (λ q. r.got ++ q)
          (ap (λ pc. window r.uart.buffer r.uart.rd_pos (r.uart.size + r.late + extra pc)) at
            ∙ window-head r.uart.buffer r.uart.rd_pos (r.uart.size + r.late)
            ∙ ap (λ x. x ∷ window r.uart.buffer (u8 (r.uart.rd_pos + 1)) (r.uart.size + r.late + 0))
                (sym held))
      ∙ sym (append_assoc r.got (c ∷ []) _);
  fetched = tt;
}
  where
    held : c ≡ r.uart.buffer r.uart.rd_pos
    held = rw at at o.fetched

-- As many bytes wait as before the store, the one in front of them among them.
count-decremented :
    (r : Reader) (v : ℕ)
    → r.pc ≡ storing v
    → (0 < v) × (v ≤ r.uart.size)
    → count (decremented v r) ≡ count r
count-decremented r v at held =
    let same : v - 1 + (r.late + (r.uart.size - v)) + 1 ≡ r.uart.size + r.late + 0 =
      omega (arith, held.0, held.1) in
    same ∙ ap (λ pc. r.uart.size + r.late + extra pc) (sym at)

Step-Inv : {r s : Reader} → Step r s → Inv r → Inv s
Step-Inv {r} (interrupt byte) v = interrupted-Inv r byte v
Step-Inv (empty at none_there) v = v
Step-Inv {r} (test at some_there) v = record {
  size_le = v.size_le;
  rd_lt = v.rd_lt;
  wr_eq = v.wr_eq ∙ ap (λ pc. (r.uart.rd_pos + (r.uart.size + r.late + extra pc)) % 256) at;
  holding = ground (arith, some_there);
  exact = v.exact;
  ordered = λ h. record {
    in_order =
        (v.ordered h).in_order
        ∙ ap (λ pc. r.got ++ window r.uart.buffer r.uart.rd_pos (r.uart.size + r.late + extra pc))
            at;
    fetched = tt;
  };
}
Step-Inv {r} (load at) v = record {
  size_le = v.size_le;
  rd_lt = v.rd_lt;
  wr_eq = v.wr_eq ∙ ap (λ pc. (r.uart.rd_pos + (r.uart.size + r.late + extra pc)) % 256) at;
  holding = (rw at at v.holding, omega arith);
  exact = v.exact;
  ordered = λ h. record {
    in_order =
        (v.ordered h).in_order
        ∙ ap (λ pc. r.got ++ window r.uart.buffer r.uart.rd_pos (r.uart.size + r.late + extra pc))
            at;
    fetched = tt;
  };
}
Step-Inv {r} (decrement w at) v =
    let held : (0 < w) × (w ≤ r.uart.size) = rw at at v.holding in
    let same = count-decremented r w at held in
    record {
      size_le = omega (arith, held.0, held.1, v.size_le);
      rd_lt = v.rd_lt;
      wr_eq = v.wr_eq ∙ ap (λ n. (r.uart.rd_pos + n) % 256) (sym same);
      holding = tt;
      exact = λ none_late. v.exact (omega (arith, none_late));
      ordered = λ h. record {
        in_order =
            (v.ordered h).in_order
            ∙ ap (λ n. r.got ++ window r.uart.buffer r.uart.rd_pos n) (sym same);
        fetched = tt;
      };
    }
Step-Inv {r} (fetch at) v =
    let same = ap (λ pc. r.uart.size + r.late + extra pc) at in
    record {
      size_le = v.size_le;
      rd_lt = v.rd_lt;
      wr_eq = v.wr_eq ∙ ap (λ n. (r.uart.rd_pos + n) % 256) same;
      holding = tt;
      exact = v.exact;
      ordered = λ h. record {
        in_order =
            (v.ordered h).in_order ∙ ap (λ n. r.got ++ window r.uart.buffer r.uart.rd_pos n) same;
        fetched = refl;
      };
    }
Step-Inv {r} (advance c at) v =
    let same = ap (λ pc. r.uart.size + r.late + extra pc) at in
    record {
      size_le = v.size_le;
      rd_lt = omega arith;
      wr_eq = omega (arith, v.wr_eq, same);
      holding = tt;
      exact = v.exact;
      ordered = λ h. Ordered-bumped r c at (v.ordered h);
    }

Reach-Inv : {r s : Reader} → Inv r → Reach r s → Inv s
Reach-Inv v here = v
Reach-Inv v (next path step) = Step-Inv step (Reach-Inv v path)

-- The reader before its first statement, over the bytes that already wait.
abbrev pub start : Uart → Reader
start u = record {
  uart = u;
  pc = testing;
  stored = contents u;
  got = [];
  late = 0;
  overrun = false;
}

start-Inv : (u : Uart) → IsValid u → Inv (start u)
start-Inv u v = record {
  size_le = v.size_le;
  rd_lt = v.rd_lt;
  wr_eq = ground arith;
  holding = tt;
  exact = λ h. refl;
  ordered = λ h. record {
    in_order = ap (window u.buffer u.rd_pos) {x = u.size} {y = u.size + 0 + 0} (omega arith);
    fetched = tt;
  };
}

-- Without an interrupt the steps are a call of `getc`.
Reach-getc :
    (r : Reader)
    → r.pc ≡ testing
    → (r.uart.size == 0) ≡ false
    → Reach r
        (record r { uart = (getc r.uart).1; pc = testing; got = r.got ++ ((getc r.uart).0 ∷ []) })
unfolding getc
Reach-getc r at some_there =
    let size = r.uart.size in
    let c = r.uart.buffer r.uart.rd_pos in
    let stored = decremented size (record r { pc = storing size }) in
    let last = bumped c (record stored { pc = bumping c }) in
    let path : Reach r last =
      next
        (next (next (next (next here (test at some_there)) (load refl)) (decrement size refl))
          (fetch refl))
        (advance c refl) in
    let nothing_late : r.late + (size - size) ≡ r.late = omega arith in
    rw some_there (subst (λ n. Reach r (record last { late = n })) nothing_late path)

-- However interrupts fall between the steps of `getc`, from a valid buffer: `late` counts the bytes that
-- the handler stores between the load and the store of a decrement. While no waiting byte is overwritten,
-- the bytes that `getc` returned, followed by those that still wait, `late` of them more than the size
-- says, are the bytes that were stored, in order; and where none came in between a load and a store,
-- none is overwritten, and the size is exact. Without an interrupt the steps are a call of `getc`.
pub delivered_in_order :
    (u : Uart) {r : Reader}
    → IsValid u
    → Reach (start u) r
    → (r.overrun ≡ false → r.stored ≡ r.got ++ waiting r)
      × (r.late ≡ 0 → r.overrun ≡ false)
      × (r.uart.size ≤ 255)
      × (r.pc ≡ testing
          → (r.uart.size == 0) ≡ false
          → Reach r (record r {
            uart = (getc r.uart).1;
            pc = testing;
            got = r.got ++ ((getc r.uart).0 ∷ []);
          }))
delivered_in_order u {r} v path =
    let w = Reach-Inv (start-Inv u v) path in
    (λ h. (w.ordered h).in_order, w.exact, w.size_le, λ at some_there. Reach-getc r at some_there)
