-- ===== src/Kernel/Frame.antt =====
-- software/kernel/interrupts.h and interrupts.c: the frame that an interrupt leaves in memory, and
-- its copies to and from a `struct isr_ctx`. Memory is bytes at addresses; a word is stored with
-- its low byte first.
use cpu.Prelude.{ℕ, ◌+◌, ◌*◌, ◌/◌, ◌%◌, ◌<◌, ◌≡◌, ◌⊎◌, arith, u8, u16, update}

abbrev pub Memory : Type 0
Memory = ℕ → ℕ

abbrev pub load16 : ℕ → Memory → ℕ
load16 a m = m a + 256 * m (u16 (a + 1))

abbrev pub store16 : ℕ → ℕ → Memory → Memory
store16 a v m = update (update m a (v % 256)) (u16 (a + 1)) (v / 256 % 256)

abbrev pub store8 : ℕ → ℕ → Memory → Memory
store8 a v m = update m a (u8 v)

abbrev pub isr_ctx_s : ℕ
isr_ctx_s = 0xFFBD

abbrev pub isr_ctx_a : ℕ
isr_ctx_a = 0xFFBF

abbrev pub isr_ctx_b : ℕ
isr_ctx_b = 0xFFF8

abbrev pub isr_ctx_f : ℕ
isr_ctx_f = 0xFFF9

abbrev pub isr_ctx_m : ℕ
isr_ctx_m = 0xFFFA

abbrev pub isr_ctx_x : ℕ
isr_ctx_x = 0xFFFC

abbrev pub isr_ctx_pc : ℕ
isr_ctx_pc = 0xFFFE

pub record IsrCtx : Type 0 where
  pub s : ℕ
  pub m : ℕ
  pub x : ℕ
  pub pc : ℕ
  pub a : ℕ
  pub b : ℕ
  pub f : ℕ

-- `a` is read as a word, and cut to the byte of the field.
unfoldable pub save_isr_ctx : Memory → IsrCtx
save_isr_ctx mem = record {
  s = load16 isr_ctx_s mem;
  m = load16 isr_ctx_m mem;
  x = load16 isr_ctx_x mem;
  pc = load16 isr_ctx_pc mem;
  a = u8 (load16 isr_ctx_a mem);
  b = mem isr_ctx_b;
  f = mem isr_ctx_f;
}

-- `a` is stored as a word: the byte above it becomes 0.
unfoldable pub load_isr_ctx : IsrCtx → Memory → Memory
load_isr_ctx c mem = store16 isr_ctx_pc c.pc (
    store16 isr_ctx_x c.x (
      store16 isr_ctx_m c.m (
        store8 isr_ctx_f c.f
          (store8 isr_ctx_b c.b (store16 isr_ctx_a c.a (store16 isr_ctx_s c.s mem))))))

pub record Fits (c : IsrCtx) : Type 0 where
  pub s_lt : c.s < 65536
  pub m_lt : c.m < 65536
  pub x_lt : c.x < 65536
  pub pc_lt : c.pc < 65536
  pub a_lt : c.a < 256
  pub b_lt : c.b < 256
  pub f_lt : c.f < 256

-- A context whose fields fit their widths is saved again as it was loaded, and loading it writes
-- only the frame: the bytes 0xFFBD to 0xFFC0 and 0xFFF8 to 0xFFFF.
pub save-load_isr_ctx :
    (c : IsrCtx) (mem : Memory)
    → Fits c
    → (save_isr_ctx (load_isr_ctx c mem) ≡ c)
      × ((j : ℕ)
          → (j < 0xFFBD) ⊎ ((0xFFC0 < j) × (j < 0xFFF8)) ⊎ (0xFFFF < j)
          → load_isr_ctx c mem j ≡ mem j)
unfolding save_isr_ctx load_isr_ctx
save-load_isr_ctx c mem fits = (ground arith, λ j h. ground arith)
