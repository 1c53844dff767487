-- ===== src/Binutils/Asm/Opcodes.antt =====
-- binutils/asm.c: opcodes, and the numbers of registers and keywords that go into them.
use cpu.Prelude.{
  ℕ, ◌+◌, ◌*◌, ◌/◌, ◌<◌, bit_or, ◌≡◌, refl, ◌≢◌, Bool, true, false, not, ◌&&◌, ◌||◌, Option, none,
  some, [], ◌∷◌, arith, ltb, ◌==◌, if◌then◌else◌, length, passes_below, passes_below-entry,
}
use cpu.Binutils.Text.{Text, str_eq}
use cpu.Binutils.Keywords.{regs, alu_args, jumps, find_keyword}
use cpu.Binutils.Asm.{Encoded}

-- How many bytes stand behind an opcode, by the opcode alone.
unfoldable pub operand_bytes : ℕ → ℕ
operand_bytes op =
    if op / 16 == 0xb
    then 3
    else if (op == 0xfa) || ((op == 0xdf) || ((op == 0xdc) || ((op == 0xdd) || (op == 0xde))))
    then 2
    else if (op == 0xe5) || ((op == 0xd5) || ((op == 0xec) || (op == 0xfe)))
    then 1
    else if (op == 0xf6) || ((op == 0xf7) || ((op == 0xf8) || (op == 0xf9)))
    then 1
    else 0

-- An opcode, and with the argument that follows as many bytes as it takes.
abbrev pub sized : Encoded → Bool
sized r = elim r.bytes [
  | [] ↦ false
  | op ∷ operands ↦ length operands + r.expect_arg_n * r.expect_arg_size == operand_bytes op
]

abbrev pub all_sized : Option Encoded → Bool
all_sized none = true
all_sized (some r) = sized r

abbrev pub placeholder : Text
placeholder = b'-' ∷ b'-' ∷ b'-' ∷ []

-- The numbers that a text other than the placeholder can have.
unfoldable pub named_reg : ℕ → Bool
named_reg v =
    ltb v 5
    || ((v == 6)
        || ((v == 7) || ((v == 9) || ((v == 10) || ((v == 11) || ((v == 15) || (v == 0xff)))))))

pub reg-named : (t : Text) → str_eq placeholder t ≡ false → named_reg (find_keyword regs t 0) ≡ true
unfolding find_keyword named_reg
reg-named t other = ground arith

pub reg-bound : (t : Text) → find_keyword regs t 0 ≢ 0xff → find_keyword regs t 0 < 16
unfolding find_keyword
reg-bound t known = ground arith

pub keyword-bound : (t : Text) → find_keyword alu_args t 0 ≢ 0xff → find_keyword alu_args t 0 < 16
unfolding find_keyword
keyword-bound t known = ground arith

pub jump-bound : (t : Text) → find_keyword jumps t 0 ≢ 0xff → find_keyword jumps t 0 < 16
unfolding find_keyword
jump-bound t known = ground arith

-- Opcodes that hold a register or a keyword.
opcode_table :
    passes_below 16 (λ v.
      ((operand_bytes (bit_or 0xc0 v) == 0) && (operand_bytes (bit_or 0xa0 v) == 0))
      && ((operand_bytes (bit_or 0xb0 v) == 3)
          && (not (named_reg v)
              || ((operand_bytes (bit_or 0xe0 v) == 0)
                  && ((v == 15) || (operand_bytes (bit_or 0xd0 v) == 0))))))
    ≡ true
unfolding passes_below operand_bytes named_reg
opcode_table = refl

pub opcodes :
    (v : ℕ)
    → v < 16
    → (operand_bytes (bit_or 0xc0 v) ≡ 0)
      × (operand_bytes (bit_or 0xa0 v) ≡ 0)
      × (operand_bytes (bit_or 0xb0 v) ≡ 3)
      × (named_reg v ≡ true → operand_bytes (bit_or 0xe0 v) ≡ 0)
      × (named_reg v ≡ true → v ≢ 15 → operand_bytes (bit_or 0xd0 v) ≡ 0)
opcodes v below =
    let row = passes_below-entry 16 _ v opcode_table below in
    (
      ground (arith, row),
      ground (arith, row),
      ground (arith, row),
      λ n. ground (arith, row),
      λ n k. ground (arith, row),
    )
