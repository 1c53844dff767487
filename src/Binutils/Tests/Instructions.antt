-- ===== src/Binutils/Tests/Instructions.antt =====
-- binutils/asm.c: encoded instructions.
use cpu.Prelude.{◌≡◌, refl, true, some, [], ◌∷◌}
use cpu.Binutils.Text.{Text, str_eq}
use cpu.Binutils.Keywords.{
  find_keyword, digits_in, unsigned, strtol, parse_relative_arg, parse_mov_arg,
}
use cpu.Binutils.Asm.{Encoded, generate_mov, mov_bytes, generate_ld, gen_instruction}
use cpu.Binutils.Asm.Opcodes.{placeholder, sized}
use cpu.Binutils.Asm.Size.{gen_instruction-sized}

abbrev ld : Text
ld = b'l' ∷ b'd' ∷ []

abbrev mov : Text
mov = b'm' ∷ b'o' ∷ b'v' ∷ []

abbrev reg_a : Text
reg_a = b'A' ∷ []

-- "r3" is 15 below 3.
abbrev r3 : Text
r3 = b'r' ∷ b'3' ∷ []

abbrev ld_r3 : Encoded
ld_r3 = record {
  bytes = 0xdf ∷ 244 ∷ [];
  rest = (b'7' ∷ []) ∷ [];
  expect_arg_n = 1;
  expect_arg_size = 1;
}

gen_instruction-ld_r3 : gen_instruction ld (r3 ∷ (b'7' ∷ []) ∷ []) ≡ some ld_r3
unfolding gen_instruction generate_ld parse_mov_arg parse_relative_arg find_keyword strtol unsigned
    digits_in str_eq
gen_instruction-ld_r3 = refl

gen_instruction-sized_example : sized ld_r3 ≡ true
unfolding str_eq
gen_instruction-sized_example =
    gen_instruction-sized ld (r3 ∷ (b'7' ∷ []) ∷ []) ld_r3 refl refl gen_instruction-ld_r3

-- The placeholder is taken for register 5, and the byte is the opcode with a byte behind it.
gen_instruction-placeholder :
    gen_instruction mov (reg_a ∷ placeholder ∷ [])
    ≡ some (record { bytes = 0xe5 ∷ []; rest = []; expect_arg_n = 0; expect_arg_size = 0 })
unfolding gen_instruction generate_mov mov_bytes parse_mov_arg find_keyword str_eq
gen_instruction-placeholder = refl

-- "[M9" is read from the M on, which is no number.
parse_relative_arg-place : parse_relative_arg (b'[' ∷ b'M' ∷ b'9' ∷ []) ≡ some 0
unfolding parse_relative_arg strtol unsigned digits_in
parse_relative_arg-place = refl
