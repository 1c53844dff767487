-- ===== src/Binutils/Asm/Size.antt =====
-- binutils/asm.c: how many bytes an instruction takes.
use cpu.Prelude.{
  ℕ, ◌<◌, ◌≡◌, refl, subst, ◌⊎◌, inl, inr, Bool, true, false, some, List, arith, ◌==◌, Bool-cases,
  Option-cases,
}
use cpu.Binutils.Text.{Text, str_eq}
use cpu.Binutils.Keywords.{
  regs, alu_args, jumps, find_keyword, parse_relative_arg, MovArg, parse_mov_arg,
}
use cpu.Binutils.Asm.Opcodes.{
  operand_bytes, sized, all_sized, placeholder, named_reg, reg-named, reg-bound, keyword-bound,
  jump-bound, opcodes,
}
use cpu.Binutils.Asm.Each.{gen_instruction-each}
use cpu.Binutils.Asm.{
  Encoded, token_of, behind, generate_movw, mov_bytes, generate_mov, stack_bytes, generate_push,
  generate_pop, generate_ld, generate_ldd, t_alu_bytes, generate_t_alu, one_byte, code_of,
  gen_other, without_first, gen_keyword, gen_instruction,
}

-- A register that has a name, or a place relative to M.
IsNamed : MovArg → Type 0
IsNamed arg = ((arg.type ≡ 0) × (arg.value < 16) × (named_reg arg.value ≡ true)) ⊎ (arg.type ≡ 2)

parse_mov_arg-IsNamed :
    (t : Text) (arg : MovArg)
    → str_eq placeholder t ≡ false
    → parse_mov_arg t ≡ some arg
    → IsNamed arg
unfolding parse_mov_arg IsNamed
parse_mov_arg-IsNamed t arg other run = elim (Bool-cases (find_keyword regs t 0 == 0xff)) [
  | inr register ↦
      let bound = reg-bound t (ground (arith, register)) in
      let named = reg-named t other in
      let same : record { value = find_keyword regs t 0; type = 0 } ≡ arg =
        ground (arith, register) in
      inl (
        subst (λ a. (a.type ≡ 0) × (a.value < 16) × (named_reg a.value ≡ true)) same
          (refl, bound, named))
  | inl place ↦ elim (Option-cases (parse_relative_arg t)) [
    | inl bad ↦ absurd (ground (arith, place, bad))
    | inr (v, good) ↦
        let same : record { value = v; type = 2 } ≡ arg = ground (arith, place, good) in
        inr (subst (λ a. a.type ≡ 2) same refl)
  ]
]

generate_movw-sized : (ts : List Text) → all_sized (generate_movw ts) ≡ true
unfolding generate_movw operand_bytes
generate_movw-sized ts = ground arith

generate_ldd-sized : (ts : List Text) → all_sized (generate_ldd ts) ≡ true
unfolding generate_ldd operand_bytes
generate_ldd-sized ts = ground arith

generate_push-sized :
    (is_word : Bool) (ts : List Text) → all_sized (generate_push is_word ts) ≡ true
unfolding generate_push stack_bytes operand_bytes
generate_push-sized is_word ts = ground arith

generate_pop-sized : (is_word : Bool) (ts : List Text) → all_sized (generate_pop is_word ts) ≡ true
unfolding generate_pop stack_bytes operand_bytes
generate_pop-sized is_word ts = ground arith

generate_ld-sized :
    (ts : List Text) → str_eq placeholder (token_of ts) ≡ false → all_sized (generate_ld ts) ≡ true
unfolding generate_ld operand_bytes IsNamed
generate_ld-sized ts other = elim (Option-cases (parse_mov_arg (token_of ts))) [
  | inl bad ↦ ground (arith, bad)
  | inr (arg, good) ↦ ground (arith, good, parse_mov_arg-IsNamed (token_of ts) arg other good)
]

mov_bytes-sized :
    (dest src : MovArg) (rest : List Text)
    → IsNamed dest
    → IsNamed src
    → all_sized (mov_bytes dest src rest) ≡ true
unfolding mov_bytes IsNamed
mov_bytes-sized dest src rest (inr d) (inr s) = unfold operand_bytes in ground arith
mov_bytes-sized dest src rest (inl (d, below, named)) (inr s) =
    let codes = (opcodes dest.value below).4 named in unfold operand_bytes in ground (arith, d, s)
mov_bytes-sized dest src rest (inr d) (inl (s, below, named)) =
    unfold operand_bytes in ground (arith, d, s)
mov_bytes-sized dest src rest (inl (d, below, named)) (inl (s, small, known)) =
    let dest_code = (opcodes dest.value below).4 named in
    let src_code = (opcodes src.value small).3 known in ground (arith, d, s, dest_code, src_code)

generate_mov-sized :
    (ts : List Text)
    → str_eq placeholder (token_of ts) ≡ false
    → str_eq placeholder (token_of (behind ts)) ≡ false
    → all_sized (generate_mov ts) ≡ true
unfolding generate_mov
generate_mov-sized ts first second = elim (Option-cases (parse_mov_arg (token_of ts))) [
  | inl bad ↦ ground (arith, bad)
  | inr (dest, good) ↦ elim (Option-cases (parse_mov_arg (token_of (behind ts)))) [
    | inl bad ↦ ground (arith, good, bad)
    | inr (src, fine) ↦ ground (
      arith,
      good,
      fine,
      mov_bytes-sized dest src (behind (behind ts))
          (parse_mov_arg-IsNamed (token_of ts) dest first good)
          (parse_mov_arg-IsNamed (token_of (behind ts)) src second fine),
    )
  ]
]

generate_t_alu-sized :
    (arg : ℕ) (ts : List Text) → arg < 16 → all_sized (generate_t_alu arg ts) ≡ true
unfolding generate_t_alu t_alu_bytes
generate_t_alu-sized arg ts below = ground (arith, (opcodes arg below).2)

gen_keyword-sized : (token : Text) (ts : List Text) → all_sized (gen_keyword token ts) ≡ true
unfolding gen_keyword
gen_keyword-sized token ts = elim (Bool-cases (find_keyword alu_args token 0 == 0xff)) [
  | inr is_alu ↦ ground (
    arith,
    is_alu,
    (opcodes (find_keyword alu_args token 0) (keyword-bound token (ground (arith, is_alu)))).0,
  )
  | inl other ↦ elim (Bool-cases (find_keyword jumps token 0 == 0xff)) [
    | inr is_jump ↦ ground (
      arith,
      other,
      is_jump,
      (opcodes (find_keyword jumps token 0) (jump-bound token (ground (arith, is_jump)))).1,
    )
    | inl no_jump ↦ elim (Bool-cases (find_keyword alu_args (without_first token) 0 == 0xff)) [
      | inl bad ↦ ground (arith, other, no_jump, bad)
      | inr is_t_alu ↦ ground (
        arith,
        other,
        no_jump,
        is_t_alu,
        generate_t_alu-sized (find_keyword alu_args (without_first token) 0) ts
            (keyword-bound (without_first token) (ground (arith, is_t_alu))),
      )
    ]
  ]
]

one_byte-sized :
    (token : Text) (code : ℕ) → code_of one_byte token ≡ some code → operand_bytes code ≡ 0
unfolding code_of operand_bytes
one_byte-sized token code found = ground arith

gen_other-sized : (token : Text) (ts : List Text) → all_sized (gen_other token ts) ≡ true
unfolding gen_other
gen_other-sized token ts = elim (Option-cases (code_of one_byte token)) [
  | inl no_code ↦ ground (arith, no_code, gen_keyword-sized token ts)
  | inr (code, found) ↦ ground (arith, found, one_byte-sized token code found)
]

gen_instruction-all_sized :
    (token : Text) (ts : List Text)
    → str_eq placeholder (token_of ts) ≡ false
    → str_eq placeholder (token_of (behind ts)) ≡ false
    → all_sized (gen_instruction token ts) ≡ true
gen_instruction-all_sized token ts first second =
    gen_instruction-each (λ o. all_sized o ≡ true) token ts (generate_mov-sized ts first second)
      (generate_movw-sized ts) (generate_push-sized false ts) (generate_pop-sized false ts)
      (generate_push-sized true ts) (generate_pop-sized true ts) (generate_ld-sized ts first)
      (generate_ldd-sized ts) refl (gen_other-sized token ts)

-- An instruction that the assembler accepts starts with an opcode that alone determines how many
-- bytes stand behind it, the argument that has to follow included, when neither of the two next
-- tokens is the placeholder "---" of the table of registers.
pub gen_instruction-sized :
    (token : Text) (ts : List Text) (r : Encoded)
    → str_eq placeholder (token_of ts) ≡ false
    → str_eq placeholder (token_of (behind ts)) ≡ false
    → gen_instruction token ts ≡ some r
    → sized r ≡ true
gen_instruction-sized token ts r first second run =
    let all = gen_instruction-all_sized token ts first second in
    subst (λ o. all_sized o ≡ true) run all
