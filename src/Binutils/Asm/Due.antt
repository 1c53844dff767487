-- ===== src/Binutils/Asm/Due.antt =====
-- binutils/asm.c: the argument that an instruction leaves to be given.
use cpu.Prelude.{ℕ, ◌≡◌, refl, Bool, true, false, Option, none, some, List, arith, ◌==◌, ◌&&◌, ◌||◌}
use cpu.Binutils.Text.{Text}
use cpu.Binutils.Keywords.{find_keyword, alu_args}
use cpu.Binutils.Asm.Each.{gen_instruction-each}
use cpu.Binutils.Asm.{
  Encoded, generate_movw, mov_bytes, generate_mov, stack_bytes, generate_push, generate_pop,
  generate_ld, generate_ldd, t_alu_bytes, generate_t_alu, gen_other, gen_keyword, gen_instruction,
  without_first,
}

-- No argument, or one of one or two bytes.
abbrev pub due : Encoded → Bool
due e =
    ((e.expect_arg_n == 0) && (e.expect_arg_size == 0))
    || ((e.expect_arg_n == 1) && ((e.expect_arg_size == 1) || (e.expect_arg_size == 2)))

abbrev pub all_due : Option Encoded → Bool
all_due none = true
all_due (some e) = due e

generate_mov-due : (ts : List Text) → all_due (generate_mov ts) ≡ true
unfolding generate_mov mov_bytes
generate_mov-due ts = ground arith

generate_movw-due : (ts : List Text) → all_due (generate_movw ts) ≡ true
unfolding generate_movw
generate_movw-due ts = ground arith

generate_push-due : (is_word : Bool) (ts : List Text) → all_due (generate_push is_word ts) ≡ true
unfolding generate_push stack_bytes
generate_push-due is_word ts = ground arith

generate_pop-due : (is_word : Bool) (ts : List Text) → all_due (generate_pop is_word ts) ≡ true
unfolding generate_pop stack_bytes
generate_pop-due is_word ts = ground arith

generate_ld-due : (ts : List Text) → all_due (generate_ld ts) ≡ true
unfolding generate_ld
generate_ld-due ts = ground arith

generate_ldd-due : (ts : List Text) → all_due (generate_ldd ts) ≡ true
unfolding generate_ldd
generate_ldd-due ts = ground arith

generate_t_alu-due : (arg : ℕ) (ts : List Text) → all_due (generate_t_alu arg ts) ≡ true
unfolding generate_t_alu t_alu_bytes
generate_t_alu-due arg ts = ground arith

gen_keyword-due : (token : Text) (ts : List Text) → all_due (gen_keyword token ts) ≡ true
unfolding gen_keyword
gen_keyword-due token ts =
    ground (arith, generate_t_alu-due (find_keyword alu_args (without_first token) 0) ts)

gen_other-due : (token : Text) (ts : List Text) → all_due (gen_other token ts) ≡ true
unfolding gen_other
gen_other-due token ts = ground (arith, gen_keyword-due token ts)

pub gen_instruction-due :
    (token : Text) (ts : List Text) → all_due (gen_instruction token ts) ≡ true
gen_instruction-due token ts =
    gen_instruction-each (λ o. all_due o ≡ true) token ts (generate_mov-due ts)
      (generate_movw-due ts) (generate_push-due false ts) (generate_pop-due false ts)
      (generate_push-due true ts) (generate_pop-due true ts) (generate_ld-due ts)
      (generate_ldd-due ts) refl (gen_other-due token ts)
