-- ===== src/Binutils/Asm/Each.antt =====
-- binutils/asm.c: what holds of each kind of instruction holds of `gen_instruction`.
use cpu.Prelude.{inl, inr, true, false, Option, none, List, [], ◌∷◌, Bool-cases}
use cpu.Binutils.Text.{Text, str_eq}
use cpu.Binutils.Asm.{
  Encoded, generate_movw, generate_mov, generate_push, generate_pop, generate_ld, generate_ldd,
  gen_other, gen_instruction,
}

pub gen_instruction-each :
    (P : Option Encoded → Type 0) (token : Text) (ts : List Text)
    → P (generate_mov ts)
    → P (generate_movw ts)
    → P (generate_push false ts)
    → P (generate_pop false ts)
    → P (generate_push true ts)
    → P (generate_pop true ts)
    → P (generate_ld ts)
    → P (generate_ldd ts)
    → P none
    → P (gen_other token ts)
    → P (gen_instruction token ts)
unfolding gen_instruction
gen_instruction-each P token ts mov movw push pop pushw popw ld ldd cmp other =
    elim (Bool-cases (str_eq token (b'm' ∷ b'o' ∷ b'v' ∷ []))) [
      | inl hit ↦ rw hit mov
      | inr miss ↦ rw miss (elim (Bool-cases (str_eq token (b'm' ∷ b'o' ∷ b'v' ∷ b'w' ∷ []))) [
        | inl hit ↦ rw hit movw
        | inr miss ↦ rw miss (elim (Bool-cases (str_eq token (b'p' ∷ b'u' ∷ b's' ∷ b'h' ∷ []))) [
          | inl hit ↦ rw hit push
          | inr miss ↦ rw miss (elim (Bool-cases (str_eq token (b'p' ∷ b'o' ∷ b'p' ∷ []))) [
            | inl hit ↦ rw hit pop
            | inr miss ↦
                rw miss (elim (Bool-cases (str_eq token (b'p' ∷ b'u' ∷ b's' ∷ b'h' ∷ b'w' ∷ []))) [
                  | inl hit ↦ rw hit pushw
                  | inr miss ↦
                      rw miss (elim (Bool-cases (str_eq token (b'p' ∷ b'o' ∷ b'p' ∷ b'w' ∷ []))) [
                        | inl hit ↦ rw hit popw
                        | inr miss ↦ rw miss (elim (Bool-cases (str_eq token (b'l' ∷ b'd' ∷ []))) [
                          | inl hit ↦ rw hit ld
                          | inr miss ↦
                              rw miss (elim (Bool-cases (str_eq token (b'l' ∷ b'd' ∷ b'd' ∷ []))) [
                                | inl hit ↦ rw hit ldd
                                | inr miss ↦
                                    rw miss
                                      (elim (Bool-cases (str_eq token (b'c' ∷ b'm' ∷ b'p' ∷ []))) [
                                        | inl hit ↦ rw hit cmp
                                        | inr miss ↦ rw miss other
                                      ])
                              ])
                        ])
                      ])
                ])
          ])
        ])
      ])
    ]
