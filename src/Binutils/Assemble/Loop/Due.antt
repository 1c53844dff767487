-- ===== src/Binutils/Assemble/Loop/Due.antt =====
-- binutils/asm.c: what `assemble` takes behind an instruction.
use cpu.Prelude.{
  ℕ, ◌≡◌, refl, sym, ap, ◌⊎◌, inl, inr, true, false, none, some, Option, List, [], ◌∷◌, arith, ◌==◌,
  Bool-cases, if◌then◌else◌, subst,
}
use cpu.Binutils.Text.{Text}
use cpu.Binutils.Result.{
  Reason, ok, panic, unexpected_literal, eof_expecting_args, arguments_expected, bad_instruction,
  get_or, ◌>>=◌, ok-bind, Result-cases,
}
use cpu.Binutils.Keywords.{strtol}
use cpu.Binutils.Section.{low, high}
use cpu.Binutils.Asm.{Encoded, gen_instruction}
use cpu.Binutils.Asm.Due.{due, all_due, gen_instruction-due}
use cpu.Binutils.Assemble.{Assembler, emit, emit_all}
use cpu.Binutils.Assemble.Arguments.{argument_done, literal_argument, emit_value}
use cpu.Binutils.Assemble.Directives.{Going, directive}
use cpu.Binutils.Assemble.Loop.{next_tokens, expecting_of, instruction, finish}

-- The bytes of a number, low byte first.
abbrev pub number_bytes : ℕ → ℕ → List ℕ
number_bytes size value = if size == 1 then low value ∷ [] else low value ∷ high value ∷ []

emit-one : (a : ℕ) (s : Assembler) → emit a s ≡ emit_all (a ∷ []) s
unfolding emit_all
emit-one a s = elim (Result-cases (emit a s)) [
  | inl (t, ran) ↦ rw ran refl
  | inr (why, ended) ↦ rw ended refl
]

emit-two : (a b : ℕ) (s : Assembler) → (emit a s >>= emit b) ≡ emit_all (a ∷ b ∷ []) s
unfolding emit_all
emit-two a b s = elim (Result-cases (emit a s)) [
  | inl (t, ran) ↦ rw ran (unfold emit_all in emit-one b t)
  | inr (why, ended) ↦ rw ended refl
]

get_or-ok {ℓ} :
    {A : Type ℓ} (why : Reason) (o : Option A) (a : A) → get_or why o ≡ ok a → o ≡ some a
get_or-ok why none a came = absurd cc
get_or-ok why (some b) a came = cc

ok-same : (a b : Going) → ok a ≡ ok b → a ≡ b
ok-same a b same = cc

-- What an accepted instruction leaves is what its encoding says.
expecting-instruction :
    (token cs cs' : Text) (s s' : Assembler)
    → instruction token cs s ≡ ok (s', cs')
    → (e : Encoded) × (due e ≡ true)
      × (s'.expect_arg_n ≡ e.expect_arg_n)
      × (s'.expect_arg_size ≡ e.expect_arg_size)
unfolding instruction
expecting-instruction token cs cs' s s' ran =
    let (e, encoded, rest) =
      ok-bind (get_or bad_instruction (gen_instruction token (next_tokens 3 cs))) _ (s', cs') ran in
    let (t, filled, last) = ok-bind (emit_all e.bytes s) _ (s', cs') rest in
    let same : gen_instruction token (next_tokens 3 cs) ≡ some e =
      get_or-ok bad_instruction (gen_instruction token (next_tokens 3 cs)) e encoded in
    let left : expecting_of e t ≡ s' = ap (λ p. p.0) (ok-same _ (s', cs') last) in
    (
      e,
      subst (λ o. all_due o ≡ true) same (gen_instruction-due token (next_tokens 3 cs)),
      ap Assembler.expect_arg_n (sym left),
      ap Assembler.expect_arg_size (sym left),
    )

-- Behind an accepted instruction, whatever was due in front of it, the arguments are settled. Either
-- none is due: a number is refused as unexpected, and the file may end. Or exactly one is due, of one or
-- two bytes: a number puts out that many bytes, low byte first, and then counts as that argument; a
-- directive is refused, and so is the end of the file.
pub instruction-argument :
    (token number name cs cs' : Text) (s s' : Assembler)
    → instruction token cs s ≡ ok (s', cs')
    → ((s'.expect_arg_n ≡ 0)
        × (literal_argument number s' ≡ panic unexpected_literal)
        × (finish s' ≡ ok s'))
      ⊎ ((s'.expect_arg_n ≡ 1)
          × ((s'.expect_arg_size ≡ 1) ⊎ (s'.expect_arg_size ≡ 2))
          × (literal_argument number s' ≡ (
              emit_all (number_bytes s'.expect_arg_size (strtol number)) s'
              >>= (λ t. ok (argument_done t))))
          × (directive name cs' s' ≡ panic arguments_expected)
          × (finish s' ≡ panic eof_expecting_args))
unfolding literal_argument emit_value directive finish
instruction-argument token number name cs cs' s s' ran =
    let (e, fine, n, size) = expecting-instruction token cs cs' s s' ran in
    elim (Bool-cases (e.expect_arg_n == 0)) [
      | inl none_due ↦
          let no_n : s'.expect_arg_n ≡ 0 = ground (arith, none_due, n) in
          let no_size : s'.expect_arg_size ≡ 0 = ground (arith, none_due, fine, size) in
          let size_none : literal_argument number s' ≡ panic unexpected_literal =
            ground (arith, no_size) in
          inl (no_n, size_none, rw no_n refl)
      | inr one_due ↦
          let one : s'.expect_arg_n ≡ 1 = ground (arith, one_due, fine, n) in
          let sizes : (s'.expect_arg_size ≡ 1) ⊎ (s'.expect_arg_size ≡ 2) =
            ground (arith, one_due, fine, size) in
          inr (
            one,
            sizes,
            elim sizes [
              | inl byte ↦
                  let is_word : (s'.expect_arg_size == 2) ≡ false = ground (arith, byte) in
                  let is_byte : (s'.expect_arg_size == 1) ≡ true = ground (arith, byte) in
                  let is_none : (s'.expect_arg_size == 0) ≡ false = ground (arith, byte) in
                  rw (is_word, is_byte, is_none)
                    (ap (λ r. r >>= (λ t. ok (argument_done t)))
                      (emit-one (low (strtol number)) s'))
              | inr word ↦
                  let is_word : (s'.expect_arg_size == 2) ≡ true = ground (arith, word) in
                  let is_byte : (s'.expect_arg_size == 1) ≡ false = ground (arith, word) in
                  let is_none : (s'.expect_arg_size == 0) ≡ false = ground (arith, word) in
                  rw (is_word, is_byte, is_none)
                    (ap (λ r. r >>= (λ t. ok (argument_done t)))
                      (emit-two (low (strtol number)) (high (strtol number)) s'))
            ],
            rw one refl,
            rw one refl,
          )
    ]
