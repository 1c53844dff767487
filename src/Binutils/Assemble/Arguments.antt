-- ===== src/Binutils/Assemble/Arguments.antt =====
-- binutils/asm.c, `assemble`: the tokens that are arguments: labels, characters, numbers, constants.
use cpu.Prelude.{ℕ, zero, suc, ◌+◌, Bool, ◌&&◌, [], ◌∷◌, length, ltb, ◌==◌, if◌then◌else◌, u8}
use cpu.Binutils.Text.{Text}
use cpu.Binutils.Result.{
  null_section, arguments_expected, wrong_label_size, unexpected_char, unexpected_literal, Result,
  ok, panic, get_or, ◌>>=◌,
}
use cpu.Binutils.Labels.{Labels, mark_label_use}
use cpu.Binutils.Constants.{find_constant}
use cpu.Binutils.Keywords.{strtol}
use cpu.Binutils.Section.{low, high}
use cpu.Binutils.Assemble.{AsmSection, Assembler, current, set_current, emit}

-- What labels.c sees of a section.
abbrev pub labels_of : AsmSection → Assembler → Labels
labels_of sec s = record {
  label_vec = sec.label_vec;
  label_mask = sec.label_mask;
  current_label_id = s.current_label_id;
}

-- A change of the labels of the current section.
abbrev pub set_labels : AsmSection → Labels → Assembler → Assembler
set_labels sec l s =
    let s' = set_current (record sec { label_vec = l.label_vec; label_mask = l.label_mask }) s in
    record s' { current_label_id = l.current_label_id }

unfoldable pub on_labels : (AsmSection → Labels → Result Labels) → Assembler → Result Assembler
on_labels f s = do
  sec ← get_or null_section (current s)
  l ← f sec (labels_of sec s)
  ok (set_labels sec l s)

-- `expect_arg_n--`, on a `char`.
abbrev pub argument_done : Assembler → Assembler
argument_done s = record s { expect_arg_n = u8 (s.expect_arg_n + 255) }

unfoldable pub drop : ℕ → Text → Text
drop zero s = s
drop (suc n) [] = []
drop (suc n) (c ∷ s) = drop n s

abbrev pub char_at : ℕ → Text → ℕ
char_at i s = elim (drop i s) [ [] ↦ 0 | c ∷ cs ↦ c ]

-- `$(l)name` and `$(h)name`, where the text is long enough.
abbrev pub has_half : Text → Bool
has_half token = ltb 4 (length token) && (char_at 1 token == b'(')

unfoldable pub half_word : Text → ℕ
half_word token =
    if has_half token
    then if char_at 2 token == b'h' then 2 else if char_at 2 token == b'l' then 1 else 0
    else 0

abbrev pub label_start : Text → ℕ
label_start token = if has_half token then 4 else 1

-- The placeholder, once the use is in the mask.
unfoldable pub label_bytes : ℕ → Assembler → Result Assembler
label_bytes half s =
    if half == 0
    then if s.expect_arg_size == 2 then emit 0 s >>= emit 0 else panic wrong_label_size
    else if s.expect_arg_size == 1
    then emit 0 s
    else panic wrong_label_size

unfoldable pub label_argument : Text → Assembler → Result Assembler
label_argument token s = do
  used ←
      on_labels
        (λ sec l.
          ok (mark_label_use (drop (label_start token) token) sec.data_pos (half_word token) l).1)
        s
  filled ← label_bytes (half_word token) used
  ok (argument_done (record filled { expect_arg_size = 0 }))

unfoldable pub char_argument : Text → Assembler → Result Assembler
char_argument token s = do
  s₁ ← emit (char_at 1 token) s
  s₂ ← if ltb 1 s.expect_arg_size then emit 0 s₁ else ok s₁
  if s.expect_arg_size == 0 then panic unexpected_char else ok (argument_done s₂)

-- The bytes of a number or of a constant, by `expect_arg_size`.
unfoldable pub emit_value : ℕ → Assembler → Result Assembler
emit_value value s =
    if s.expect_arg_size == 2
    then emit (low value) s >>= emit (high value)
    else if s.expect_arg_size == 1
    then emit (low value) s
    else ok s

unfoldable pub literal_argument : Text → Assembler → Result Assembler
literal_argument token s = do
  s' ← emit_value (strtol token) s
  if s.expect_arg_size == 0 then panic unexpected_literal else ok (argument_done s')

unfoldable pub constant_argument : Text → Assembler → Result Assembler
constant_argument token s = do
  e ← get_or arguments_expected (find_constant token s.constants)
  s' ← emit_value e.value s
  ok (argument_done s')
