-- ===== src/Binutils/Tests/Assembling.antt =====
-- binutils/asm.c: a small source file, and instances.
use cpu.Prelude.{ℕ, ◌≡◌, refl, ◌≢◌, ◌⊎◌, true, false, none, some, List, [], ◌∷◌, arith, u8, update}
use cpu.Binutils.Text.{Text, codes, str_eq, strchr, before}
use cpu.Binutils.Result.{
  Reason, out_of_fuel, arguments_expected, wrong_label_size, division_by_zero, unexpected_literal,
  Result, ok, panic, eof_expecting_args, ◌>>=◌,
}
use cpu.Binutils.Token.{token_loop, skip_comment, behind_line, get_quoted_text, inside_quotes}
use cpu.Binutils.Token.Words.{printed, is_word, no_newline}
use cpu.Binutils.Labels.{
  mark_label_position, find_or_create, find, create_new_label, write_entry, mark_label_use,
  label_name, label_offset, next_sign,
}
use cpu.Binutils.Keywords.{parse_mov_arg, find_keyword, strtol, unsigned, digits_in}
use cpu.Binutils.Asm.{gen_instruction, generate_ld, generate_ldd, gen_other, code_of}
use cpu.Binutils.Section.{low, high}
use cpu.Binutils.Constants.{ConstantEntry, find_constant, set_constant}
use cpu.Binutils.Assemble.{
  AsmSection, Assembler, select_section, section_named, create_section, new_section, cut,
  has_prefix, current, on_current, emit_byte, write_at, emit_all,
}
use cpu.Binutils.Assemble.Emit.{IsCurrent, Filled, SameOthers, emit_all-Filled}
use cpu.Binutils.Assemble.Sections.{select_section_lem}
use cpu.Binutils.Assemble.Arguments.{
  on_labels, constant_argument, literal_argument, argument_done, emit_value, label_argument,
  label_bytes, half_word, drop,
}
use cpu.Binutils.Assemble.Directives.{
  align, align_section, const, ascii, quoted_turn, directive, named_directive,
}
use cpu.Binutils.Assemble.Loop.{
  handle, ends_with, without_last, next_tokens, behind_tokens, instruction, position_label, finish,
  initial, turn, assemble, assemble_file,
}
use cpu.Binutils.Assemble.Loop.Tokens.{printable, next_tokens-printed}
use cpu.Binutils.Assemble.Loop.Ends.{assemble_file-ends}
use cpu.Binutils.Assemble.Loop.Layout.{assemble_file-comment}
use cpu.Binutils.Assemble.Loop.Due.{number_bytes, instruction-argument}
use cpu.Binutils.Assemble.Loop.Valid.{valid}
use cpu.Binutils.Assemble.Loop.Bounds.{valid-assemble_file}

abbrev start : Assembler
start = initial (λ i. 0)

-- A file with a section, a constant, a label and an instruction that takes an argument.
abbrev source : Text
source =
    codes
      ".section text\n.const N 7\n; start\nfoo:\n  ld A N\n  ldd X $foo\n.align 4\n.ascii \"hi\"\n"

abbrev size_of : Result Assembler → ℕ
size_of (panic why) = 65535
size_of (ok s) = elim (current s) [ none ↦ 65535 | some sec ↦ sec.data_pos ]

abbrev byte_of : ℕ → Result Assembler → ℕ
byte_of i (panic why) = 256
byte_of i (ok s) = elim (current s) [ none ↦ 256 | some sec ↦ sec.image i ]

-- The bytes of the file, and three that end early: an instruction where an argument is due, half of a
-- label where a word is due, an alignment of 0. Behind an instruction no argument of `.byte` is due any more.
runs :
    (size_of (assemble_file source start) ≡ 10)
    × (byte_of 1 (assemble_file source start) ≡ 7)
    × (byte_of 9 (assemble_file source start) ≡ b'i')
    × (assemble_file (codes ".section text ld A nop\n") start ≡ panic arguments_expected)
    × (assemble_file (codes ".section text ldd X $(l)foo\n") start ≡ panic wrong_label_size)
    × (assemble_file (codes ".section text .align 0\n") start ≡ panic division_by_zero)
    × (assemble_file (codes ".section text .byte 5 nop 7\n") start ≡ panic unexpected_literal)
unfolding assemble_file assemble turn token_loop handle ends_with without_last directive
    named_directive str_eq select_section section_named create_section new_section cut has_prefix
    const set_constant find_constant skip_comment behind_line position_label on_labels
    mark_label_position find_or_create find create_new_label write_entry instruction gen_instruction
    generate_ld generate_ldd parse_mov_arg find_keyword next_tokens behind_tokens emit_all
    on_current emit_byte write_at constant_argument emit_value low high label_argument label_bytes
    half_word drop mark_label_use label_name label_offset strchr before next_sign align
    align_section strtol unsigned digits_in ascii quoted_turn get_quoted_text inside_quotes finish
    gen_other code_of literal_argument
runs = (refl, refl, refl, refl, refl, refl, refl)

abbrev two_words : List (Text × ℕ)
two_words = (codes "ld", b' ') ∷ (codes "A", b',') ∷ []

next_tokens-printed_example :
    (next_tokens 2 (codes "ld A,7\n") ≡ codes "ld" ∷ codes "A" ∷ [])
    × (behind_tokens 2 (codes "ld A,7\n") ≡ codes "7\n")
unfolding printable is_word printed
next_tokens-printed_example = next_tokens-printed two_words (codes "7\n") refl

assemble_file-ends_example :
    ((s' : Assembler) × (assemble_file source start ≡ ok s'))
    ⊎ ((why : Reason) × (assemble_file source start ≡ panic why) × (why ≢ out_of_fuel))
assemble_file-ends_example = assemble_file-ends source start

assemble_file-comment_example :
    (assemble_file (codes "; set up\nfoo:\n") start ≡ assemble_file (codes "foo:\n") start)
    × (assemble_file (codes " foo:\n") start ≡ assemble_file (codes "foo:\n") start)
unfolding no_newline
assemble_file-comment_example =
    assemble_file-comment (codes " set up") (codes "foo:\n") b' ' start refl refl

-- An empty text section that is the current one.
abbrev text_section : AsmSection
text_section = record {
  name = codes "text";
  executable = true;
  image = λ i. 0;
  data_pos = 5;
  label_vec = [];
  label_mask = [];
}

abbrev with_text : Assembler
with_text = record start { sections = text_section ∷ []; current_section = some 0 }

abbrev filled_text : Assembler
filled_text = record with_text {
  sections =
      (record text_section { image = update (update (λ i. 0) 5 (u8 1)) 6 (u8 300); data_pos = 7 })
      ∷ [];
}

-- Behind the argument of `.byte`.
abbrev behind_byte : Assembler
behind_byte = record with_text { expect_arg_size = 1 }

abbrev with_nop : Assembler
with_nop = record with_text {
  sections = (record text_section { image = update (λ i. 0) 5 (u8 3); data_pos = 6 }) ∷ [];
}

instruction-argument_example :
    ((with_nop.expect_arg_n ≡ 0)
      × (literal_argument (codes "7") with_nop ≡ panic unexpected_literal)
      × (finish with_nop ≡ ok with_nop))
    ⊎ ((with_nop.expect_arg_n ≡ 1)
        × ((with_nop.expect_arg_size ≡ 1) ⊎ (with_nop.expect_arg_size ≡ 2))
        × (literal_argument (codes "7") with_nop ≡ (
            emit_all (number_bytes with_nop.expect_arg_size (strtol (codes "7"))) with_nop
            >>= (λ t. ok (argument_done t))))
        × (directive (codes "byte") (codes "7\n") with_nop ≡ panic arguments_expected)
        × (finish with_nop ≡ panic eof_expecting_args))
unfolding instruction gen_instruction gen_other code_of str_eq emit_all on_current emit_byte
    write_at next_tokens behind_tokens token_loop
instruction-argument_example =
    instruction-argument (codes "nop") (codes "7") (codes "byte") (codes "7\n") (codes "7\n")
      behind_byte with_nop refl

emit_all-Filled_example :
    (sec' : AsmSection) × (IsCurrent 0 sec' filled_text)
    × (Filled (1 ∷ 300 ∷ []) text_section sec')
    × SameOthers 0 with_text filled_text
unfolding emit_all on_current emit_byte write_at
emit_all-Filled_example =
    emit_all-Filled (1 ∷ 300 ∷ []) 0 text_section with_text filled_text (refl, refl) refl

abbrev with_a : Assembler
with_a = record start {
  sections =
      record {
        name = codes "a";
        executable = false;
        image = λ i. 0;
        data_pos = 0;
        label_vec = [];
        label_mask = [];
      }
      ∷ [];
  current_section = some 0;
}

valid-assemble_file_example : valid with_a ≡ true
unfolding assemble_file assemble turn token_loop handle ends_with without_last directive
    named_directive str_eq select_section section_named create_section new_section cut has_prefix
    const set_constant find_constant skip_comment behind_line position_label on_labels
    mark_label_position find_or_create find create_new_label write_entry instruction gen_instruction
    generate_ld generate_ldd parse_mov_arg find_keyword next_tokens behind_tokens emit_all
    on_current emit_byte write_at constant_argument emit_value low high label_argument label_bytes
    half_word drop mark_label_use label_name label_offset strchr before next_sign align
    align_section strtol unsigned digits_in ascii quoted_turn get_quoted_text inside_quotes finish
    gen_other code_of
valid-assemble_file_example = valid-assemble_file (codes ".section a\n") start with_a refl refl

select_section_lem_example :
    (s' : Assembler) × (sec : AsmSection) × (select_section (codes "rodata") with_text ≡ ok s')
    × (current s' ≡ some sec)
    × (sec.name ≡ codes "rodata")
    × (select_section (codes "rodata") s' ≡ ok s')
select_section_lem_example =
    select_section_lem (codes "rodata") with_text (omega arith) (omega arith)

abbrev one_constant : List ConstantEntry
one_constant = record { name = codes "N"; value = 7 } ∷ []
