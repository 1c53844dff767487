-- ===== src/Binutils/Assemble/Directives.antt =====
-- binutils/asm.c, `assemble`: the directives. Each takes the file behind its name and leaves the file
-- behind its arguments.
use cpu.Prelude.{
  ℕ, zero, suc, ◌+◌, ◌-◌, ◌%◌, Bool, true, false, not, map, length, ◌==◌, if◌then◌else◌, u32,
}
use cpu.Binutils.Text.{Text, codes, str_eq}
use cpu.Binutils.Result.{
  arguments_expected, bad_directive, constant_list_overflow, quote_expected, no_such_label,
  null_section, negative_place, division_by_zero, out_of_fuel, Result, ok, panic, get_or, ◌>>=◌,
}
use cpu.Binutils.Token.{Token, get_next_token, Quoted, char, closed, unfinished, get_quoted_text}
use cpu.Binutils.Labels.{mark_label_export, mark_label_import}
use cpu.Binutils.Constants.{set_constant}
use cpu.Binutils.Keywords.{strtol, strtol_int}
use cpu.Binutils.Assemble.{AsmSection, Assembler, int_negative, select_section, on_current, emit}
use cpu.Binutils.Assemble.Arguments.{on_labels}

-- The assembler and the rest of its file.
abbrev pub Going : Type 0
Going = Assembler × Text

abbrev pub expect : ℕ → Assembler → Assembler
expect size s = record s { expect_arg_size = size; expect_arg_n = 1 }

-- `(align - (data_pos % align)) % align`
abbrev pub padding : ℕ → ℕ → ℕ
padding align data_pos = (align - data_pos % align) % align

-- A place below 0 is given up here, where C goes on with a remainder below 0.
unfoldable pub align_section : ℕ → AsmSection → Result AsmSection
align_section align sec =
    if align == 0
    then panic division_by_zero
    else if int_negative sec.data_pos
    then panic negative_place
    else ok (record sec { data_pos = u32 (sec.data_pos + padding align sec.data_pos) })

-- What a call of `get_quoted_text` leads to, with the rest of the loop.
unfoldable pub quoted_turn : Quoted → Assembler → (Text → Assembler → Result Going) → Result Going
quoted_turn unfinished s loop = panic quote_expected
quoted_turn (closed rest) s loop = ok (s, rest)
quoted_turn (char c rest) s loop = emit c s >>= loop rest

-- Every call but the last gives a byte, so that the length of the file is fuel enough.
unfoldable pub ascii : ℕ → Bool → Text → Assembler → Result Going
ascii zero within cs s = panic out_of_fuel
ascii (suc fuel) within cs s = quoted_turn (get_quoted_text within cs) s (ascii fuel true)

unfoldable pub import_label : Text → AsmSection → AsmSection
import_label label sec = record sec {
  label_vec =
      (mark_label_import label (record {
        label_vec = sec.label_vec;
        label_mask = sec.label_mask;
        current_label_id = 0;
      })).label_vec;
}

-- The directives that take the next token.
unfoldable pub org : Text → Assembler → Result Assembler
org token = on_current null_section (λ sec. ok (record sec { data_pos = strtol_int token }))

unfoldable pub skip : Text → Assembler → Result Assembler
skip token =
    on_current null_section
      (λ sec. ok (record sec { data_pos = u32 (sec.data_pos + strtol_int token) }))

unfoldable pub align : Text → Assembler → Result Assembler
align token = on_current null_section (align_section (strtol token))

unfoldable pub const : Text → Text → Assembler → Result Assembler
const name value s = do
  constants ← get_or constant_list_overflow (set_constant name (strtol value) s.constants)
  ok (record s { constants = constants })

unfoldable pub export_label : Text → Assembler → Result Assembler
export_label token = on_labels (λ sec l. get_or no_such_label (mark_label_export token l))

unfoldable pub import_all : Text → Assembler → Assembler
import_all token s = record s { sections = map (import_label token) s.sections }

abbrev pub with_token : Token → (Text → Result Assembler) → Result Going
with_token t f = f t.text >>= (λ s. ok (s, t.rest))

-- The chain of comparisons, on the name behind the dot.
unfoldable pub named_directive : Text → Text → Assembler → Result Going
named_directive name cs s =
    let t = get_next_token cs in
    if str_eq name (codes "org")
    then with_token t (λ token. org token s)
    else if str_eq name (codes "byte")
    then ok (expect 1 s, cs)
    else if str_eq name (codes "word")
    then ok (expect 2 s, cs)
    else if str_eq name (codes "ascii")
    then ascii (suc (length cs)) false cs s
    else if str_eq name (codes "skip")
    then with_token t (λ token. skip token s)
    else if str_eq name (codes "align")
    then with_token t (λ token. align token s)
    else if str_eq name (codes "section")
    then with_token t (λ token. select_section token s)
    else if str_eq name (codes "const")
    then with_token (get_next_token t.rest) (λ value. const t.text value s)
    else if str_eq name (codes "export")
    then with_token t (λ token. export_label token s)
    else if str_eq name (codes "import")
    then with_token t (λ token. ok (import_all token s))
    else panic bad_directive

unfoldable pub directive : Text → Text → Assembler → Result Going
directive name cs s =
    if not (s.expect_arg_n == 0) then panic arguments_expected else named_directive name cs s
