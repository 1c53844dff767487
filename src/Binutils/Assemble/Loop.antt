-- ===== src/Binutils/Assemble/Loop.antt =====
-- binutils/asm.c: the loop of `assemble` over the tokens of the file.
pub mod Tokens
pub mod Fuel
pub mod Ends
pub mod Layout
pub mod Due
pub mod Valid
pub mod Bounds
use cpu.Prelude.{
  ℕ, zero, suc, ◌+◌, ◌-◌, Bool, true, false, not, ◌&&◌, ◌||◌, Option, none, some, List, [], ◌∷◌,
  length, ltb, leb, ◌==◌, if◌then◌else◌, u16,
}
use cpu.Binutils.Text.{Text, is_digit}
use cpu.Binutils.Result.{
  null_section, bad_instruction, eof_expecting_args, out_of_fuel, Result, ok, panic, get_or, ◌>>=◌,
}
use cpu.Binutils.Token.{Token, get_next_token, is_empty, skip_comment}
use cpu.Binutils.Labels.{mark_label_position}
use cpu.Binutils.Keywords.{starts_with}
use cpu.Binutils.Asm.{Encoded, without_first, gen_instruction}
use cpu.Binutils.Assemble.{AsmSection, Assembler, emit_all}
use cpu.Binutils.Assemble.Arguments.{
  on_labels, label_argument, char_argument, literal_argument, constant_argument,
}
use cpu.Binutils.Assemble.Directives.{Going, directive}

-- `token[token_length - 1] == ':'`, and the token without it.
unfoldable pub ends_with : ℕ → Text → Bool
ends_with c [] = false
ends_with c (a ∷ []) = a == c
ends_with c (a ∷ b ∷ s) = ends_with c (b ∷ s)

unfoldable pub without_last : Text → Text
without_last [] = []
without_last (a ∷ []) = []
without_last (a ∷ b ∷ s) = a ∷ without_last (b ∷ s)

-- The next `n` tokens, and the file behind them.
unfoldable pub next_tokens : ℕ → Text → List Text
next_tokens zero cs = []
next_tokens (suc n) cs = (get_next_token cs).text ∷ next_tokens n (get_next_token cs).rest

unfoldable pub behind_tokens : ℕ → Text → Text
behind_tokens zero cs = cs
behind_tokens (suc n) cs = behind_tokens n (get_next_token cs).rest

-- The argument that an instruction expects; both are 0 where it takes none.
abbrev pub expecting_of : Encoded → Assembler → Assembler
expecting_of e s = record s { expect_arg_n = e.expect_arg_n; expect_arg_size = e.expect_arg_size }

-- No instruction takes more than three tokens.
unfoldable pub instruction : Text → Text → Assembler → Result Going
instruction token cs s = do
  e ← get_or bad_instruction (gen_instruction token (next_tokens 3 cs))
  s' ← emit_all e.bytes s
  ok (expecting_of e s', behind_tokens (3 - length e.rest) cs)

unfoldable pub position_label : Text → Assembler → Result Assembler
position_label label = on_labels (λ sec l. ok (mark_label_position label sec.data_pos l))

abbrev pub keeping : Text → Result Assembler → Result Going
keeping cs r = r >>= (λ s. ok (s, cs))

abbrev pub is_number : Text → Bool
is_number [] = false
is_number (c ∷ s) = is_digit c || (c == b'-')

-- What is done with a token that is no comment.
unfoldable pub handle : Text → Text → Assembler → Result Going
handle token cs s =
    if ends_with b':' token
    then keeping cs (position_label (without_last token) s)
    else if starts_with b'.' token
    then directive (without_first token) cs s
    else if starts_with b'$' token
    then keeping cs (label_argument token s)
    else if starts_with b'\'' token
    then keeping cs (char_argument token s)
    else if is_number token
    then keeping cs (literal_argument token s)
    else if not (s.expect_arg_n == 0)
    then keeping cs (constant_argument token s)
    else instruction token cs s

unfoldable pub finish : Assembler → Result Assembler
finish s = if not (s.expect_arg_n == 0) then panic eof_expecting_args else ok s

-- A turn of the loop: another turn, or the end.
pub data Turn : Type 0 where
  again : Assembler → Text → Turn
  stop : Result Assembler → Turn

abbrev pub turn_of : Result Going → Turn
turn_of (panic why) = stop (panic why)
turn_of (ok (s, cs)) = again s cs

unfoldable pub turn : Text → Assembler → Turn
turn cs s =
    let t = get_next_token cs in
    if starts_with b';' t.text
    then again s (skip_comment t.b_getc_last t.rest)
    else if is_empty t.text
    then stop (finish s)
    else turn_of (handle t.text t.rest s)

abbrev pub follow : Turn → (Text → Assembler → Result Assembler) → Result Assembler
follow (stop r) loop = r
follow (again s cs) loop = loop cs s

unfoldable pub assemble : ℕ → Text → Assembler → Result Assembler
assemble zero cs s = panic out_of_fuel
assemble (suc fuel) cs s = follow (turn cs s) (assemble fuel)

-- A file as a whole: every turn but the last reads a byte.
unfoldable pub assemble_file : Text → Assembler → Result Assembler
assemble_file cs s = assemble (suc (length cs)) cs s

abbrev pub initial : (ℕ → ℕ) → Assembler
initial unwritten = record {
  sections = [];
  current_section = none;
  constants = [];
  expect_arg_n = 0;
  expect_arg_size = 0;
  current_label_id = 0;
  unwritten = unwritten;
}
