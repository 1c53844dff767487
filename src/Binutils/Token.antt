-- ===== src/Binutils/Token.antt =====
-- binutils/token.c: the tokens of a source file, which is the list of the bytes that `getc` has still
-- to give. No call of `unget_token` is left in the program.
pub mod Words
use cpu.Prelude.{
  ℕ, Bool, true, false, not, ◌&&◌, ◌||◌, Option, none, some, List, [], ◌∷◌, ◌++◌, leb, ◌==◌,
  if◌then◌else◌,
}
use cpu.Binutils.Text.{Text}

-- `isspace(c) || c == '\n' || c == ','`
abbrev pub separates : ℕ → Bool
separates c = ((leb 9 c && leb c 13) || (c == b' ')) || (c == b',')

abbrev pub is_empty : Text → Bool
is_empty [] = true
is_empty (c ∷ s) = false

-- What a call leaves: `token`, `b_getc_last` (`none` is EOF) and the rest of the file. `eof_hit` is
-- set when `token` is empty.
pub record Token : Type 0 where
  pub text : Text
  pub b_getc_last : Option ℕ
  pub rest : Text

-- The loop, with the characters of the token so far.
unfoldable pub token_loop : Text → Text → Token
token_loop token [] = record { text = token; b_getc_last = none; rest = [] }
token_loop token (c ∷ cs) =
    let on = token_loop (if separates c then token else token ++ (c ∷ [])) cs in
    if separates c && not (is_empty token)
    then record { text = token; b_getc_last = some c; rest = cs }
    else on

abbrev pub get_next_token : Text → Token
get_next_token = token_loop []

-- The rest of the file behind the next end of line.
unfoldable pub behind_line : Text → Text
behind_line [] = []
behind_line (c ∷ cs) = if c == b'\n' then cs else behind_line cs

-- A comment of one word has its end of line read already.
unfoldable pub skip_comment : Option ℕ → Text → Text
skip_comment none cs = behind_line cs
skip_comment (some last) cs = if last == b'\n' then cs else behind_line cs

-- What a call of `get_quoted_text` returns; `closed` is -1.
pub data Quoted : Type 0 where
  char : ℕ → Text → Quoted
  closed : Text → Quoted
  unfinished : Quoted

abbrev pub escaped : ℕ → ℕ
escaped c =
    if c == b'n'
    then 10
    else if c == b't'
    then 9
    else if c == b'a'
    then 7
    else if c == b'b'
    then 8
    else if c == b'r'
    then 13
    else if c == b'0'
    then 0
    else c

abbrev pub escape : Text → Quoted
escape [] = unfinished
escape (c ∷ cs) = char (escaped c) cs

-- The call with `inside_quoted` set, which decides at the first byte.
unfoldable pub inside_quotes : Text → Quoted
inside_quotes [] = unfinished
inside_quotes (c ∷ cs) =
    if c == b'"' then closed cs else if c == b'\\' then escape cs else char c cs

-- `get_quoted_text` with its static `inside_quoted`.
unfoldable pub get_quoted_text : Bool → Text → Quoted
get_quoted_text true cs = inside_quotes cs
get_quoted_text false [] = unfinished
get_quoted_text false (c ∷ cs) = if c == b'"' then inside_quotes cs else get_quoted_text false cs
