-- ===== src/Binutils/Asm.antt =====
-- binutils/asm.c: the bytes of an instruction. A list of tokens is what `get_next_token` gives one
-- after the other, and `none` is `panic`.
pub mod Opcodes
pub mod Each
pub mod Due
pub mod Size
use cpu.Prelude.{
  ℕ, zero, suc, ◌+◌, ◌-◌, ◌*◌, ◌/◌, ◌%◌, ◌^◌, ◌≤◌, ◌<◌, bit_and, bit_or, bit_xor, for_up, ◌≡◌, refl,
  sym, ap, ap₂, ◌∙◌, subst, fun_ext, ◌≢◌, ◌↔◌, ◌⊎◌, inl, inr, Bool, true, false, not, ◌&&◌, ◌||◌,
  Option, none, some, List, [], ◌∷◌, ◌++◌, map, arith, ltb, leb, ◌==◌, ==_iff, ==_refl, ==_ne,
  if◌then◌else◌, Bool-cases, Option-cases, length, get_elem?, length-append, get_elem-append_right,
  get_elem-append_left, u8, u16, ◌<<<◌, ◌>>>◌, passes_below, passes_below-entry, update,
}
use cpu.Binutils.Text.{Text, str_eq}
use cpu.Binutils.Keywords.{alu_args, jumps, find_keyword, starts_with, MovArg, parse_mov_arg}

-- What an instruction leaves: the bytes it has emitted, the tokens behind it, and the argument that
-- has to follow.
pub record Encoded : Type 0 where
  pub bytes : List ℕ
  pub rest : List Text
  pub expect_arg_n : ℕ
  pub expect_arg_size : ℕ

abbrev pub emitted : List ℕ → List Text → Option Encoded
emitted bytes rest =
    some (record { bytes = bytes; rest = rest; expect_arg_n = 0; expect_arg_size = 0 })

abbrev pub expecting : List ℕ → ℕ → List Text → Option Encoded
expecting bytes size rest =
    some (record { bytes = bytes; rest = rest; expect_arg_n = 1; expect_arg_size = size })

abbrev pub token_of : List Text → Text
token_of [] = []
token_of (t ∷ ts) = t

abbrev pub behind : List Text → List Text
behind [] = []
behind (t ∷ ts) = ts

-- The argument in the next token, and what is done with it.
abbrev pub with_arg : List Text → (MovArg → Option Encoded) → Option Encoded
with_arg ts f = elim (parse_mov_arg (token_of ts)) [ none ↦ none | some arg ↦ f arg ]

unfoldable pub generate_movw : List Text → Option Encoded
generate_movw ts =
    if str_eq (token_of ts) (b'X' ∷ [])
    then with_arg (behind ts) (λ src.
      if src.type == 2 then emitted (0xfe ∷ src.value ∷ []) (behind (behind ts)) else none)
    else none

-- The choice of `generate_mov` by its two arguments.
unfoldable pub mov_bytes : MovArg → MovArg → List Text → Option Encoded
mov_bytes dest src rest =
    if (dest.type == 0) && (dest.value == 0x0f)
    then if src.type == 0
      then emitted (bit_or 0xe0 src.value ∷ []) rest
      else if src.type == 2
      then emitted (0xe5 ∷ src.value ∷ []) rest
      else none
    else if (src.type == 0) && (src.value == 0x0f)
    then if dest.type == 0
      then emitted (bit_or 0xd0 dest.value ∷ []) rest
      else if dest.type == 2
      then emitted (0xd5 ∷ dest.value ∷ []) rest
      else none
    else if (dest.type == 2) && (src.type == 2)
    then emitted (0xfa ∷ src.value ∷ dest.value ∷ []) rest
    else none

unfoldable pub generate_mov : List Text → Option Encoded
generate_mov ts =
    with_arg ts (λ dest. with_arg (behind ts) (λ src. mov_bytes dest src (behind (behind ts))))

-- `generate_push` and `generate_pop`, whose bytes differ.
unfoldable pub stack_bytes : Bool → ℕ → ℕ → ℕ → MovArg → List Text → Option Encoded
stack_bytes is_word single byte word arg rest =
    if arg.type == 0
    then if not (arg.value == 0x0f)
      then none
      else if is_word
      then none
      else emitted (single ∷ []) rest
    else if arg.type == 2
    then if is_word
      then emitted (word ∷ arg.value ∷ []) rest
      else emitted (byte ∷ arg.value ∷ []) rest
    else none

unfoldable pub generate_push : Bool → List Text → Option Encoded
generate_push is_word ts =
    if str_eq (token_of ts) (b'X' ∷ b'M' ∷ [])
    then emitted (0xf0 ∷ []) (behind ts)
    else with_arg ts (λ src. stack_bytes is_word 0xd9 0xf6 0xf8 src (behind ts))

unfoldable pub generate_pop : Bool → List Text → Option Encoded
generate_pop is_word ts =
    if str_eq (token_of ts) (b'M' ∷ b'X' ∷ [])
    then emitted (0xf1 ∷ []) (behind ts)
    else with_arg ts (λ dst. stack_bytes is_word 0xe9 0xf7 0xf9 dst (behind ts))

-- The last case cannot come, since an argument has type 0 or 2.
unfoldable pub generate_ld : List Text → Option Encoded
generate_ld ts = with_arg ts (λ dest.
    if dest.type == 0
    then if not (dest.value == 0x0f) then none else expecting (0xec ∷ []) 1 (behind ts)
    else if dest.type == 2
    then expecting (0xdf ∷ dest.value ∷ []) 1 (behind ts)
    else emitted [] (behind ts))

unfoldable pub generate_ldd : List Text → Option Encoded
generate_ldd ts =
    if starts_with b'S' (token_of ts)
    then expecting (0xdc ∷ []) 2 (behind ts)
    else if starts_with b'M' (token_of ts)
    then expecting (0xdd ∷ []) 2 (behind ts)
    else if starts_with b'X' (token_of ts)
    then expecting (0xde ∷ []) 2 (behind ts)
    else none

abbrev pub generate_alu : ℕ → List Text → Option Encoded
generate_alu arg ts = emitted (bit_or 0xc0 arg ∷ []) ts

abbrev pub generate_jmp : ℕ → List Text → Option Encoded
generate_jmp arg ts = emitted (bit_or 0xa0 arg ∷ []) ts

unfoldable pub t_alu_bytes : ℕ → MovArg → MovArg → MovArg → List Text → Option Encoded
t_alu_bytes arg rd ra rb rest =
    if not (rd.type == 2) || (not (ra.type == 2) || not (rb.type == 2))
    then none
    else emitted (bit_or 0xb0 arg ∷ ra.value ∷ rb.value ∷ rd.value ∷ []) rest

unfoldable pub generate_t_alu : ℕ → List Text → Option Encoded
generate_t_alu arg ts = with_arg ts (λ rd. with_arg (behind ts) (λ ra.
    with_arg (behind (behind ts)) (λ rb. t_alu_bytes arg rd ra rb (behind (behind (behind ts))))))

-- The instructions of one byte that `gen_instruction` tells by their name.
abbrev pub one_byte : List (Text × ℕ)
one_byte =
    (b'n' ∷ b'o' ∷ b'p' ∷ [], 0x03)
    ∷ (b'X' ∷ b'+' ∷ b'+' ∷ [], 0x07)
    ∷ (b'h' ∷ b'l' ∷ b't' ∷ [], 0x00)
    ∷ (b'e' ∷ b'i' ∷ [], 0x02)
    ∷ (b'd' ∷ b'i' ∷ [], 0x01)
    ∷ (b'i' ∷ b'r' ∷ b'e' ∷ b't' ∷ [], 0x0f)
    ∷ (b'i' ∷ b'r' ∷ b'e' ∷ b't' ∷ b'f' ∷ [], 0x2f)
    ∷ (b'm' ∷ b'o' ∷ b'v' ∷ b'm' ∷ b's' ∷ [], 0xef)
    ∷ (b'm' ∷ b'o' ∷ b'v' ∷ b's' ∷ b'm' ∷ [], 0xee)
    ∷ (b'S' ∷ b'P' ∷ b'+' ∷ b'=' ∷ b'2' ∷ [], 0xf2)
    ∷ (b'S' ∷ b'P' ∷ b'+' ∷ b'=' ∷ b'8' ∷ [], 0xf3)
    ∷ (b'S' ∷ b'P' ∷ b'-' ∷ b'=' ∷ b'2' ∷ [], 0xf4)
    ∷ (b'S' ∷ b'P' ∷ b'-' ∷ b'=' ∷ b'8' ∷ [], 0xf5)
    ∷ (b's' ∷ b'y' ∷ b's' ∷ b'c' ∷ b'a' ∷ b'l' ∷ b'l' ∷ [], 0x1f)
    ∷ []

unfoldable pub code_of : List (Text × ℕ) → Text → Option ℕ
code_of [] token = none
code_of ((name, code) ∷ rest) token = if str_eq name token then some code else code_of rest token

abbrev pub without_first : Text → Text
without_first [] = []
without_first (c ∷ s) = s

-- The keywords, when no instruction has matched.
unfoldable pub gen_keyword : Text → List Text → Option Encoded
gen_keyword token ts =
    if not (find_keyword alu_args token 0 == 0xff)
    then generate_alu (find_keyword alu_args token 0) ts
    else if not (find_keyword jumps token 0 == 0xff)
    then generate_jmp (find_keyword jumps token 0) ts
    else if not (find_keyword alu_args (without_first token) 0 == 0xff)
    then generate_t_alu (find_keyword alu_args (without_first token) 0) ts
    else none

-- The instructions without arguments, then the keywords.
unfoldable pub gen_other : Text → List Text → Option Encoded
gen_other token ts = elim (code_of one_byte token) [
  | some code ↦ emitted (code ∷ []) ts
  | none ↦ gen_keyword token ts
]

unfoldable pub gen_instruction : Text → List Text → Option Encoded
gen_instruction token ts =
    if str_eq token (b'm' ∷ b'o' ∷ b'v' ∷ [])
    then generate_mov ts
    else if str_eq token (b'm' ∷ b'o' ∷ b'v' ∷ b'w' ∷ [])
    then generate_movw ts
    else if str_eq token (b'p' ∷ b'u' ∷ b's' ∷ b'h' ∷ [])
    then generate_push false ts
    else if str_eq token (b'p' ∷ b'o' ∷ b'p' ∷ [])
    then generate_pop false ts
    else if str_eq token (b'p' ∷ b'u' ∷ b's' ∷ b'h' ∷ b'w' ∷ [])
    then generate_push true ts
    else if str_eq token (b'p' ∷ b'o' ∷ b'p' ∷ b'w' ∷ [])
    then generate_pop true ts
    else if str_eq token (b'l' ∷ b'd' ∷ [])
    then generate_ld ts
    else if str_eq token (b'l' ∷ b'd' ∷ b'd' ∷ [])
    then generate_ldd ts
    else if str_eq token (b'c' ∷ b'm' ∷ b'p' ∷ [])
    then none
    else gen_other token ts
