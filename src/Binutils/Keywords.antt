-- ===== src/Binutils/Keywords.antt =====
-- binutils/keywords.h, `find_keyword` of util.c, and the arguments of instructions in asm.c. `none` is
-- `panic`.
use cpu.Prelude.{
  ℕ, ◌+◌, ◌-◌, ◌*◌, Bool, false, ◌&&◌, ◌||◌, Option, none, some, List, [], ◌∷◌, ltb, leb, ◌==◌,
  if◌then◌else◌, u8, u16, u32,
}
use cpu.Binutils.Text.{Text, str_eq, is_digit}

abbrev pub regs : List Text
regs =
    (b'B' ∷ [])
    ∷ (b'S' ∷ b'L' ∷ [])
    ∷ (b'S' ∷ b'H' ∷ [])
    ∷ (b'M' ∷ b'L' ∷ [])
    ∷ (b'M' ∷ b'H' ∷ [])
    ∷ (b'-' ∷ b'-' ∷ b'-' ∷ [])
    ∷ (b'X' ∷ b'L' ∷ [])
    ∷ (b'X' ∷ b'H' ∷ [])
    ∷ (b'-' ∷ b'-' ∷ b'-' ∷ [])
    ∷ (b'[' ∷ b'S' ∷ b']' ∷ [])
    ∷ (b'F' ∷ [])
    ∷ (b'[' ∷ b'X' ∷ b']' ∷ [])
    ∷ (b'-' ∷ b'-' ∷ b'-' ∷ [])
    ∷ (b'-' ∷ b'-' ∷ b'-' ∷ [])
    ∷ (b'-' ∷ b'-' ∷ b'-' ∷ [])
    ∷ (b'A' ∷ [])
    ∷ []

abbrev pub alu_args : List Text
alu_args =
    (b'a' ∷ b'd' ∷ b'd' ∷ [])
    ∷ (b'a' ∷ b'd' ∷ b'c' ∷ [])
    ∷ (b's' ∷ b'u' ∷ b'b' ∷ [])
    ∷ (b's' ∷ b'b' ∷ b'c' ∷ [])
    ∷ (b'o' ∷ b'r' ∷ [])
    ∷ (b'o' ∷ b'r' ∷ b'c' ∷ [])
    ∷ (b'x' ∷ b'o' ∷ b'r' ∷ [])
    ∷ (b'x' ∷ b'o' ∷ b'r' ∷ b'c' ∷ [])
    ∷ (b'a' ∷ b'n' ∷ b'd' ∷ [])
    ∷ (b'a' ∷ b'n' ∷ b'd' ∷ b'c' ∷ [])
    ∷ (b'n' ∷ b'e' ∷ b'g' ∷ [])
    ∷ (b'n' ∷ b'o' ∷ b't' ∷ [])
    ∷ (b's' ∷ b'h' ∷ b'l' ∷ [])
    ∷ (b's' ∷ b'h' ∷ b'l' ∷ b'c' ∷ [])
    ∷ (b's' ∷ b'h' ∷ b'r' ∷ [])
    ∷ (b's' ∷ b'h' ∷ b'r' ∷ b'c' ∷ [])
    ∷ []

abbrev pub jumps : List Text
jumps =
    (b'j' ∷ b'n' ∷ b'z' ∷ [])
    ∷ (b'j' ∷ b'n' ∷ b'c' ∷ [])
    ∷ (b'j' ∷ b'g' ∷ [])
    ∷ (b'j' ∷ b'a' ∷ [])
    ∷ (b'j' ∷ b'g' ∷ b'e' ∷ [])
    ∷ (b'-' ∷ b'-' ∷ b'-' ∷ [])
    ∷ (b'-' ∷ b'-' ∷ b'-' ∷ [])
    ∷ (b'-' ∷ b'-' ∷ b'-' ∷ [])
    ∷ (b'j' ∷ b'z' ∷ [])
    ∷ (b'j' ∷ b'c' ∷ [])
    ∷ (b'j' ∷ b'l' ∷ b'e' ∷ [])
    ∷ (b'j' ∷ b'b' ∷ b'e' ∷ [])
    ∷ (b'j' ∷ b'l' ∷ [])
    ∷ (b'-' ∷ b'-' ∷ b'-' ∷ [])
    ∷ (b'-' ∷ b'-' ∷ b'-' ∷ [])
    ∷ (b'j' ∷ b'm' ∷ b'p' ∷ [])
    ∷ []

-- `find_keyword`: the number of the first keyword that is the text, or 0xff.
unfoldable pub find_keyword : List Text → Text → ℕ → ℕ
find_keyword [] str i = 0xff
find_keyword (kw ∷ kws) str i = if str_eq kw str then i else find_keyword kws str (i + 1)

-- `s[0] == c`.
abbrev pub starts_with : ℕ → Text → Bool
starts_with c [] = false
starts_with c (a ∷ s) = a == c

-- The value of a digit, 255 for what is no digit.
abbrev digit_value : ℕ → ℕ
digit_value c =
    if is_digit c
    then c - b'0'
    else if leb b'a' c && leb c b'z'
    then c - b'a' + 10
    else if leb b'A' c && leb c b'Z'
    then c - b'A' + 10
    else 255

unfoldable pub digits_in : ℕ → ℕ → Text → ℕ
digits_in base acc [] = acc
digits_in base acc (c ∷ s) =
    let rest = digits_in base (acc * base + digit_value c) s in
    if ltb (digit_value c) base then rest else acc

unfoldable pub unsigned : Text → ℕ
unsigned [] = 0
unsigned (c ∷ []) = digits_in 10 0 (c ∷ [])
unsigned (c ∷ x ∷ s) =
    if c == b'0'
    then if (x == b'x') || (x == b'X') then digits_in 16 0 s else digits_in 8 0 (x ∷ s)
    else digits_in 10 0 (c ∷ x ∷ s)

-- `strtol(s, 0, 0)`, as it is kept in 16 bits.
unfoldable pub strtol : Text → ℕ
strtol [] = 0
strtol (c ∷ s) =
    if c == b'-'
    then u16 (65536 - u16 (unsigned s))
    else if c == b'+'
    then u16 (unsigned s)
    else u16 (unsigned (c ∷ s))

abbrev pub a_offset : ℕ
a_offset = 5

-- `r_offset` and `l_offset` are -15.
abbrev pub r_offset : ℕ
r_offset = 65536 - 15

unfoldable pub parse_relative_arg : Text → Option ℕ
parse_relative_arg [] = none
parse_relative_arg (c ∷ s) =
    if c == b'a'
    then some (u8 (a_offset + strtol s))
    else if (c == b'r') || (c == b'l')
    then some (u8 (r_offset + strtol s))
    else if (c == b'[') && starts_with b'M' s
    then some (u8 (strtol s))
    else none

-- `type` 0 is a register, 2 a place relative to M.
pub record MovArg : Type 0 where
  pub value : ℕ
  pub type : ℕ

abbrev pub relative : Option ℕ → Option MovArg
relative none = none
relative (some value) = some (record { value = value; type = 2 })

unfoldable pub parse_mov_arg : Text → Option MovArg
parse_mov_arg token =
    if find_keyword regs token 0 == 0xff
    then relative (parse_relative_arg token)
    else some (record { value = find_keyword regs token 0; type = 0 })

-- `strtol(s, 0, 0)`, as it is kept in an `int` of 32 bits, in two's complement.
unfoldable pub strtol_int : Text → ℕ
strtol_int [] = 0
strtol_int (c ∷ s) =
    if c == b'-'
    then u32 (4294967296 - u32 (unsigned s))
    else if c == b'+'
    then u32 (unsigned s)
    else u32 (unsigned (c ∷ s))
