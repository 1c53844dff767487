-- ===== src/Kernel/Klib.antt =====
-- software/kernel/klib.c: strings, memory, hexadecimal output and the input line. A C string is the
-- list of the bytes before its 0; `int` has 16 bits and is kept in two's complement.
pub mod Strings
pub mod Input
use cpu.Prelude.{
  ℕ, zero, suc, ◌+◌, ◌-◌, Bool, true, false, not, ◌&&◌, ◌||◌, Option, none, some, List, [], ◌∷◌,
  ◌++◌, ltb, ◌==◌, if◌then◌else◌, bit_and, u8, u16, ◌>>>◌, update,
}

abbrev pub CString : Type 0
CString = List ℕ

-- `d`, once the loop breaks: at the first byte that differs, or at the end of both.
unfoldable pub strcmp : CString → CString → ℕ
strcmp [] [] = 0
strcmp [] (b ∷ t) = u16 (65536 - b)
strcmp (a ∷ s) [] = a
strcmp (a ∷ s) (b ∷ t) = if a == b then strcmp s t else u16 (65536 + a - b)

-- The bytes from `dest` on, from the first to the last.
unfoldable pub memset : ℕ → ℕ → ℕ → (ℕ → ℕ) → ℕ → ℕ
memset dest val zero mem = mem
memset dest val (suc k) mem = memset (u16 (dest + 1)) val k (update mem dest val)

-- A byte as a `signed char`, kept in 16 bits.
abbrev pub sign_extend : ℕ → ℕ
sign_extend b = if ltb b 128 then b else b + 65280

-- `*p1 - *p2`
abbrev pub byte_difference : ℕ → ℕ → ℕ
byte_difference a b = u16 (65536 + sign_extend a - sign_extend b)

-- `--len && *p1 == *p2` moves on; the argument is `len` after the subtraction.
unfoldable pub memcmp_loop : (ℕ → ℕ) → ℕ → ℕ → ℕ → ℕ
memcmp_loop mem p1 p2 zero = byte_difference (mem p1) (mem p2)
memcmp_loop mem p1 p2 (suc len) =
    let on = memcmp_loop mem (u16 (p1 + 1)) (u16 (p2 + 1)) len in
    if mem p1 == mem p2 then on else byte_difference (mem p1) (mem p2)

unfoldable pub memcmp : (ℕ → ℕ) → ℕ → ℕ → ℕ → ℕ
memcmp mem p1 p2 zero = 0
memcmp mem p1 p2 (suc len) = memcmp_loop mem p1 p2 len

-- A digit of `printhex`, on a nibble.
abbrev pub hex_digit : ℕ → ℕ
hex_digit n = if ltb 9 n then u8 (n + b'a' - 10) else u8 (n + b'0')

-- The bytes that `printhex` puts out, from the last digit of its buffer to the first.
unfoldable pub printhex : ℕ → CString
printhex i =
    let i' = i >>> 8 in
    b'0'
    ∷ b'x'
    ∷ hex_digit (bit_and i' 0xf0 >>> 4)
    ∷ hex_digit (bit_and i' 0x0f)
    ∷ hex_digit (bit_and i 0xf0 >>> 4)
    ∷ hex_digit (bit_and i 0x0f)
    ∷ []

abbrev pub max_length : ℕ
max_length = 127

-- What `getline` leaves: the line in `in_str`, the bytes echoed by `putc`, and the bytes that `getc`
-- has still to give.
pub record Line : Type 0 where
  pub text : CString
  pub echo : List ℕ
  pub rest : List ℕ

abbrev pub ends_line : ℕ → Bool
ends_line c = (c == b'\n') || (c == b'\r')

-- The loop, on what `getc` gives: 0 where the buffer is empty. `count` is the length of `text`; `none`
-- is the wait for bytes that do not come.
unfoldable pub getline_loop : List ℕ → ℕ → CString → List ℕ → Option Line
getline_loop [] count text echo = none
getline_loop (c ∷ cs) count text echo =
    let stores = ltb count (max_length - 1) in
    let on =
      getline_loop cs (if not (c == 0) && stores then count + 1 else count)
        (if not (c == 0) && stores then text ++ (c ∷ []) else text)
        (if c == 0 then echo else echo ++ (c ∷ [])) in
    if ends_line c then some (record { text = text; echo = echo ++ (c ∷ []); rest = cs }) else on

unfoldable pub getline : List ℕ → Option Line
getline cs = getline_loop cs 0 [] []

-- The rest of the string from the first `c` on; the 0 at the end is a place of it, too.
unfoldable pub strchr : CString → ℕ → Option CString
strchr [] c = if c == 0 then some [] else none
strchr (a ∷ s) c = if a == c then some (a ∷ s) else strchr s c
