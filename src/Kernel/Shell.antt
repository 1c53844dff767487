-- ===== src/Kernel/Shell.antt =====
-- software/kernel/kernel_main.c: multiplication, the arguments of a command line and the choice of a
-- command. A string is the list of the bytes before its 0.
pub mod Multiply
pub mod Arguments
use cpu.Prelude.{
  ℕ, zero, suc, ◌+◌, ◌-◌, ◌*◌, ◌/◌, ◌%◌, ◌^◌, ◌≤◌, ◌<◌, bit_and, bit_or, bit_xor, for_up, ◌≡◌, refl,
  sym, ap, ap₂, ◌∙◌, subst, fun_ext, ◌≢◌, ◌↔◌, ◌⊎◌, inl, inr, Bool, true, false, not, ◌&&◌, ◌||◌,
  Option, none, some, List, [], ◌∷◌, ◌++◌, map, arith, ltb, leb, ◌==◌, ==_iff, ==_refl, ==_ne,
  if◌then◌else◌, Bool-cases, Option-cases, length, get_elem?, length-append, get_elem-append_right,
  get_elem-append_left, u8, u16, u32, ◌<<<◌, ◌>>>◌, passes_below, passes_below-entry, update,
}
use cpu.Kernel.Klib.{CString, strcmp, strchr}

-- The variables of `fxnMul`; `b` is its argument, which the loop shifts.
pub record Product : Type 0 where
  pub res : ℕ
  pub b : ℕ
  pub mask : ℕ

abbrev pub mul_round : ℕ → ℕ → Product → Product
mul_round a i p = record {
  res = if bit_and p.mask a == 0 then p.res else u16 (p.res + p.b);
  b = u16 (p.b <<< 1);
  mask = u16 (p.mask <<< 1);
}

unfoldable pub fxn_mul : ℕ → ℕ → ℕ
fxn_mul a b = (for_up 16 (mul_round a) (record { res = 0; b = b; mask = 1 })).res

abbrev pub max_args : ℕ
max_args = 10

abbrev pub without_first : CString → CString
without_first [] = []
without_first (c ∷ s) = s

-- `(*s != ' ') && *s`, on the string behind a space.
abbrev pub starts_argument : CString → Bool
starts_argument [] = false
starts_argument (c ∷ s) = not (c == b' ')

-- A round of `build_argv`, on what `strchr` has found.
abbrev pub places_from : (CString → List CString) → Option CString → List CString
places_from loop none = []
places_from loop (some t) =
    let rest = loop (without_first t) in
    if starts_argument (without_first t) then without_first t ∷ rest else rest

-- The loop: the places behind the spaces of `s` where an argument starts. A round drops at least one
-- character, so that the length is fuel enough.
unfoldable pub argument_places : ℕ → CString → List CString
argument_places zero s = []
argument_places (suc fuel) s = places_from (argument_places fuel) (strchr s b' ')

-- Every space has become a 0: a string ends at what was its first space.
unfoldable pub cut_at_space : CString → CString
cut_at_space [] = []
cut_at_space (c ∷ s) = if c == b' ' then [] else c ∷ cut_at_space s

-- `_argv` up to `*argc`; `none` is a write behind the array of 10 pointers.
unfoldable pub build_argv : CString → Option (List CString)
build_argv str =
    let argv = map cut_at_space (str ∷ argument_places (length str) str) in
    if leb (length argv) max_args then some argv else none

abbrev pub cmds : List CString
cmds =
    (b'p' ∷ b's' ∷ [])
    ∷ (b'l' ∷ b's' ∷ [])
    ∷ (b'e' ∷ b'x' ∷ b'e' ∷ b'c' ∷ [])
    ∷ (b'u' ∷ b'p' ∷ b't' ∷ b'i' ∷ b'm' ∷ b'e' ∷ [])
    ∷ []

-- The loop from the command `i` on; `none` is -1.
unfoldable pub cmd_from : List CString → ℕ → CString → Option ℕ
cmd_from [] i s = none
cmd_from (cmd ∷ rest) i s = if strcmp cmd s == 0 then some i else cmd_from rest (i + 1) s

unfoldable pub get_cmd_idx : CString → Option ℕ
get_cmd_idx s = cmd_from cmds 0 s
