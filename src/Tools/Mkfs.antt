-- ===== src/Tools/Mkfs.antt =====
-- tools/mkfs.c: the image of a file system from the files of a directory, which is the list of names and
-- contents that `readdir` and `read` give. The machine that runs it stores words low byte first.
pub mod Entries
pub mod Lookup
pub mod Loading
pub mod Missing
pub mod Boot
pub mod Exec
use cpu.Prelude.{
  ℕ, zero, suc, ◌+◌, ◌-◌, ◌*◌, ◌/◌, ◌%◌, ◌^◌, ◌≤◌, ◌<◌, bit_and, bit_or, bit_xor, for_up, ◌≡◌, refl,
  sym, ap, ap₂, ◌∙◌, subst, fun_ext, ◌≢◌, ◌↔◌, ◌⊎◌, inl, inr, Bool, true, false, not, ◌&&◌, ◌||◌,
  Option, none, some, List, [], ◌∷◌, ◌++◌, map, arith, ltb, leb, ◌==◌, ==_iff, ==_refl, ==_ne,
  if◌then◌else◌, Bool-cases, Option-cases, length, get_elem?, length-append, get_elem-append_right,
  get_elem-append_left, u8, u16, u32, ◌<<<◌, ◌>>>◌, passes_below, passes_below-entry, update,
}
use cpu.Binutils.Text.{Text}

pub record File : Type 0 where
  pub name : Text
  pub content : List ℕ

-- The globals `fs`, `c_offset` and `c_file`.
pub record Image : Type 0 where
  pub fs : ℕ → ℕ
  pub c_offset : ℕ
  pub c_file : ℕ

abbrev pub or_zero : Option ℕ → ℕ
or_zero none = 0
or_zero (some c) = c

-- Behind a text there are zeros.
abbrev pub char_at : Text → ℕ → ℕ
char_at s i = or_zero (get_elem? s i)

-- The bytes of `new_ent`: `strncpy` of 11 characters, one byte that is never written, the block and the
-- size, of 16 bits each.
unfoldable pub entry_byte : Text → ℕ → ℕ → ℕ → ℕ → ℕ
entry_byte name stale offset size i =
    if ltb i 11
    then char_at name i
    else if i == 11
    then stale
    else if i == 12
    then u8 (offset >>> 8)
    else if i == 13
    then u8 (offset >>> 16)
    else if i == 14
    then u8 size
    else u8 (size >>> 8)

-- `memcpy` and `read` into `fs`: `n` bytes from `dest` on.
unfoldable pub put : (ℕ → ℕ) → ℕ → ℕ → (ℕ → ℕ) → ℕ → ℕ
put fs dest n from j = if leb dest j && ltb j (dest + n) then from (j - dest) else fs j

-- `c_offset` after a file.
abbrev pub next_offset : ℕ → ℕ → ℕ
next_offset c_offset size = c_offset + size + (256 - (c_offset + size) % 256) % 256

-- A round of the loop of `append_directory`, on a regular file; `stale` is what the stack holds.
unfoldable pub append_file : (ℕ → ℕ) → File → Image → Image
append_file stale f img =
    let size = length f.content in
    record {
      fs =
          put
            (put img.fs (img.c_file * 16) 16
              (entry_byte f.name (stale img.c_file) img.c_offset size))
            img.c_offset size (char_at f.content);
      c_offset = next_offset img.c_offset size;
      c_file = img.c_file + 1;
    }

unfoldable pub append_directory : (ℕ → ℕ) → List File → Image → Image
append_directory stale [] img = img
append_directory stale (f ∷ files) img = append_directory stale files (append_file stale f img)

-- The globals after the `memset` of `main`.
abbrev pub empty_image : Image
empty_image = record { fs = λ i. 0; c_offset = 512; c_file = 0 }
