-- ===== src/Binutils/Section.antt =====
-- binutils/sections.c: a section as a stream of bytes. The label vector and the label mask are the
-- bytes that the program casts to label entries and to words.
pub mod Bytes
pub mod RoundTrip
use cpu.Prelude.{
  ℕ, zero, suc, ◌+◌, ◌*◌, ◌/◌, ◌%◌, ◌^◌, bit_and, bit_or, Option, none, some, List, [], ◌∷◌, ◌++◌,
  u8, ◌<<<◌, ◌>>>◌,
}

abbrev pub section_name_size : ℕ
section_name_size = 32

pub record Section : Type 0 where
  pub name : List ℕ
  pub executable : ℕ
  pub data_pos : ℕ
  pub label_vec_pos : ℕ
  pub label_mask_pos : ℕ
  pub content : ℕ → ℕ
  pub label_vec : ℕ → ℕ
  pub label_mask : ℕ → ℕ

-- The macros of util.h.
unfoldable pub low : ℕ → ℕ
low x = u8 (bit_and x 0xff)

unfoldable pub high : ℕ → ℕ
high x = u8 (bit_and x 0xff00 >>> 8)

-- The `n` bytes of an array from `i` on, as `fwrite` puts them out.
unfoldable pub bytes : (ℕ → ℕ) → ℕ → ℕ → List ℕ
bytes array i zero = []
bytes array i (suc n) = array i ∷ bytes array (i + 1) n

unfoldable pub sizes : Section → List ℕ
sizes s =
    low s.data_pos
    ∷ high s.data_pos
    ∷ low s.label_vec_pos
    ∷ high s.label_vec_pos
    ∷ low s.label_mask_pos
    ∷ high s.label_mask_pos
    ∷ []

pub serialize_section : Section → List ℕ
serialize_section s =
    s.name
    ++ (s.executable ∷ [])
    ++ sizes s
    ++ bytes s.content 0 s.data_pos
    ++ bytes s.label_vec 0 s.label_vec_pos
    ++ bytes s.label_mask 0 s.label_mask_pos

-- `fread` of `n` bytes; `none` is the end of the file, after which the program goes on with whatever
-- its variables hold.
unfoldable pub read : ℕ → List ℕ → Option (List ℕ × List ℕ)
read zero xs = some ([], xs)
read (suc n) [] = none
read (suc n) (x ∷ xs) = elim (read n xs) [ none ↦ none | some (ys, rest) ↦ some (x ∷ ys, rest) ]

-- An array that holds the bytes read. What lies behind them is not set, and is 0 here.
unfoldable pub array_of : List ℕ → ℕ → ℕ
array_of [] i = 0
array_of (x ∷ xs) zero = x
array_of (x ∷ xs) (suc i) = array_of xs i

infixl 5 ◌>>=◌
abbrev pub ◌>>=◌ {ℓ κ} : {A : Type ℓ} {B : Type κ} → Option A → (A → Option B) → Option B
none >>= f = none
some a >>= f = f a

-- `(h << 8) | l` of the next two bytes, the low one first.
unfoldable pub read_size : List ℕ → Option (ℕ × List ℕ)
read_size (l ∷ h ∷ rest) = some (bit_or (h <<< 8) l, rest)
read_size _ = none

read_byte : List ℕ → Option (ℕ × List ℕ)
read_byte [] = none
read_byte (x ∷ rest) = some (x, rest)

-- The sizes and the contents, after the name and the flag.
read_body : List ℕ → ℕ → List ℕ → Option (Section × List ℕ)
read_body name executable xs = do
  (data_pos, xs) ← read_size xs
  (label_vec_pos, xs) ← read_size xs
  (label_mask_pos, xs) ← read_size xs
  (content, xs) ← read data_pos xs
  (label_vec, xs) ← read label_vec_pos xs
  (label_mask, xs) ← read label_mask_pos xs
  some (
    record {
      name = name;
      executable = executable;
      data_pos = data_pos;
      label_vec_pos = label_vec_pos;
      label_mask_pos = label_mask_pos;
      content = array_of content;
      label_vec = array_of label_vec;
      label_mask = array_of label_mask;
    },
    xs,
  )

pub deserialize_section : List ℕ → Option (Section × List ℕ)
unfolding read_byte read_body
deserialize_section xs = do
  (name, xs) ← read section_name_size xs
  (executable, xs) ← read_byte xs
  read_body name executable xs
