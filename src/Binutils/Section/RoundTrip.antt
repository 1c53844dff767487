-- ===== src/Binutils/Section/RoundTrip.antt =====
-- binutils/sections.c: `deserialize_section` after `serialize_section`.
use cpu.Prelude.{
  ℕ, ◌+◌, ◌*◌, ◌/◌, ◌%◌, ◌<◌, ◌≡◌, refl, sym, ap, ◌∙◌, subst, arith, true, some, List, [], ◌∷◌,
  ◌++◌, length, bit_or, ◌<<<◌, ◌==◌, ==_iff, passes_below, passes_below-entry,
}
use cpu.Binutils.Section.{
  Section, section_name_size, low, high, bytes, sizes, serialize_section, read, array_of, read_size,
  read_byte, read_body, deserialize_section,
}
use cpu.Binutils.Section.Bytes.{read-append, read-bytes, array_of-bytes_zero}

size_table :
    passes_below 256 (λ h.
      passes_below 256 (λ l. bit_or (high (h * 256 + l) <<< 8) (low (h * 256 + l)) == h * 256 + l))
    ≡ true
unfolding passes_below low high
size_table = refl

-- The two bytes of a position below 2 ^ 16 are the position again.
high-low : (x : ℕ) → x < 65536 → bit_or (high x <<< 8) (low x) ≡ x
high-low x below =
    subst (λ n. bit_or (high n <<< 8) (low n) ≡ n) {x = x / 256 * 256 + x % 256} {y = x}
      (omega arith)
      ((==_iff _ _).0 (
        passes_below-entry 256 _ (x % 256)
          (passes_below-entry 256 _ (x / 256) size_table (omega arith)) (omega arith)))

read_size-low :
    (x : ℕ) (rest : List ℕ) → x < 65536 → read_size (low x ∷ high x ∷ rest) ≡ some (x, rest)
unfolding read_size
read_size-low x rest below = ap (λ n. some (n, rest)) (high-low x below)

read-name :
    (name rest : List ℕ)
    → length name ≡ section_name_size
    → read section_name_size (name ++ rest) ≡ some (name, rest)
read-name name rest len = ap (λ n. read n (name ++ rest)) (sym len) ∙ read-append name rest

-- The arrays are read back up to their positions; what lies behind is not written.
abbrev stored : Section → Section
stored s = record s {
  content = array_of (bytes s.content 0 s.data_pos);
  label_vec = array_of (bytes s.label_vec 0 s.label_vec_pos);
  label_mask = array_of (bytes s.label_mask 0 s.label_mask_pos);
}

append_assoc : (xs ys zs : List ℕ) → (xs ++ ys) ++ zs ≡ xs ++ (ys ++ zs)
append_assoc [] ys zs = refl
append_assoc (x ∷ xs) ys zs = ap (λ r. x ∷ r) (append_assoc xs ys zs)

read_body-stored :
    (s : Section) (rest : List ℕ)
    → s.data_pos < 65536
    → s.label_vec_pos < 65536
    → s.label_mask_pos < 65536
    → read_body s.name s.executable (
        sizes s
        ++ (bytes s.content 0 s.data_pos
            ++ (bytes s.label_vec 0 s.label_vec_pos
                ++ (bytes s.label_mask 0 s.label_mask_pos ++ rest))))
      ≡ some (stored s, rest)
unfolding read_body sizes
read_body-stored s rest hd hv hm = rw (
  read_size-low s.data_pos _ hd,
  read_size-low s.label_vec_pos _ hv,
  read_size-low s.label_mask_pos _ hm,
  read-bytes,
  read-bytes,
  read-bytes,
)

-- What `s'` shares with `s`: all but the bytes behind the positions.
abbrev pub Agrees : Section → Section → Type 0
Agrees s s' =
    (s'.name ≡ s.name)
    × (s'.executable ≡ s.executable)
    × (s'.data_pos ≡ s.data_pos)
    × (s'.label_vec_pos ≡ s.label_vec_pos)
    × (s'.label_mask_pos ≡ s.label_mask_pos)
    × ((i : ℕ) → i < s.data_pos → s'.content i ≡ s.content i)
    × ((i : ℕ) → i < s.label_vec_pos → s'.label_vec i ≡ s.label_vec i)
    × ((i : ℕ) → i < s.label_mask_pos → s'.label_mask i ≡ s.label_mask i)

-- Reading back a section whose name fills its 32 bytes and whose three positions are below 2 ^ 16
-- succeeds, consumes exactly the bytes that were written, and gives the name, the flag, the
-- positions, and every byte of the three arrays below its position.
pub deserialize-serialize_section :
    (s : Section) (rest : List ℕ)
    → length s.name ≡ section_name_size
    → s.data_pos < 65536
    → s.label_vec_pos < 65536
    → s.label_mask_pos < 65536
    → (s' : Section) × (deserialize_section (serialize_section s ++ rest) ≡ some (s', rest))
      × Agrees s s'
unfolding deserialize_section serialize_section read_byte
deserialize-serialize_section s rest len hd hv hm = (
  stored s,
  rw (
    append_assoc,
    append_assoc,
    append_assoc,
    append_assoc,
    append_assoc,
    read-name s.name _ len,
    read_body-stored s rest hd hv hm,
  ),
  (
    refl,
    refl,
    refl,
    refl,
    refl,
    array_of-bytes_zero s.content s.data_pos,
    array_of-bytes_zero s.label_vec s.label_vec_pos,
    array_of-bytes_zero s.label_mask s.label_mask_pos,
  ),
)
