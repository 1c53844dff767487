-- ===== src/Tools/Mkfs/Entries.antt =====
-- tools/mkfs.c: where the entries and the contents of the files are in the image.
use cpu.Prelude.{
  ℕ, zero, suc, ◌+◌, ◌-◌, ◌*◌, ◌/◌, ◌≤◌, ◌<◌, ◌≡◌, refl, ap, ◌∙◌, ◌⊎◌, inl, inr, Bool, true, false,
  ◌&&◌, some, List, [], ◌∷◌, arith, ltb, leb, if◌then◌else◌, length, get_elem?,
}
use cpu.Binutils.Text.{Text}
use cpu.Tools.Mkfs.{
  File, Image, or_zero, char_at, entry_byte, put, next_offset, append_file, append_directory,
}

-- The string at a place of memory, with its 0.
unfoldable pub NameAt : (ℕ → ℕ) → ℕ → Text → Type 0
NameAt content p [] = content p ≡ 0
NameAt content p (c ∷ s) = (content p ≡ c) × NameAt content (p + 1) s

-- The entry `k` names the file, with its block and size.
pub record Entry (fs : ℕ → ℕ) (k : ℕ) (f : File) (offset : ℕ) : Type 0 where
  pub name : NameAt fs (k * 16) f.name
  pub blk : fs (k * 16 + 12) + 256 * fs (k * 16 + 13) ≡ offset / 256
  pub size : fs (k * 16 + 14) + 256 * fs (k * 16 + 15) ≡ length f.content

-- The content stands from the offset on.
abbrev pub Content : (ℕ → ℕ) → ℕ → List ℕ → Type 0
Content fs offset content = (j c : ℕ) → get_elem? content j ≡ some c → fs (offset + j) ≡ c

-- The files stand one behind the other, with the entries from `k` on.
unfoldable pub Stored : (ℕ → ℕ) → ℕ → ℕ → List File → Type 0
Stored fs k offset [] = Unit
Stored fs k offset (f ∷ files) =
    (Entry fs k f offset)
    × (Content fs offset f.content)
    × Stored fs (k + 1) (next_offset offset (length f.content)) files

-- Files that the image has room for: names of at most 10 characters, sizes of 16 bits, the directory
-- in its 512 bytes, offsets within 2 ^ 20 bytes.
unfoldable pub fitting : ℕ → ℕ → List File → Bool
fitting k offset [] = leb k 32 && leb offset 1048576
fitting k offset (f ∷ files) =
    if leb (length f.name) 10 && ltb (length f.content) 65536
    then fitting (k + 1) (next_offset offset (length f.content)) files
    else false

-- What later files leave alone: the entries before `k` and the bytes from 512 to the offset.
abbrev Keeps : (ℕ → ℕ) → (ℕ → ℕ) → ℕ → ℕ → Type 0
Keeps fs fs' k offset = (j : ℕ) → (j < k * 16) ⊎ ((512 ≤ j) × (j < offset)) → fs' j ≡ fs j

pub fitting-bounds :
    (k offset : ℕ) (files : List File)
    → fitting k offset files ≡ true
    → (k + length files ≤ 32) × (offset ≤ 1048576)
unfolding fitting
fitting-bounds k offset [] h = ground arith
fitting-bounds k offset (f ∷ files) h =
    let on = fitting-bounds (k + 1) (next_offset offset (length f.content)) files (ground arith) in
    (omega (arith, on.0), omega (arith, on.1))

Keeps-append_file :
    (stale : ℕ → ℕ) (f : File) (img : Image)
    → 512 ≤ img.c_offset
    → img.c_file < 32
    → Keeps img.fs (append_file stale f img).fs img.c_file img.c_offset
unfolding append_file put
Keeps-append_file stale f img low room j (inl entry) = ground arith
Keeps-append_file stale f img low room j (inr (above, before)) = ground arith

wider :
    (k offset offset' j : ℕ)
    → offset ≤ offset'
    → (j < k * 16) ⊎ ((512 ≤ j) × (j < offset))
    → (j < (k + 1) * 16) ⊎ ((512 ≤ j) × (j < offset'))
wider k offset offset' j grown (inl entry) = inl (omega arith)
wider k offset offset' j grown (inr (above, before)) = inr (above, omega arith)

pub get_elem-below : (xs : List ℕ) (j c : ℕ) → get_elem? xs j ≡ some c → j < length xs
get_elem-below [] j c h = absurd cc
get_elem-below (x ∷ xs) zero c h = omega arith
get_elem-below (x ∷ xs) (suc j) c h = omega (arith, get_elem-below xs j c h)

Keeps-append_directory :
    (stale : ℕ → ℕ) (files : List File) (img : Image)
    → 512 ≤ img.c_offset
    → fitting img.c_file img.c_offset files ≡ true
    → Keeps img.fs (append_directory stale files img).fs img.c_file img.c_offset
unfolding append_directory
Keeps-append_directory stale [] img low fit j place = refl
Keeps-append_directory stale (f ∷ files) img low fit j place =
    let bounds = fitting-bounds img.c_file img.c_offset (f ∷ files) fit in
    let grown : img.c_offset ≤ next_offset img.c_offset (length f.content) = omega arith in
    let img' = append_file stale f img in
    let later =
      Keeps-append_directory stale files img' (unfold append_file in omega (arith, grown))
        (unfold append_file fitting in ground (arith, fit)) j in
    later (unfold append_file in wider img.c_file img.c_offset _ j grown place)
    ∙ Keeps-append_file stale f img low (omega (arith, bounds.0)) j place

NameAt-read :
    (content : ℕ → ℕ) (p n : ℕ) (s : Text)
    → length s < n
    → ((i : ℕ) → i < n → content (p + i) ≡ char_at s i)
    → NameAt content p s
unfolding NameAt
NameAt-read content p n [] less h = ap content {x = p} {y = p + 0} (omega arith) ∙ h 0 less
NameAt-read content p zero (c ∷ s) less h = absurd (omega arith)
NameAt-read content p (suc n) (c ∷ s) less h = (
  ap content {x = p} {y = p + 0} (omega arith) ∙ h 0 (omega arith),
  NameAt-read content (p + 1) n s (omega arith) (λ i below.
      ap content {x = p + 1 + i} {y = p + suc i} (omega arith) ∙ h (suc i) (omega arith)),
)

entry-append_file :
    (stale : ℕ → ℕ) (f : File) (img : Image) (i : ℕ)
    → i < 16
    → 512 ≤ img.c_offset
    → img.c_file < 32
    → (append_file stale f img).fs (img.c_file * 16 + i)
      ≡ entry_byte f.name (stale img.c_file) img.c_offset (length f.content) i
unfolding append_file put
entry-append_file stale f img i below low room =
    let at : img.c_file * 16 + i - img.c_file * 16 ≡ i = omega arith in ground (arith, at)

Content-append_file :
    (stale : ℕ → ℕ) (f : File) (img : Image)
    → Content (append_file stale f img).fs img.c_offset f.content
unfolding append_file put
Content-append_file stale f img j c found =
    let inside = get_elem-below f.content j c found in
    let at : img.c_offset + j - img.c_offset ≡ j = omega arith in
    let same : char_at f.content j ≡ c = ap or_zero found in ground (arith, at)

byte_of_name :
    (name : Text) (stale offset size i : ℕ)
    → i < 11
    → entry_byte name stale offset size i ≡ char_at name i
unfolding entry_byte
byte_of_name name stale offset size i below = ground arith

entry_words :
    (name : Text) (stale offset size : ℕ)
    → offset ≤ 1048576
    → size < 65536
    → (entry_byte name stale offset size 12 + 256 * entry_byte name stale offset size 13
        ≡ offset / 256)
      × (entry_byte name stale offset size 14 + 256 * entry_byte name stale offset size 15 ≡ size)
unfolding entry_byte
entry_words name stale offset size high small = (omega arith, omega arith)

Entry-append_file :
    (stale : ℕ → ℕ) (f : File) (img : Image)
    → length f.name ≤ 10
    → length f.content < 65536
    → 512 ≤ img.c_offset
    → img.c_offset ≤ 1048576
    → img.c_file < 32
    → Entry (append_file stale f img).fs img.c_file f img.c_offset
Entry-append_file stale f img short small low high room =
    let fs' = (append_file stale f img).fs in
    let off = img.c_offset in
    let size = length f.content in
    let at : (i : ℕ)
        → i < 16
        → fs' (img.c_file * 16 + i) ≡ entry_byte f.name (stale img.c_file) off size i =
      λ i below. entry-append_file stale f img i below low room in
    let words = entry_words f.name (stale img.c_file) off size high small in
    record {
      name =
          NameAt-read fs' (img.c_file * 16) 11 f.name (omega arith) (λ i below.
            at i (omega arith) ∙ byte_of_name f.name (stale img.c_file) off size i below);
      blk = omega (arith, at 12 (omega arith), at 13 (omega arith), words.0);
      size = omega (arith, at 14 (omega arith), at 15 (omega arith), words.1);
    }

NameAt-kept :
    (fs fs' : ℕ → ℕ) (p : ℕ) (s : Text)
    → ((j : ℕ) → j ≤ p + length s → fs' j ≡ fs j)
    → NameAt fs p s
    → NameAt fs' p s
unfolding NameAt
NameAt-kept fs fs' p [] same h = same p (omega arith) ∙ h
NameAt-kept fs fs' p (c ∷ s) same (h, on) =
    (same p (omega arith) ∙ h, NameAt-kept fs fs' (p + 1) s (λ j below. same j (omega arith)) on)

pub fitting-fields :
    (k offset : ℕ) (f : File) (files : List File)
    → fitting k offset (f ∷ files) ≡ true
    → (length f.name ≤ 10)
      × (length f.content < 65536)
      × (fitting (k + 1) (next_offset offset (length f.content)) files ≡ true)
unfolding fitting
fitting-fields k offset f files h = (ground arith, ground arith, ground arith)

-- An entry stays where the bytes of its entry and its content stay.
Entry-kept :
    (fs fs' : ℕ → ℕ) (k : ℕ) (f : File) (offset : ℕ)
    → length f.name ≤ 10
    → ((j : ℕ) → j < (k + 1) * 16 → fs' j ≡ fs j)
    → Entry fs k f offset
    → Entry fs' k f offset
Entry-kept fs fs' k f offset short same e = record {
  name = NameAt-kept fs fs' (k * 16) f.name (λ j below. same j (omega arith)) e.name;
  blk = omega (arith, e.blk, same (k * 16 + 12) (omega arith), same (k * 16 + 13) (omega arith));
  size = omega (arith, e.size, same (k * 16 + 14) (omega arith), same (k * 16 + 15) (omega arith));
}

-- Every file that the image has room for stands in it after `append_directory`.
pub Stored-append_directory :
    (stale : ℕ → ℕ) (files : List File) (img : Image)
    → 512 ≤ img.c_offset
    → fitting img.c_file img.c_offset files ≡ true
    → Stored (append_directory stale files img).fs img.c_file img.c_offset files
unfolding append_directory Stored append_file
Stored-append_directory stale [] img low fit = tt
Stored-append_directory stale (f ∷ files) img low fit =
    let bounds = fitting-bounds img.c_file img.c_offset (f ∷ files) fit in
    let img' = append_file stale f img in
    let fields = fitting-fields img.c_file img.c_offset f files fit in
    let grown : img.c_offset + length f.content ≤ next_offset img.c_offset (length f.content) =
      omega arith in
    let low' : 512 ≤ next_offset img.c_offset (length f.content) = omega (arith, grown) in
    let keeps = Keeps-append_directory stale files img' low' fields.2 in
    (
      Entry-kept img'.fs _ img.c_file f img.c_offset fields.0 (λ j below. keeps j (inl (below)))
          (Entry-append_file stale f img fields.0 fields.1 low bounds.1 (omega (arith, bounds.0))),
      λ j c found.
          keeps (img.c_offset + j)
            (inr (omega arith, omega (arith, grown, get_elem-below f.content j c found)))
          ∙ Content-append_file stale f img j c found,
      Stored-append_directory stale files img' low' fields.2,
    )
