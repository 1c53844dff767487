-- ===== src/Tools/Mkfs/Lookup.antt =====
-- tools/mkfs.c and software/kernel/fs.c: a file of the image, looked up and read by the kernel.
use cpu.Prelude.{
  ℕ, zero, suc, ◌+◌, ◌*◌, ◌/◌, ◌%◌, ◌≤◌, ◌<◌, ◌≡◌, refl, ap, ap₂, ◌∙◌, subst, fun_ext, ◌⊎◌, inl,
  inr, Bool, true, false, not, ◌&&◌, Option, none, some, List, [], ◌∷◌, arith, ◌==◌, if◌then◌else◌,
  Bool-cases, length, get_elem?,
}
use cpu.Binutils.Text.{Text, str_eq}
use cpu.Kernel.Klib.Strings.{bytes_ok}
use cpu.Kernel.Disk.{Storage, Disk, ata_read_block, bfree, read_file}
use cpu.Kernel.Disk.Cache.{Ready, bread-Served}
use cpu.Kernel.Disk.File.{byte_at, read_file-Delivered}
use cpu.Kernel.Directory.{same_at, word_at, found, search, search_slot, stat}
use cpu.Tools.Mkfs.{File, next_offset, append_directory, empty_image}
use cpu.Tools.Mkfs.Entries.{
  NameAt, Content, Stored, fitting, fitting-bounds, fitting-fields, get_elem-below,
  Stored-append_directory,
}

-- The first file of a name, and its offset.
unfoldable pub lookup : Text → ℕ → List File → Option (ℕ × File)
lookup name offset [] = none
lookup name offset (f ∷ files) =
    let on = lookup name (next_offset offset (length f.content)) files in
    if str_eq f.name name then some (offset, f) else on

-- Names of bytes that are not 0, none of them empty.
unfoldable pub named : List File → Bool
named [] = true
named (f ∷ files) = if bytes_ok f.name && not (str_eq f.name []) then named files else false

pub same_at-str_eq :
    (content : ℕ → ℕ) (p : ℕ) (s name : Text)
    → bytes_ok s ≡ true
    → bytes_ok name ≡ true
    → NameAt content p s
    → same_at content p name ≡ str_eq s name
unfolding same_at str_eq bytes_ok NameAt
same_at-str_eq content p [] [] hs hn at = rw at refl
same_at-str_eq content p [] (c ∷ name) hs hn at = ground arith
same_at-str_eq content p (a ∷ s) [] hs hn (at, rest) = ground arith
same_at-str_eq content p (a ∷ s) (c ∷ name) hs hn (at, rest) =
    let on = same_at-str_eq content (p + 1) s name (ground arith) (ground arith) rest in
    ground (arith, at, on)

pub first_byte :
    (content : ℕ → ℕ) (p : ℕ) (s : Text)
    → bytes_ok s ≡ true
    → str_eq s [] ≡ false
    → NameAt content p s
    → (content p == 0) ≡ false
unfolding bytes_ok str_eq NameAt
first_byte content p [] hs full at = absurd cc
first_byte content p (a ∷ s) hs full (at, rest) = ground (arith, at)

pub named-fields :
    (f : File) (files : List File)
    → named (f ∷ files) ≡ true
    → (bytes_ok f.name ≡ true) × (str_eq f.name [] ≡ false) × (named files ≡ true)
unfolding named
named-fields f files h = (ground arith, ground arith, ground arith)

search-lookup :
    (content : ℕ → ℕ) (name : Text) (files : List File) (k left offset o : ℕ) (f : File)
    → bytes_ok name ≡ true
    → named files ≡ true
    → length files ≤ left
    → Stored content k offset files
    → lookup name offset files ≡ some (o, f)
    → search content name k left ≡ found (o / 256) (length f.content)
unfolding search lookup Stored
search-lookup content name [] k left offset o f bytes good room stored h = absurd cc
search-lookup content name (g ∷ files) k zero offset o f bytes good room stored h =
    absurd (omega arith)
search-lookup content name (g ∷ files) k (suc left) offset o f bytes good room (entry, text, rest)
      h =
    let fields = named-fields g files good in
    let start = first_byte content (k * 16) g.name fields.0 fields.1 entry.name in
    let same = same_at-str_eq content (k * 16) g.name name fields.0 bytes entry.name in
    elim (Bool-cases (str_eq g.name name)) [
      | inl hit ↦
          let at : offset ≡ o = ground (arith, hit) in
          let which : g ≡ f = ground (arith, hit) in
          let blk_high : content (k * 16 + 12 + 1) ≡ content (k * 16 + 13) =
            ap content (omega arith) in
          let size_high : content (k * 16 + 14 + 1) ≡ content (k * 16 + 15) =
            ap content (omega arith) in
          let blk : word_at content (k * 16 + 12) ≡ offset / 256 =
            ap (λ n. content (k * 16 + 12) + 256 * n) blk_high ∙ entry.blk in
          let size : word_at content (k * 16 + 14) ≡ length g.content =
            ap (λ n. content (k * 16 + 14) + 256 * n) size_high ∙ entry.size in
          rw (start, same ∙ hit)
            (ap₂ found (blk ∙ ap (λ n. n / 256) at) (size ∙ ap (λ g. length g.content) which))
      | inr miss ↦
          let on =
            search-lookup content name files (k + 1) left _ o f bytes fields.2 (omega arith) rest
              (ground (arith, miss)) in
          rw (start, same ∙ miss) on
    ]

-- What `lookup` gives stands at its offset, which is the start of a block and within 2 ^ 20.
pub lookup-Stored :
    (fs : ℕ → ℕ) (name : Text) (files : List File) (k offset o : ℕ) (f : File)
    → fitting k offset files ≡ true
    → Stored fs k offset files
    → offset % 256 ≡ 0
    → lookup name offset files ≡ some (o, f)
    → (Content fs o f.content) × (o % 256 ≡ 0) × (o ≤ 1048576) × (length f.content < 65536)
unfolding lookup Stored
lookup-Stored fs name [] k offset o f fit stored start h = absurd cc
lookup-Stored fs name (g ∷ files) k offset o f fit (entry, text, rest) start h =
    let bounds = fitting-bounds k offset (g ∷ files) fit in
    let fields = fitting-fields k offset g files fit in
    elim (Bool-cases (str_eq g.name name)) [
      | inl hit ↦
          let at : offset ≡ o = ground (arith, hit) in
          let which : g ≡ f = ground (arith, hit) in
          subst
            (λ p.
              (Content fs p f.content) × (p % 256 ≡ 0) × (p ≤ 1048576) × (length f.content < 65536))
            at
            (
              subst (λ g. Content fs offset g.content) which text,
              start,
              bounds.1,
              subst (λ g. length g.content < 65536) which fields.1,
            )
      | inr miss ↦
          lookup-Stored fs name files (k + 1) (next_offset offset (length g.content)) o f fields.2
            rest (omega arith) (ground (arith, miss))
    ]

-- The blocks of an image.
abbrev pub blocks : (ℕ → ℕ) → Storage
blocks fs n i = fs (n * 256 + i)

-- What is read: the content from `dest` on, with the rest of the memory as it was.
pub record Loaded (dest : ℕ) (content : List ℕ) (memory memory' : ℕ → ℕ) : Type 0 where
  pub stored : (j c : ℕ) → get_elem? content j ≡ some c → memory' (dest + j) ≡ c
  pub kept : (j : ℕ) → (j < dest) ⊎ (dest + length content ≤ j) → memory' j ≡ memory j

Loaded-read_file :
    (fs : ℕ → ℕ) (dest o : ℕ) (content : List ℕ) (memory : ℕ → ℕ) (d : Disk)
    → d.storage ≡ blocks fs
    → Ready d
    → Content fs o content
    → o % 256 ≡ 0
    → o ≤ 1048576
    → length content < 65536
    → dest + length content < 65536
    → (memory' : ℕ → ℕ) × (e : Disk) × (read_file dest (o / 256) 0 (length content) memory d
        ≡ some (memory', e))
      × Loaded dest content memory memory'
Loaded-read_file fs dest o content memory d disk ready text start high small target =
    let read =
      read_file-Delivered dest (o / 256) 0 (length content) memory d (omega arith) target
        (omega arith) ready in
    (
      read.0,
      read.1,
      read.2,
      record {
        stored = λ j c found_c.
            let inside = get_elem-below content j c found_c in
            read.3.inside j (omega arith) inside
            ∙ ap (λ s. byte_at s (o / 256) (0 + j)) disk
            ∙ ap fs (omega arith)
            ∙ text j c found_c;
        kept = λ j out.
            read.3.outside j (elim out [ inl front ↦ inl (omega arith) | inr back ↦ inr back ]);
      },
    )

pub first_block : (fs : ℕ → ℕ) (d : Disk) → d.storage ≡ blocks fs → ata_read_block 0 d.storage ≡ fs
unfolding ata_read_block
first_block fs d disk = ap (λ s. s 0) disk ∙ fun_ext (λ i. ap fs (omega arith))

pub stat-lookup :
    (fs : ℕ → ℕ) (name : Text) (files : List File) (o : ℕ) (f : File) (d : Disk)
    → bytes_ok name ≡ true
    → named files ≡ true
    → length files ≤ 16
    → Stored fs 0 512 files
    → lookup name 512 files ≡ some (o, f)
    → d.storage ≡ blocks fs
    → Ready d
    → (e : Disk) × (stat name d ≡ some (found (o / 256) (length f.content), e))
      × (e.storage ≡ d.storage)
      × Ready e
unfolding stat
stat-lookup fs name files o f d bytes good room stored looked disk ready =
    let (i, e, ran, served) = bread-Served 0 0 d ready in
    let block : (e.block_cache i).content ≡ fs = served.content ∙ first_block fs d disk in
    let search_fs = search-lookup fs name files 0 16 512 o f bytes good room stored looked in
    (
      bfree i e,
      ap (search_slot name) ran
          ∙ ap (λ r. some (r, bfree i e)) (ap (λ c. search c name 0 16) block ∙ search_fs),
      unfold bfree in served.storage,
      served.given_back,
    )

-- The kernel finds and reads what mkfs has written. For an image of files whose names have 1 to 10
-- characters, at most 16 of them, that fit the image, on a storage that the kernel has no block of given
-- out: `stat` on a name finds the block and the size of the first file of that name, and `read_file` from
-- there puts the content of the file, and nothing else, into memory.
pub stat-read_file :
    (stale : ℕ → ℕ) (files : List File) (name : Text) (o : ℕ) (f : File) (d : Disk) (dest : ℕ)
    (memory : ℕ → ℕ)
    → bytes_ok name ≡ true
    → named files ≡ true
    → length files ≤ 16
    → fitting 0 512 files ≡ true
    → lookup name 512 files ≡ some (o, f)
    → d.storage ≡ blocks (append_directory stale files empty_image).fs
    → Ready d
    → dest + length f.content < 65536
    → (e : Disk) × (memory' : ℕ → ℕ) × (e' : Disk) × (stat name d
        ≡ some (found (o / 256) (length f.content), e))
      × (read_file dest (o / 256) 0 (length f.content) memory e ≡ some (memory', e'))
      × Loaded dest f.content memory memory'
stat-read_file stale files name o f d dest memory bytes good room fit looked disk ready target =
    let fs = (append_directory stale files empty_image).fs in
    let stored = Stored-append_directory stale files empty_image (omega arith) fit in
    let (e, ran, storage, ready') =
      stat-lookup fs name files o f d bytes good room stored looked disk ready in
    let (text, start, high, small) = lookup-Stored fs name files 0 512 o f fit stored refl looked in
    let (memory', e', read, loaded) =
      Loaded-read_file fs dest o f.content memory e (storage ∙ disk) ready' text start high small
        target in
    (e, memory', e', ran, read, loaded)
