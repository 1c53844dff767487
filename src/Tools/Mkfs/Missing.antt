-- ===== src/Tools/Mkfs/Missing.antt =====
-- tools/mkfs.c and software/kernel/fs.c: a name that is not in the image.
use cpu.Prelude.{
  ℕ, zero, suc, ◌+◌, ◌*◌, ◌≤◌, ◌<◌, ◌≡◌, refl, ap, ◌∙◌, true, Bool-cases, inl, inr, none, some,
  List, [], ◌∷◌, arith, length,
}
use cpu.Binutils.Text.{Text, str_eq}
use cpu.Kernel.Klib.Strings.{bytes_ok}
use cpu.Kernel.Disk.{Disk, bfree}
use cpu.Kernel.Disk.Cache.{Ready, bread-Served}
use cpu.Kernel.Directory.{missing, search, search_slot, stat}
use cpu.Kernel.Load.{Loader, and_then, load_found, load_process}
use cpu.Tools.Mkfs.{File, Image, append_file, append_directory, empty_image, put}
use cpu.Tools.Mkfs.Entries.{Stored, fitting, Stored-append_directory}
use cpu.Tools.Mkfs.Lookup.{
  lookup, named, named-fields, blocks, first_byte, same_at-str_eq, first_block,
}

-- The directory behind the last file stays as it was.
behind-append_directory :
    (stale : ℕ → ℕ) (files : List File) (img : Image) (j : ℕ)
    → 512 ≤ img.c_offset
    → (img.c_file + length files) * 16 ≤ j
    → j < 512
    → (append_directory stale files img).fs j ≡ img.fs j
unfolding append_directory append_file put
behind-append_directory stale [] img j low above below = refl
behind-append_directory stale (f ∷ files) img j low above below =
    behind-append_directory stale files (append_file stale f img) j (omega arith) (omega arith)
      below
    ∙ ground arith

search-missing :
    (content : ℕ → ℕ) (name : Text) (files : List File) (k left offset : ℕ)
    → bytes_ok name ≡ true
    → named files ≡ true
    → length files < left
    → Stored content k offset files
    → content ((k + length files) * 16) ≡ 0
    → lookup name offset files ≡ none
    → search content name k left ≡ missing
unfolding search lookup Stored
search-missing content name files k zero offset bytes good room stored end h = absurd (omega arith)
search-missing content name [] k (suc left) offset bytes good room stored end h =
    let here : content (k * 16) ≡ 0 =
      ap content {x = k * 16} {y = (k + 0) * 16} (omega arith) ∙ end in
    rw here refl
search-missing content name (g ∷ files) k (suc left) offset bytes good room (entry, text, rest) end
      h =
    let fields = named-fields g files good in
    let start = first_byte content (k * 16) g.name fields.0 fields.1 entry.name in
    let same = same_at-str_eq content (k * 16) g.name name fields.0 bytes entry.name in
    elim (Bool-cases (str_eq g.name name)) [
      | inl hit ↦ absurd (ground (arith, hit))
      | inr miss ↦
          rw (start, same ∙ miss)
            (search-missing content name files (k + 1) left _ bytes fields.2 (omega arith) rest
              (ap content {x = (k + 1 + length files) * 16} {y = (k + suc (length files)) * 16}
                  (omega arith)
                ∙ end)
              (ground (arith, miss)))
    ]

-- `stat` reports a name that is not in the image, and gives the block of the directory back.
stat-missing :
    (stale : ℕ → ℕ) (files : List File) (name : Text) (d : Disk)
    → bytes_ok name ≡ true
    → named files ≡ true
    → length files < 16
    → fitting 0 512 files ≡ true
    → lookup name 512 files ≡ none
    → d.storage ≡ blocks (append_directory stale files empty_image).fs
    → Ready d
    → (e : Disk) × (stat name d ≡ some (missing, e)) × (e.storage ≡ d.storage) × Ready e
unfolding stat
stat-missing stale files name d bytes good room fit looked disk ready =
    let fs = (append_directory stale files empty_image).fs in
    let stored = Stored-append_directory stale files empty_image (omega arith) fit in
    let end : fs ((0 + length files) * 16) ≡ 0 =
      behind-append_directory stale files empty_image ((0 + length files) * 16) (omega arith)
        (omega arith) (omega arith) in
    let (i, e, ran, served) = bread-Served 0 0 d ready in
    let block : (e.block_cache i).content ≡ fs = served.content ∙ first_block fs d disk in
    let none_there = search-missing fs name files 0 16 512 bytes good room stored end looked in
    (
      bfree i e,
      ap (search_slot name) ran
          ∙ ap (λ r. some (r, bfree i e)) (ap (λ c. search c name 0 16) block ∙ none_there),
      unfold bfree in served.storage,
      served.given_back,
    )

-- A name that is not in an image of at most 15 files that fit it, with names of 1 to 10 characters:
-- `stat` reports it as missing and gives the block of the directory back, so that the storage can be read
-- again, and `load_process` ends with every page, the memory unit and the memory as they were.
pub load_process-missing :
    (stale : ℕ → ℕ) (files : List File) (name : Text) (pages : ℕ → ℕ) (l : Loader)
    → bytes_ok name ≡ true
    → named files ≡ true
    → length files < 16
    → fitting 0 512 files ≡ true
    → lookup name 512 files ≡ none
    → l.disk.storage ≡ blocks (append_directory stale files empty_image).fs
    → Ready l.disk
    → (e : Disk) × (stat name l.disk ≡ some (missing, e))
      × (e.storage ≡ l.disk.storage)
      × Ready e
      × (load_process name pages l ≡ some (record l { disk = e }))
unfolding load_process
load_process-missing stale files name pages l bytes good room fit looked disk ready =
    let (e, ran, storage, ready') =
      stat-missing stale files name l.disk bytes good room fit looked disk ready in
    (e, ran, storage, ready', ap (λ r. and_then r (load_found pages l)) ran)
