-- ===== src/Kernel/Disk/File.antt =====
-- software/kernel/fs.c: `read_file` delivers the bytes of the storage.
use cpu.Prelude.{
  ℕ, zero, suc, ◌+◌, ◌-◌, ◌/◌, ◌%◌, ◌≤◌, ◌<◌, ◌≡◌, refl, ap, ap₂, ◌∙◌, ◌⊎◌, inl, inr, true, some,
  arith, ltb, ==_ne, Bool-cases, u16, update,
}
use cpu.Kernel.Disk.{
  Storage, Disk, ata_read_block, bread, bfree, memcpy, part, read_loop, read_file,
}
use cpu.Kernel.Disk.Cache.{Ready, Served, bread-Served}

pub memcpy-outside :
    (memory : ℕ → ℕ) (dest : ℕ) (from : ℕ → ℕ) (src k j : ℕ)
    → dest + k < 65536
    → (j < dest) ⊎ (dest + k ≤ j)
    → memcpy memory dest from src k j ≡ memory j
unfolding memcpy
memcpy-outside memory dest from src zero j fits out = refl
memcpy-outside memory dest from src (suc k) j fits out =
    let next : u16 (dest + 1) ≡ dest + 1 = omega arith in
    rw (next, memcpy)
      (memcpy-outside (update memory dest (from src)) (dest + 1) from (src + 1) k j (omega arith)
          (ground arith)
        ∙ rw (==_ne j dest (ground arith)) refl)

pub memcpy-inside :
    (memory : ℕ → ℕ) (dest : ℕ) (from : ℕ → ℕ) (src k i : ℕ)
    → dest + k < 65536
    → i < k
    → memcpy memory dest from src k (dest + i) ≡ from (src + i)
unfolding memcpy
memcpy-inside memory dest from src zero i fits below = absurd (omega arith)
memcpy-inside memory dest from src (suc k) zero fits below =
    let next : u16 (dest + 1) ≡ dest + 1 = omega arith in
    rw (next, memcpy)
      (memcpy-outside (update memory dest (from src)) (dest + 1) from (src + 1) k (dest + 0)
          (omega arith) (inl (omega arith))
        ∙ ground arith)
memcpy-inside memory dest from src (suc k) (suc i) fits below =
    let next : u16 (dest + 1) ≡ dest + 1 = omega arith in
    rw (next, memcpy)
      (ap (memcpy (update memory dest (from src)) (dest + 1) from (src + 1) k) {x = dest + suc i}
          {y = dest + 1 + i} (omega arith)
        ∙ memcpy-inside (update memory dest (from src)) (dest + 1) from (src + 1) k i (omega arith)
            (omega arith)
        ∙ ap from (omega arith))

-- The byte at `pos` of the range of blocks that starts with `blkn`.
abbrev pub byte_at : Storage → ℕ → ℕ → ℕ
byte_at storage blkn pos = storage (blkn + pos / 256) (pos % 256)

-- `memory'` has the bytes of the range from `already` on, and is `memory` outside.
pub record Delivered (dest blkn offset size already : ℕ) (memory memory' : ℕ → ℕ) (d e : Disk)
    : Type 0 where
  pub ready : Ready e
  pub storage : e.storage ≡ d.storage
  pub inside :
      (i : ℕ) → already ≤ i → i < size → memory' (dest + i) ≡ byte_at d.storage blkn (offset + i)
  pub outside : (j : ℕ) → (j < dest + already) ⊎ (dest + size ≤ j) → memory' j ≡ memory j

ata_read_block-fits : (n : ℕ) (storage : Storage) → n < 65536 → ata_read_block n storage ≡ storage n
unfolding ata_read_block
ata_read_block-fits n storage below = ap storage (omega arith)

part-fits :
    (left c_pos : ℕ)
    → 0 < left
    → left + c_pos % 256 < 65536
    → (0 < part left c_pos) × (part left c_pos ≤ left) × (c_pos % 256 + part left c_pos ≤ 256)
unfolding part
part-fits left c_pos some_left fits =
    let whole : u16 (left + c_pos % 256) ≡ left + c_pos % 256 = omega arith in
    rw whole (ground arith, ground arith, ground arith)

-- One round, where nothing wraps.
read_loop-round :
    (fuel dest blkn offset size already i : ℕ) (memory : ℕ → ℕ) (d e : Disk)
    → already < size
    → offset + already < 65536
    → dest + already < 65536
    → blkn + (offset + already) / 256 < 65536
    → bread 2 0 (blkn + (offset + already) / 256) d ≡ some (i, e)
    → read_loop (suc fuel) dest blkn offset size already memory d
      ≡ read_loop fuel dest blkn offset size
          (already + part (size - already) (offset + already))
          (memcpy memory
            (dest + already)
            (e.block_cache i).content
            ((offset + already) % 256)
            (part (size - already) (offset + already)))
          (bfree i e)
unfolding read_loop
read_loop-round fuel dest blkn offset size already i memory d e more fits target blocks run =
    let pos : u16 (offset + already) ≡ offset + already = omega arith in
    let at : u16 (dest + already) ≡ dest + already = omega arith in
    let blk : u16 (blkn + (offset + already) / 256) ≡ blkn + (offset + already) / 256 =
      omega arith in
    let less : ltb already size ≡ true = ground arith in
    rw (read_loop, less, pos, blk, run, at, pos) refl

-- What one round and the rounds behind it deliver together.
Delivered-round :
    (dest blkn offset size already now : ℕ) (memory memory' : ℕ → ℕ) (d : Disk) (i : ℕ)
    (e e' : Disk)
    → 0 < now
    → already + now ≤ size
    → (offset + already) % 256 + now ≤ 256
    → offset + size < 65536
    → dest + size < 65536
    → blkn + (offset + already) / 256 < 65536
    → Served (blkn + (offset + already) / 256) d i e
    → Delivered dest blkn offset size
        (already + now)
        (memcpy memory (dest + already) (e.block_cache i).content ((offset + already) % 256) now)
        memory'
        (bfree i e)
        e'
    → Delivered dest blkn offset size already memory memory' d e'
unfolding bfree
Delivered-round dest blkn offset size already now memory memory' d i e e' some_now within in_block
      range target blocks served rest =
    let from = (e.block_cache i).content in
    let src = (offset + already) % 256 in
    let bytes : from ≡ d.storage (blkn + (offset + already) / 256) =
      served.content ∙ ata_read_block-fits (blkn + (offset + already) / 256) d.storage blocks in
    record {
      ready = rest.ready;
      storage = rest.storage ∙ served.storage;
      inside = λ k after below. elim (Bool-cases (ltb k (already + now))) [
        | inr later ↦
            rest.inside k (ground arith) below
            ∙ ap (λ s. byte_at s blkn (offset + k)) served.storage
        | inl here ↦
            let upto : k < already + now = ground arith in
            rest.outside (dest + k) (inl (omega arith))
            ∙ ap (memcpy memory (dest + already) from src now) {x = dest + k}
                {y = dest + already + (k - already)} (omega arith)
            ∙ memcpy-inside memory (dest + already) from src now (k - already) (omega arith)
                (omega arith)
            ∙ ap (λ f. f (src + (k - already))) bytes
            ∙ ap₂ (λ b p. d.storage (blkn + b) p) {x = (offset + already) / 256}
                {y = (offset + k) / 256} (omega arith) (omega arith)
      ];
      outside = λ j out.
          rest.outside j (ground arith)
          ∙ memcpy-outside memory (dest + already) from src now j (omega arith) (ground arith);
    }

read_loop-Delivered :
    (fuel dest blkn offset size already : ℕ) (memory : ℕ → ℕ) (d : Disk)
    → size < already + fuel
    → already ≤ size
    → offset + size < 65536
    → dest + size < 65536
    → blkn + (offset + size) / 256 < 65536
    → Ready d
    → (memory' : ℕ → ℕ) × (e : Disk) × (read_loop fuel dest blkn offset size already memory d
        ≡ some (memory', e))
      × Delivered dest blkn offset size already memory memory' d e
unfolding read_loop
read_loop-Delivered zero dest blkn offset size already memory d enough small range target blocks
      ready =
    absurd (omega arith)
read_loop-Delivered (suc fuel) dest blkn offset size already memory d enough small range target
      blocks ready =
    elim (Bool-cases (ltb already size)) [
      | inr done ↦ (
        memory,
        d,
        rw (read_loop, done) refl,
        record {
          ready = ready;
          storage = refl;
          inside = λ i from below. absurd (ground arith);
          outside = λ j out. refl;
        },
      )
      | inl more ↦
          let c_pos = offset + already in
          let now = part (size - already) c_pos in
          let (some_now, within, in_block) =
            part-fits (size - already) c_pos (ground arith) (ground arith) in
          let (i, e, run, served) = bread-Served 0 (blkn + c_pos / 256) d ready in
          let from = (e.block_cache i).content in
          let filled = memcpy memory (dest + already) from (c_pos % 256) now in
          let (memory', e', rest, delivered) =
            read_loop-Delivered fuel dest blkn offset size (already + now) filled (bfree i e)
              (ground arith) (ground arith) range target blocks served.given_back in
          (
            memory',
            e',
            read_loop-round fuel dest blkn offset size already i memory d e (ground arith)
                  (ground arith) (ground arith) (ground arith) run
                ∙ rest,
            Delivered-round dest blkn offset size already now memory memory' d i e e' some_now
                (omega arith) in_block (omega arith) (omega arith) (omega arith) served delivered,
          )
    ]

-- Reading a part of a file ends, from a state with no slot given out and a range whose ends fit 16
-- bits: the destination holds the bytes of the storage at that range, across block boundaries, no
-- other memory and no block of the storage changes, and no slot stays given out.
pub read_file-Delivered :
    (dest blkn offset size : ℕ) (memory : ℕ → ℕ) (d : Disk)
    → offset + size < 65536
    → dest + size < 65536
    → blkn + (offset + size) / 256 < 65536
    → Ready d
    → (memory' : ℕ → ℕ) × (e : Disk) × (read_file dest blkn offset size memory d
        ≡ some (memory', e))
      × Delivered dest blkn offset size 0 memory memory' d e
unfolding read_file
read_file-Delivered dest blkn offset size memory d range target blocks ready =
    read_loop-Delivered (size + 1) dest blkn offset size 0 memory d (omega arith) (omega arith)
      range target blocks ready
