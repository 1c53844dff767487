-- ===== src/Kernel/Disk.antt =====
-- software/kernel/blk.c, ata.c, and `read_file` of fs.c: the cache of blocks and the reading of a
-- part of a file. The storage device answers the reads of a block with its bytes in order.
pub mod Cache
pub mod File
use cpu.Prelude.{
  ℕ, zero, suc, ◌+◌, ◌-◌, ◌*◌, ◌/◌, ◌%◌, ◌^◌, ◌≤◌, ◌<◌, bit_and, bit_or, bit_xor, for_up, ◌≡◌, refl,
  sym, ap, ap₂, ◌∙◌, subst, fun_ext, ◌≢◌, ◌↔◌, ◌⊎◌, inl, inr, Bool, true, false, not, ◌&&◌, ◌||◌,
  Option, none, some, List, [], ◌∷◌, ◌++◌, map, arith, ltb, leb, ◌==◌, ==_iff, ==_refl, ==_ne,
  if◌then◌else◌, Bool-cases, Option-cases, length, get_elem?, length-append, get_elem-append_right,
  get_elem-append_left, u8, u16, ◌<<<◌, ◌>>>◌, passes_below, passes_below-entry, update,
}

-- The bytes of each block.
abbrev pub Storage : Type 0
Storage = ℕ → ℕ → ℕ

abbrev pub block_free : ℕ
block_free = 0

abbrev pub block_used : ℕ
block_used = 1

abbrev pub block_modified : ℕ
block_modified = 2

abbrev pub block_cache_size : ℕ
block_cache_size = 4

-- `content` is the slot's part of `blockDataCache`.
pub record Block : Type 0 where
  pub flags : ℕ
  pub device : ℕ
  pub n : ℕ
  pub cnt : ℕ
  pub content : ℕ → ℕ

pub record Disk : Type 0 where
  pub block_cache : ℕ → Block
  pub storage : Storage

-- The two writes of the address give the device the number of the block, whose 256 bytes follow.
unfoldable pub ata_read_block : ℕ → Storage → ℕ → ℕ
ata_read_block block storage = storage (u8 (block / 256) * 256 + block % 256)

unfoldable pub ata_write_block : ℕ → (ℕ → ℕ) → Storage → Storage
ata_write_block block buf storage =
    update storage (u8 (block / 256) * 256 + block % 256)
      (λ i. if ltb i 256 then buf i else storage (u8 (block / 256) * 256 + block % 256) i)

-- One round of the loop of `block_sync`.
unfoldable pub sync_slot : ℕ → Disk → Disk
sync_slot i d =
    let blk = d.block_cache i in
    if blk.cnt == 0
    then record {
      block_cache = update d.block_cache i (record blk { flags = block_free });
      storage =
          if blk.flags == block_modified
          then ata_write_block blk.n blk.content d.storage
          else d.storage;
    }
    else d

unfoldable pub block_sync : Disk → Disk
block_sync d = for_up block_cache_size sync_slot d

-- The first of `left` slots from `i` on that passes the test.
unfoldable pub first_slot : (Block → Bool) → (ℕ → Block) → ℕ → ℕ → Option ℕ
first_slot test cache i zero = none
first_slot test cache i (suc left) =
    if test (cache i) then some i else first_slot test cache (i + 1) left

abbrev pub holds_block : ℕ → ℕ → Block → Bool
holds_block device n blk = not (blk.flags == block_free) && ((blk.device == device) && (blk.n == n))

abbrev pub is_free : Block → Bool
is_free blk = blk.flags == block_free

-- The slot that is given out again, and the slot that is filled.
abbrev pub take_again : ℕ → Disk → Disk
take_again i d = record d {
  block_cache =
      update d.block_cache i (record (d.block_cache i) { cnt = u8 ((d.block_cache i).cnt + 1) });
}

abbrev pub fill_slot : ℕ → ℕ → ℕ → Disk → Disk
fill_slot device n i d = record d {
  block_cache = update d.block_cache i (record {
    flags = block_used;
    device = device;
    n = n;
    cnt = 1;
    content = ata_read_block n d.storage;
  });
}

-- The loop of `bread`, one unit of fuel for each round; the result is the slot.
unfoldable pub bread : ℕ → ℕ → ℕ → Disk → Option (ℕ × Disk)
bread zero device n d = none
bread (suc fuel) device n d =
    let again = bread fuel device n (block_sync d) in
    elim (first_slot (holds_block device n) d.block_cache 0 block_cache_size) [
      | some i ↦ some (i, take_again i d)
      | none ↦ elim (first_slot is_free d.block_cache 0 block_cache_size) [
        | some i ↦ some (i, fill_slot device n i d)
        | none ↦ again
      ]
    ]

-- `cnt--` on a byte.
unfoldable pub bfree : ℕ → Disk → Disk
bfree i d = record d {
  block_cache =
      update d.block_cache i (record (d.block_cache i) { cnt = u8 ((d.block_cache i).cnt + 255) });
}

unfoldable pub block_init : Disk → Disk
block_init d =
    for_up block_cache_size
      (λ i e. record e {
        block_cache = update e.block_cache i (record (e.block_cache i) { flags = block_free });
      })
      d

-- `memcpy` to `dest` from `src` on in another array.
unfoldable pub memcpy : (ℕ → ℕ) → ℕ → (ℕ → ℕ) → ℕ → ℕ → ℕ → ℕ
memcpy memory dest from src zero = memory
memcpy memory dest from src (suc k) =
    memcpy (update memory dest (from src)) (u16 (dest + 1)) from (src + 1) k

-- How much of the range is in the block of its first byte.
unfoldable pub part : ℕ → ℕ → ℕ
part left c_pos = if ltb 256 (u16 (left + c_pos % 256)) then 256 - c_pos % 256 else left

-- The loop of `read_file`, one unit of fuel for each round; two rounds are enough for `bread`.
unfoldable pub read_loop : ℕ → ℕ → ℕ → ℕ → ℕ → ℕ → (ℕ → ℕ) → Disk → Option ((ℕ → ℕ) × Disk)
read_loop zero dest blkn offset size already memory d = none
read_loop (suc fuel) dest blkn offset size already memory d =
    let c_pos = u16 (offset + already) in
    let read_now = part (size - already) c_pos in
    if ltb already size
    then elim (bread 2 0 (u16 (blkn + c_pos / 256)) d) [
      | none ↦ none
      | some (i, e) ↦
          read_loop fuel dest blkn offset size (already + read_now)
            (memcpy memory (u16 (dest + already)) (e.block_cache i).content (c_pos % 256) read_now)
            (bfree i e)
    ]
    else some (memory, d)

unfoldable pub read_file : ℕ → ℕ → ℕ → ℕ → (ℕ → ℕ) → Disk → Option ((ℕ → ℕ) × Disk)
read_file dest blkn offset size memory d = read_loop (size + 1) dest blkn offset size 0 memory d
