-- ===== src/Kernel/Tests/Files.antt =====
-- software/kernel/blk.c and fs.c: runs and instances.
use cpu.Prelude.{
  ℕ, ◌+◌, ◌*◌, ◌%◌, ◌≡◌, refl, inl, inr, Option, none, some, arith, ◌==◌, if◌then◌else◌, Bool-cases,
}
use cpu.Kernel.Disk.{
  Storage, Disk, block_free, block_used, ata_read_block, block_sync, first_slot, bread, bfree,
  memcpy, part, read_loop, read_file,
}
use cpu.Kernel.Disk.Cache.{Ready}
use cpu.Kernel.Disk.File.{Delivered, read_file-Delivered}

abbrev numbered : Storage
numbered block i = (block * 10 + i) % 256

-- Block 3 is in slot 0, and all the other slots are free.
abbrev one_block : Disk
one_block = record {
  block_cache = λ i. record {
    flags = if i == 0 then block_used else block_free;
    device = 0;
    n = 3;
    cnt = 0;
    content = ata_read_block 3 numbered;
  };
  storage = numbered;
}

one_block-Ready : Ready one_block
one_block-Ready i below = (
  refl,
  elim (Bool-cases (i == 0)) [
    | inl first ↦ inr (rw first refl, refl)
    | inr other ↦ inl (rw other refl)
  ],
)

abbrev memory_of : Option ((ℕ → ℕ) × Disk) → ℕ → ℕ
memory_of none i = 0
memory_of (some (memory, d)) i = memory i

-- Four bytes from 254 on in the file at block 3: the last two of it and the first two of block 4.
read_file-across :
    (memory_of (read_file 100 3 254 4 (λ i. 0) one_block) 100 ≡ 28)
    × (memory_of (read_file 100 3 254 4 (λ i. 0) one_block) 103 ≡ 41)
    × (memory_of (read_file 100 3 254 4 (λ i. 0) one_block) 104 ≡ 0)
unfolding read_file read_loop bread first_slot ata_read_block memcpy part bfree block_sync
read_file-across = (refl, refl, refl)

read_file-Delivered_example :
    (memory' : ℕ → ℕ) × (e : Disk) × (read_file 100 3 254 4 (λ i. 0) one_block ≡ some (memory', e))
    × Delivered 100 3 254 4 0 (λ i. 0) memory' one_block e
read_file-Delivered_example =
    read_file-Delivered 100 3 254 4 (λ i. 0) one_block (omega arith) (omega arith) (omega arith)
      one_block-Ready
