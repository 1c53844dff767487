-- ===== src/Kernel/Directory.antt =====
-- software/kernel/fs.c: `stat`, the search in the directory, which is the first block of the storage:
-- entries of 16 bytes up to one whose first byte is 0. Words have their low byte first.
use cpu.Prelude.{
  ℕ, zero, suc, ◌+◌, ◌*◌, Bool, false, Option, none, some, [], ◌∷◌, ◌==◌, if◌then◌else◌,
}
use cpu.Kernel.Klib.{CString}
use cpu.Kernel.Disk.{Disk, bread, bfree}

-- `!strcmp(p, name)`, on the string at a place in memory.
unfoldable pub same_at : (ℕ → ℕ) → ℕ → CString → Bool
same_at content p [] = content p == 0
same_at content p (c ∷ s) = if content p == c then same_at content (p + 1) s else false

abbrev pub word_at : (ℕ → ℕ) → ℕ → ℕ
word_at content p = content p + 256 * content (p + 1)

-- `beyond` is a search that leaves the block: the program goes on in the data of the next slot.
pub data Found : Type 0 where
  found : (blk size : ℕ) → Found
  missing beyond : Found

-- The loop of `stat` from the entry `k` on, with `left` entries in the block.
unfoldable pub search : (ℕ → ℕ) → CString → ℕ → ℕ → Found
search content name k zero = beyond
search content name k (suc left) =
    let on = search content name (k + 1) left in
    if content (k * 16) == 0
    then missing
    else if same_at content (k * 16) name
    then found (word_at content (k * 16 + 12)) (word_at content (k * 16 + 14))
    else on

-- The search, once `bread` has given the slot; `none` is a `bread` that does not end.
abbrev pub search_slot : CString → Option (ℕ × Disk) → Option (Found × Disk)
search_slot name none = none
search_slot name (some (i, e)) = some (search (e.block_cache i).content name 0 16, bfree i e)

unfoldable pub stat : CString → Disk → Option (Found × Disk)
stat name d = search_slot name (bread 2 0 0 d)
