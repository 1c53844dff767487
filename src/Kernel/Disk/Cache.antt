-- ===== src/Kernel/Disk/Cache.antt =====
-- software/kernel/blk.c: `bread` gives the bytes of the block that it is asked for.
use cpu.Prelude.{
  ℕ, zero, suc, ◌+◌, ◌≤◌, ◌<◌, for_up, ◌≡◌, refl, sym, ap, ◌∙◌, subst, ◌⊎◌, inl, inr, Bool, true,
  false, none, some, arith, ◌==◌, ==_refl, ==_ne, Bool-cases, Option-cases, update,
}
use cpu.Kernel.Disk.{
  Block, Disk, block_free, block_used, block_cache_size, ata_read_block, sync_slot, block_sync,
  first_slot, holds_block, is_free, take_again, fill_slot, bread, bfree,
}

-- A slot that is not given out: it is free, or has the bytes of its block.
abbrev pub Idle : Block → Disk → Type 0
Idle blk d =
    (blk.cnt ≡ 0)
    × ((blk.flags ≡ block_free)
        ⊎ ((blk.flags ≡ block_used) × (blk.content ≡ ata_read_block blk.n d.storage)))

abbrev pub Ready : Disk → Type 0
Ready d = (i : ℕ) → i < block_cache_size → Idle (d.block_cache i) d

first_slot-some :
    (test : Block → Bool) (cache : ℕ → Block) (i left k : ℕ)
    → first_slot test cache i left ≡ some k
    → (test (cache k) ≡ true) × (k < i + left)
unfolding first_slot
first_slot-some test cache i zero k found = absurd cc
first_slot-some test cache i (suc left) k found = elim (Bool-cases (test (cache i))) [
  | inl hit ↦
      let same : i ≡ k = ground (arith, hit) in
      (subst (λ j. test (cache j) ≡ true) same hit, omega (arith, same))
  | inr miss ↦
      let (hit, below) = first_slot-some test cache (i + 1) left k (ground (arith, miss)) in
      (hit, omega (arith, below))
]

first_slot-none :
    (test : Block → Bool) (cache : ℕ → Block) (i left k : ℕ)
    → first_slot test cache i left ≡ none
    → i ≤ k
    → k < i + left
    → test (cache k) ≡ false
unfolding first_slot
first_slot-none test cache i zero k none_found from below = absurd (omega arith)
first_slot-none test cache i (suc left) k none_found from below =
    elim (Bool-cases (test (cache i))) [
      | inl hit ↦ absurd (ground (arith, hit))
      | inr miss ↦ elim (Bool-cases (i == k)) [
        | inl same ↦ subst (λ j. test (cache j) ≡ false) {x = i} {y = k} (ground (arith, same)) miss
        | inr later ↦
            first_slot-none test cache (i + 1) left k (ground (arith, miss)) (ground (arith, later))
              (omega arith)
      ]
    ]

abbrev freed : ℕ → Disk → Disk
freed i d = record d {
  block_cache = update d.block_cache i (record (d.block_cache i) { flags = block_free });
}

sync_slot-idle :
    (i : ℕ) (d : Disk)
    → (d.block_cache i).cnt ≡ 0
    → ((d.block_cache i).flags ≡ block_free) ⊎ ((d.block_cache i).flags ≡ block_used)
    → sync_slot i d ≡ freed i d
unfolding sync_slot
sync_slot-idle i d no_user clean = ground arith

flags-Idle :
    (blk : Block) (d : Disk) → Idle blk d → (blk.flags ≡ block_free) ⊎ (blk.flags ≡ block_used)
flags-Idle blk d (no_user, inl free) = inl free
flags-Idle blk d (no_user, inr (used, same)) = inr used

-- After `block_sync` in a state with all slots idle, they are all free.
sync-free :
    (top : ℕ) (d : Disk)
    → top ≤ block_cache_size
    → Ready d
    → ((for_up top sync_slot d).storage ≡ d.storage)
      × ((i : ℕ)
          → i < block_cache_size
          → ((for_up top sync_slot d).block_cache i).cnt ≡ 0
            × (i < top → ((for_up top sync_slot d).block_cache i).flags ≡ block_free)
            × (top ≤ i → (for_up top sync_slot d).block_cache i ≡ d.block_cache i))
sync-free zero d small ready =
    (refl, λ i below. ((ready i below).0, λ h. absurd (omega arith), λ h. refl))
sync-free (suc top) d small ready =
    let e = for_up top sync_slot d in
    let (storage, slots) = sync-free top d (omega arith) ready in
    let (no_user, free, kept) = slots top (omega arith) in
    let old : e.block_cache top ≡ d.block_cache top = kept (omega arith) in
    let clean =
      subst (λ blk. (blk.flags ≡ block_free) ⊎ (blk.flags ≡ block_used)) (sym old)
        (flags-Idle (d.block_cache top) d (ready top (omega arith))) in
    rw (sync_slot-idle top e no_user clean) (
      storage,
      λ i below.
          let (none_here, free_here, kept_here) = slots i below in
          (
            ground (arith, none_here, no_user),
            λ h. ground (arith, free_here),
            λ h. rw (==_ne i top (omega arith)) (kept_here (omega arith)),
          ),
    )

-- What `bread` gives for the block `n` of the state `d`: a slot with its bytes, in a state that is
-- ready again when the slot is given back.
pub record Served (n : ℕ) (d : Disk) (i : ℕ) (e : Disk) : Type 0 where
  pub slot : i < block_cache_size
  pub content : (e.block_cache i).content ≡ ata_read_block n d.storage
  pub given_back : Ready (bfree i e)
  pub storage : e.storage ≡ d.storage

holds-content :
    (device n : ℕ) (blk : Block) (d : Disk)
    → (blk.flags ≡ block_free)
      ⊎ ((blk.flags ≡ block_used) × (blk.content ≡ ata_read_block blk.n d.storage))
    → holds_block device n blk ≡ true
    → blk.content ≡ ata_read_block n d.storage
holds-content device n blk d (inl free) holds = absurd (ground arith)
holds-content device n blk d (inr (used, same)) holds =
    let number : blk.n ≡ n = ground arith in same ∙ ap (λ m. ata_read_block m d.storage) number

take_again-Served :
    (device n i : ℕ) (d : Disk)
    → Ready d
    → i < block_cache_size
    → holds_block device n (d.block_cache i) ≡ true
    → Served n d i (take_again i d)
unfolding bfree
take_again-Served device n i d ready below holds =
    let (no_user, state) = ready i below in
    record {
      slot = below;
      content = rw (==_refl i) (holds-content device n (d.block_cache i) d state holds);
      given_back = λ k small. elim (Bool-cases (k == i)) [
        | inl same ↦ rw (same, ==_refl i) (omega (arith, no_user), state)
        | inr other ↦ rw other (ready k small)
      ];
      storage = refl;
    }

fill_slot-Served :
    (device n i : ℕ) (d : Disk)
    → Ready d
    → i < block_cache_size
    → Served n d i (fill_slot device n i d)
unfolding bfree
fill_slot-Served device n i d ready below = record {
  slot = below;
  content = rw (==_refl i) refl;
  given_back = λ k small. elim (Bool-cases (k == i)) [
    | inl same ↦ rw (same, ==_refl i) (refl, inr (refl, refl))
    | inr other ↦ rw other (ready k small)
  ];
  storage = refl;
}

-- A round of `bread` where a slot can be had.
free_slot-round :
    (fuel device n i : ℕ) (d : Disk)
    → first_slot (holds_block device n) d.block_cache 0 block_cache_size ≡ none
    → first_slot is_free d.block_cache 0 block_cache_size ≡ some i
    → bread (suc fuel) device n d ≡ some (i, fill_slot device n i d)
unfolding bread
free_slot-round fuel device n i d missing free = rw (missing, bread) (rw (free, bread) refl)

sync_round :
    (fuel device n : ℕ) (d : Disk)
    → first_slot (holds_block device n) d.block_cache 0 block_cache_size ≡ none
    → first_slot is_free d.block_cache 0 block_cache_size ≡ none
    → bread (suc fuel) device n d ≡ bread fuel device n (block_sync d)
unfolding bread
sync_round fuel device n d missing full = ground (arith, missing, full)

AllFree : (ℕ → Block) → Type 0
AllFree cache = (i : ℕ) → i < block_cache_size → (cache i).flags ≡ block_free

AllFree-missing :
    (device n : ℕ) (cache : ℕ → Block)
    → AllFree cache
    → first_slot (holds_block device n) cache 0 block_cache_size ≡ none
unfolding AllFree
AllFree-missing device n cache free =
    elim (Option-cases (first_slot (holds_block device n) cache 0 block_cache_size)) [
      | inl missing ↦ missing
      | inr (k, found) ↦
          let (holds, below) =
            first_slot-some (holds_block device n) cache 0 block_cache_size k found in
          absurd (ground (arith, free k (omega (arith, below))))
    ]

AllFree-found :
    (cache : ℕ → Block)
    → AllFree cache
    → (k : ℕ) × (first_slot is_free cache 0 block_cache_size ≡ some k) × (k < block_cache_size)
unfolding AllFree
AllFree-found cache free = elim (Option-cases (first_slot is_free cache 0 block_cache_size)) [
  | inl missing ↦
      let taken =
        first_slot-none is_free cache 0 block_cache_size 0 missing (omega arith) (omega arith) in
      absurd (ground (arith, free 0 (omega arith)))
  | inr (k, found) ↦
      let (test, below) = first_slot-some is_free cache 0 block_cache_size k found in
      (k, found, omega (arith, below))
]

sync-Ready :
    (d : Disk)
    → Ready d
    → ((block_sync d).storage ≡ d.storage)
      × Ready (block_sync d)
      × AllFree (block_sync d).block_cache
unfolding block_sync AllFree
sync-Ready d ready =
    let (storage, slots) = sync-free block_cache_size d (omega arith) ready in
    (
      storage,
      λ i below. ((slots i below).0, inl ((slots i below).1 below)),
      λ i below. (slots i below).1 below,
    )

again-round :
    (fuel device n i : ℕ) (d : Disk)
    → first_slot (holds_block device n) d.block_cache 0 block_cache_size ≡ some i
    → bread (suc fuel) device n d ≡ some (i, take_again i d)
unfolding bread
again-round fuel device n i d found = ground (arith, found)

-- From a state with no slot given out, `bread` ends within two rounds with a slot that has the
-- bytes of the block on the storage; once the slot is given back, the state is such a state again.
pub bread-Served :
    (device n : ℕ) (d : Disk)
    → Ready d
    → (i : ℕ) × (e : Disk) × (bread 2 device n d ≡ some (i, e)) × Served n d i e
bread-Served device n d ready =
    elim (Option-cases (first_slot (holds_block device n) d.block_cache 0 block_cache_size)) [
      | inr (i, found) ↦
          let (holds, below) =
            first_slot-some (holds_block device n) d.block_cache 0 block_cache_size i found in
          (
            i,
            take_again i d,
            again-round 1 device n i d found,
            take_again-Served device n i d ready (omega (arith, below)) holds,
          )
      | inl missing ↦ elim (Option-cases (first_slot is_free d.block_cache 0 block_cache_size)) [
        | inr (i, free) ↦
            let (test, below) = first_slot-some is_free d.block_cache 0 block_cache_size i free in
            (
              i,
              fill_slot device n i d,
              free_slot-round 1 device n i d missing free,
              fill_slot-Served device n i d ready (omega (arith, below)),
            )
        | inl full ↦
            let s = block_sync d in
            let (storage, ready_s, free_s) = sync-Ready d ready in
            let (i, free, below) = AllFree-found s.block_cache free_s in
            let served = fill_slot-Served device n i s ready_s below in
            (
              i,
              fill_slot device n i s,
              sync_round 1 device n d missing full
                  ∙ free_slot-round 0 device n i s (AllFree-missing device n s.block_cache free_s)
                      free,
              record {
                slot = below;
                content = served.content ∙ ap (ata_read_block n) storage;
                given_back = served.given_back;
                storage = storage;
              },
            )
      ]
    ]
