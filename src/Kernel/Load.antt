-- ===== src/Kernel/Load.antt =====
-- software/kernel/proc.c, `load_process`: a file is read page by page through the window at 0xA000, which
-- entry 0xA of table 0 of the memory unit maps to the page. Physical memory is pages of 4096 bytes, which
-- every read and write finds through the memory unit.
pub mod Window
pub mod Loaded
use cpu.Prelude.{
  ℕ, zero, suc, ◌+◌, ◌-◌, ◌*◌, ◌/◌, ◌%◌, ◌^◌, ◌≤◌, ◌<◌, bit_and, bit_or, bit_xor, for_up, ◌≡◌, refl,
  sym, ap, ap₂, ◌∙◌, subst, fun_ext, ◌≢◌, ◌↔◌, ◌⊎◌, inl, inr, Bool, true, false, not, ◌&&◌, ◌||◌,
  Option, none, some, List, [], ◌∷◌, ◌++◌, map, arith, ltb, leb, ◌==◌, ==_iff, ==_refl, ==_ne,
  if◌then◌else◌, Bool-cases, Option-cases, length, get_elem?, length-append, get_elem-append_right,
  get_elem-append_left, u8, u16, u32, ◌<<<◌, ◌>>>◌, passes_below, passes_below-entry, update,
}
use cpu.Kernel.Klib.{CString}
use cpu.Kernel.Mmu.{Mmu, tlb_base, tlbf_base, offset, mmu_on, mmu_off, write_tlb}
use cpu.Kernel.Disk.{Disk, read_file}
use cpu.Kernel.Directory.{Found, found, missing, beyond, stat}

abbrev pub window : ℕ
window = 0xA000

-- The memory unit, the bytes of each physical page, and the storage.
pub record Loader : Type 0 where
  pub mmu : Mmu
  pub physical : ℕ → ℕ → ℕ
  pub disk : Disk

-- The window is mapped to a page.
unfoldable pub map_window : ℕ → Loader → Loader
map_window page l = record l { mmu = mmu_on (write_tlb 0 0xa page 0xff (mmu_off l.mmu)) }

-- The physical page that the memory unit selects: by the entry of the current index, where paging is on.
unfoldable pub page_of : Mmu → ℕ → ℕ
page_of m page = if m.paging then m.tlb (tlb_base + offset m.tlb_index page) else page

-- What a read of an address gives, where it is permitted.
unfoldable pub view : Loader → ℕ → ℕ
view l a = l.physical (page_of l.mmu (a / 0x1000)) (a % 0x1000)

-- Whether a page may be written to: bit 1 of its flags, where paging is on.
unfoldable pub writable : Mmu → ℕ → Bool
writable m page =
    if m.paging then not (bit_and (m.tlb (tlbf_base + offset m.tlb_index page)) 0x02 == 0) else true

-- A write to an address. Without permission it is a fault, and stores nothing.
unfoldable pub store : Mmu → ℕ → ℕ → (ℕ → ℕ → ℕ) → ℕ → ℕ → ℕ
store m a byte physical =
    let page = page_of m (a / 0x1000) in
    if writable m (a / 0x1000)
    then update physical page (update (physical page) (a % 0x1000) byte)
    else physical

-- The bytes from `dest` on, written one after the other, and the storage that was read.
unfoldable pub store_view : ℕ → ℕ → Loader → (ℕ → ℕ) × Disk → Loader
store_view dest n l (memory, disk) = record l {
  physical =
      for_up n (λ k physical. store l.mmu (u16 (dest + k)) (memory (u16 (dest + k))) physical)
        l.physical;
  disk = disk;
}

abbrev pub and_then {ℓ} : {A B : Type ℓ} → Option A → (A → Option B) → Option B
and_then none f = none
and_then (some a) f = f a

-- The part of the file that goes into one page.
unfoldable pub load_page : ℕ → ℕ → ℕ → ℕ → Loader → Option Loader
load_page page blk already now l =
    let mapped = map_window page l in
    and_then (read_file window blk already now (view mapped) mapped.disk)
      (λ r. some (store_view window now mapped r))

abbrev pub read_now : ℕ → ℕ
read_now left = if ltb 0x1000 left then 0x1000 else left

-- The loop, one unit of fuel for each page and one for the test that ends it.
unfoldable pub load_loop : ℕ → (ℕ → ℕ) → ℕ → ℕ → ℕ → ℕ → Loader → Option Loader
load_loop zero pages blk left already target l = none
load_loop (suc fuel) pages blk left already target l =
    if left == 0
    then some l
    else and_then (load_page (pages target) blk already (read_now left) l) (λ l'.
      load_loop fuel pages blk (left - read_now left) (u16 (already + read_now left))
        (u8 (target + 1)) l')

-- `load_process` on the pages of the process; where there is no such file, a message is all.
abbrev pub load_found : (ℕ → ℕ) → Loader → Found × Disk → Option Loader
load_found pages l (missing, disk) = some (record l { disk = disk })
load_found pages l (beyond, disk) = none
load_found pages l (found blk size, disk) =
    load_loop 17 pages blk size 0 0 (record l { disk = disk })

unfoldable pub load_process : CString → (ℕ → ℕ) → Loader → Option Loader
load_process path pages l = and_then (stat path l.disk) (load_found pages l)
