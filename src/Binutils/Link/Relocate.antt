-- ===== src/Binutils/Link/Relocate.antt =====
-- binutils/link.c: what `linker_link` leaves in the bytes of one section.
use cpu.Prelude.{
  ℕ, zero, suc, ◌+◌, ◌*◌, ◌/◌, ◌%◌, ◌≤◌, ◌<◌, ◌≡◌, refl, sym, ap, ◌∙◌, subst, ◌⊎◌, inl, inr, Bool,
  true, ◌&&◌, Option, some, List, [], ◌∷◌, arith, ◌==◌, if◌then◌else◌, Option-cases, get_elem?,
  passes_below, passes_below-entry,
}
use cpu.Binutils.Labels.{LabelEntry, LabelUse}
use cpu.Binutils.Section.{low, high}
use cpu.Binutils.Link.{
  Node, Objects, section_of, change_section, locate_from, patch, patch_uses, link_node,
}

halves_table :
    passes_below 512
      (λ h. passes_below 256 (λ l. (low (h * 256 + l) == l) && (high (h * 256 + l) == h % 256)))
    ≡ true
unfolding passes_below low high
halves_table = refl

halves : (x : ℕ) → x < 131072 → ((low x == x % 256) && (high x == x / 256 % 256)) ≡ true
halves x below =
    subst (λ n. ((low n == x % 256) && (high n == x / 256 % 256)) ≡ true)
      {x = x / 256 * 256 + x % 256} {y = x} (omega arith)
      (passes_below-entry 256 _ (x % 256)
        (passes_below-entry 512 _ (x / 256) halves_table (omega arith)) (omega arith))

-- How many bytes a use takes.
abbrev pub width : LabelUse → ℕ
width u = if u.half_word == 0 then 2 else 1

-- The bytes of the use hold `value`: the word, its low byte or its high byte.
abbrev pub holds : LabelUse → ℕ → (ℕ → ℕ) → Bool
holds u value content =
    if u.half_word == 0
    then content u.addr + content (u.addr + 1) * 256 == value % 65536
    else if u.half_word == 1
    then content u.addr == value % 256
    else content u.addr == value / 256 % 256

abbrev pub Outside : ℕ → LabelUse → Type 0
Outside i u = (i < u.addr) ⊎ (u.addr + width u ≤ i)

-- What the mask of a section is: words and halves of words that do not overlap.
abbrev pub Apart : List LabelUse → Type 0
Apart us =
    (j k : ℕ) (u v : LabelUse)
    → j < k
    → get_elem? us j ≡ some u
    → get_elem? us k ≡ some v
    → (u.addr + width u ≤ v.addr) ⊎ (v.addr + width v ≤ u.addr)

-- Each use has an entry, and its address fits 16 bits.
abbrev pub Located : (ℕ → Option LabelEntry) → List LabelUse → Type 0
Located locate us =
    (k : ℕ) (u : LabelUse)
    → get_elem? us k ≡ some u
    → (u.half_word < 3)
      × (u.offset < 65536)
      × ((e : LabelEntry) × (locate u.id ≡ some e) × (e.position < 65536))

patch-holds :
    (u : LabelUse) (value : ℕ) (content : ℕ → ℕ)
    → u.half_word < 3
    → value < 131072
    → holds u value (patch u value content) ≡ true
unfolding patch
patch-holds u value content kind below = ground (arith, halves value below)

patch-Outside :
    (u : LabelUse) (value : ℕ) (content : ℕ → ℕ) (i : ℕ)
    → Outside i u
    → patch u value content i ≡ content i
unfolding patch
patch-Outside u value content i out = ground arith

-- Bytes that no use covers keep their value.
patch_uses-Outside :
    (locate : ℕ → Option LabelEntry) (us : List LabelUse) (content content' : ℕ → ℕ) (i : ℕ)
    → patch_uses locate us content ≡ some content'
    → ((k : ℕ) (u : LabelUse) → get_elem? us k ≡ some u → Outside i u)
    → content' i ≡ content i
unfolding patch_uses
patch_uses-Outside locate [] content content' i run out = cc
patch_uses-Outside locate (u ∷ us) content content' i run out = elim (Option-cases (locate u.id)) [
  | inl missing ↦ cc
  | inr (e, found) ↦
      patch_uses-Outside locate us (patch u (e.position + u.offset) content) content' i
        (ground (arith, found)) (λ k. out (suc k))
      ∙ patch-Outside u (e.position + u.offset) content i (out 0 u refl)
]

holds-agree :
    (u : LabelUse) (value : ℕ) (c d : ℕ → ℕ)
    → c u.addr ≡ d u.addr
    → (u.half_word ≡ 0 → c (u.addr + 1) ≡ d (u.addr + 1))
    → holds u value d ≡ true
    → holds u value c ≡ true
holds-agree u value c d first second h = ground arith

-- The first use of a mask keeps what it was given while the rest is patched.
head-holds :
    (locate : ℕ → Option LabelEntry) (u : LabelUse) (us : List LabelUse) (value : ℕ)
    (content content' : ℕ → ℕ)
    → Apart (u ∷ us)
    → patch_uses locate us content ≡ some content'
    → holds u value content ≡ true
    → holds u value content' ≡ true
head-holds locate u us value content content' apart run h =
    holds-agree u value content' content
      (patch_uses-Outside locate us content content' u.addr run
        (λ k v at. ground (arith, apart 0 (suc k) u v (omega arith) refl at)))
      (λ word.
        patch_uses-Outside locate us content content' (u.addr + 1) run
          (λ k v at. ground (arith, word, apart 0 (suc k) u v (omega arith) refl at)))
      h

-- What patching leaves: every use reads its label's position plus the offset, and nothing else
-- has changed.
abbrev pub Patched : (ℕ → Option LabelEntry) → List LabelUse → (ℕ → ℕ) → (ℕ → ℕ) → Type 0
Patched locate us content content' =
    ((k : ℕ) (u : LabelUse) (e : LabelEntry)
      → get_elem? us k ≡ some u
      → locate u.id ≡ some e
      → holds u (e.position + u.offset) content' ≡ true)
    × ((i : ℕ)
        → ((k : ℕ) (u : LabelUse) → get_elem? us k ≡ some u → Outside i u)
        → content' i ≡ content i)

patch_uses_located :
    (locate : ℕ → Option LabelEntry) (u : LabelUse) (us : List LabelUse) (content : ℕ → ℕ)
    (e : LabelEntry)
    → locate u.id ≡ some e
    → patch_uses locate (u ∷ us) content
      ≡ patch_uses locate us (patch u (e.position + u.offset) content)
unfolding patch_uses
patch_uses_located locate u us content e found = rw (found, patch_uses)

patch_uses-runs :
    (locate : ℕ → Option LabelEntry) (us : List LabelUse) (content : ℕ → ℕ)
    → Located locate us
    → (content' : ℕ → ℕ) × (patch_uses locate us content ≡ some content')
unfolding patch_uses
patch_uses-runs locate [] content located = (content, refl)
patch_uses-runs locate (u ∷ us) content located =
    let (_, _, (e, found, _)) = located 0 u refl in
    let (content', run) =
      patch_uses-runs locate us (patch u (e.position + u.offset) content) (λ k. located (suc k)) in
    (content', patch_uses_located locate u us content e found ∙ run)

uses-hold :
    (locate : ℕ → Option LabelEntry) (us : List LabelUse) (content content' : ℕ → ℕ)
    → Apart us
    → Located locate us
    → patch_uses locate us content ≡ some content'
    → (k : ℕ) (u : LabelUse) (e : LabelEntry) → get_elem? us k ≡ some u
    → locate u.id ≡ some e
    → holds u (e.position + u.offset) content' ≡ true
unfolding patch_uses
uses-hold locate [] content content' apart located run k u e at found = cc
uses-hold locate (v ∷ us) content content' apart located run zero u e at found =
    let (kind, offset_fits, (e', found', fits)) = located 0 v refl in
    let same : v ≡ u = cc in
    let found_v : locate v.id ≡ some e = ap (λ w. locate w.id) same ∙ found in
    let entry : e' ≡ e = cc in
    let below : e.position < 65536 = subst (λ x. x.position < 65536) entry fits in
    subst (λ w. holds w (e.position + w.offset) content' ≡ true) same
      (head-holds locate v us (e.position + v.offset) (patch v (e.position + v.offset) content)
        content' apart (sym (patch_uses_located locate v us content e found_v) ∙ run)
        (patch-holds v (e.position + v.offset) content kind (omega arith)))
uses-hold locate (v ∷ us) content content' apart located run (suc k) u e at found =
    let (kind, offset_fits, (e', found', fits)) = located 0 v refl in
    uses-hold locate us (patch v (e'.position + v.offset) content) content'
      (λ i j x y below. apart (suc i) (suc j) x y (omega arith)) (λ i. located (suc i))
      (sym (patch_uses_located locate v us content e' found') ∙ run) k u e at found

-- Linking a used section whose uses are words and halves of words that do not overlap, and are all
-- located at 16-bit positions, succeeds and changes only the contents of that section: every use
-- holds the position of its label plus its offset, as a word modulo 2 ^ 16 or as the byte that it
-- asks for, and every byte outside the uses is kept.
pub link_node_lem :
    (n : Node) (o : Objects)
    → n.used ≡ true
    → Apart (section_of o n).label_mask
    → Located (locate_from n o) (section_of o n).label_mask
    → (content : ℕ → ℕ) × (link_node n o
        ≡ some (change_section n (λ s. record s { content = content }) o))
      × Patched (locate_from n o) (section_of o n).label_mask (section_of o n).content content
unfolding link_node
link_node_lem n o used apart located =
    let locate = locate_from n o in
    let mask = (section_of o n).label_mask in
    let before = (section_of o n).content in
    let (content, run) = patch_uses-runs locate mask before located in
    (
      content,
      rw (used, run),
      (
        uses-hold locate mask before content apart located run,
        λ i. patch_uses-Outside locate mask before content i run,
      ),
    )
