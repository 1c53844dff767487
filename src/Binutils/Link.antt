-- ===== src/Binutils/Link.antt =====
-- binutils/link.c: the placement of sections, the search for labels, and the patching of the places
-- where labels are used.
pub mod Layout
pub mod Image
pub mod Locate
pub mod Relocate
use cpu.Prelude.{
  ℕ, zero, suc, ◌+◌, ◌≡◌, Bool, true, false, ◌&&◌, not, Option, none, some, List, [], ◌∷◌, ◌++◌,
  u16, ltb, ◌==◌, if◌then◌else◌, update,
}
use cpu.Binutils.Text.{Text}
use cpu.Binutils.Labels.{LabelEntry, LabelUse, find, find_by_id}
use cpu.Binutils.Section.{low, high, bytes}

-- A section as the linker uses it, the label vector and the mask read as their records.
pub record LinkSection : Type 0 where
  pub name : Text
  pub executable : Bool
  pub content : ℕ → ℕ
  pub data_pos : ℕ
  pub label_vec : List LabelEntry
  pub label_mask : List LabelUse

-- The loaded files. A section is named by its file and its number there, which stand for the
-- pointer that nodes and files share.
pub record Objects : Type 0 where
  pub loaded_files : ℕ
  pub n_sections : ℕ → ℕ
  pub sections : ℕ → ℕ → LinkSection

pub record Node : Type 0 where
  pub origin : ℕ
  pub section : ℕ
  pub used : Bool
  pub start : ℕ

pub record SectionDict : Type 0 where
  pub name : Text
  pub executable : Bool
  pub list : List Node

abbrev pub section_of : Objects → Node → LinkSection
section_of o n = o.sections n.origin n.section

-- A write through the pointer to a section.
abbrev pub change_section : Node → (LinkSection → LinkSection) → Objects → Objects
change_section n f o = record o {
  sections =
      update o.sections n.origin (update (o.sections n.origin) n.section (f (section_of o n)));
}

-- Whether `t` starts with `s`, and whether `s` is somewhere in `t`, as `strstr` tells.
unfoldable pub is_prefix : Text → Text → Bool
is_prefix [] t = true
is_prefix (a ∷ s) [] = false
is_prefix (a ∷ s) (b ∷ t) = (a == b) && is_prefix s t

unfoldable pub contains : Text → Text → Bool
contains s [] = is_prefix s []
contains s (b ∷ t) = if is_prefix s (b ∷ t) then true else contains s t

abbrev pub bss_name : Text
bss_name = b'b' ∷ b's' ∷ b's' ∷ []

unfoldable pub is_bss : SectionDict → Bool
is_bss d = contains bss_name d.name

-- Placement.
unfoldable pub offset_label : ℕ → LabelEntry → LabelEntry
offset_label c_off e = if e.present then record e { position = u16 (e.position + c_off) } else e

unfoldable pub offset_entries : ℕ → List LabelEntry → List LabelEntry
offset_entries c_off [] = []
offset_entries c_off (e ∷ es) = offset_label c_off e ∷ offset_entries c_off es

abbrev pub offset_section : ℕ → LinkSection → LinkSection
offset_section c_off s = record s { label_vec = offset_entries c_off s.label_vec }

pub record Placed (A : Type 0) : Type 0 where
  pub items : A
  pub objects : Objects
  pub c_off : ℕ

-- `c_off` and the files behind one node.
abbrev pub next_off : ℕ → Node → Objects → ℕ
next_off c_off n o = if n.used then u16 (c_off + (section_of o n).data_pos) else c_off

abbrev pub place_labels : ℕ → Node → Objects → Objects
place_labels c_off n o = if n.used then change_section n (offset_section c_off) o else o

-- The loop over the nodes of one list.
unfoldable pub place_nodes : ℕ → List Node → Objects → Placed (List Node)
place_nodes c_off [] o = record { items = []; objects = o; c_off = c_off }
place_nodes c_off (n ∷ ns) o =
    let n' = if n.used then record n { start = c_off } else n in
    let rest = place_nodes (next_off c_off n o) ns (place_labels c_off n o) in
    record rest { items = n' ∷ rest.items }

-- `if(c_off < bss_offset) c_off = bss_offset;` for the sections of that name.
unfoldable pub bump : ℕ → SectionDict → ℕ → ℕ
bump bss_offset d c_off =
    if is_bss d then (if ltb c_off bss_offset then bss_offset else c_off) else c_off

unfoldable pub place_dicts : ℕ → ℕ → List SectionDict → Objects → Placed (List SectionDict)
place_dicts bss_offset c_off [] o = record { items = []; objects = o; c_off = c_off }
place_dicts bss_offset c_off (d ∷ ds) o =
    let placed = place_nodes (bump bss_offset d c_off) d.list o in
    let rest = place_dicts bss_offset placed.c_off ds placed.objects in
    record rest { items = record d { list = placed.items } ∷ rest.items }

abbrev pub linker_offset_labels : ℕ → ℕ → List SectionDict → Objects → Placed (List SectionDict)
linker_offset_labels bss_offset start_offset sects o = place_dicts bss_offset start_offset sects o

-- The search for the label of a use.
unfoldable pub upto {ℓ} : {A : Type ℓ} → (ℕ → A) → ℕ → ℕ → List A
upto f i zero = []
upto f i (suc n) = f i ∷ upto f (i + 1) n

abbrev pub file_sections : Objects → ℕ → List LinkSection
file_sections o file = upto (o.sections file) 0 (o.n_sections file)

unfoldable pub all_sections : Objects → ℕ → ℕ → List LinkSection
all_sections o file zero = []
all_sections o file (suc n) = file_sections o file ++ all_sections o (file + 1) n

abbrev pub latest : LabelEntry → Option LabelEntry → LabelEntry
latest e none = e
latest e (some found) = found

-- The last entry found stays in `e`, which is tested at every section.
unfoldable pub search_file : Text → LabelEntry → List LinkSection → Option LabelEntry
search_file label e [] = none
search_file label e (s ∷ ss) =
    let e' = latest e (find label s.label_vec) in
    if e'.present then some e' else search_file label e' ss

unfoldable pub search_exports : Text → List LinkSection → Option LabelEntry
search_exports label [] = none
search_exports label (s ∷ ss) = elim (find label s.label_vec) [
  | none ↦ search_exports label ss
  | some e ↦ if e.present && e.export then some e else search_exports label ss
]

-- `none` where the program stops: at a symbol that is not found, and at an id that the label vector
-- does not have, whose null pointer is read before it is tested.
unfoldable pub find_located_label : ℕ → LinkSection → ℕ → Objects → Option LabelEntry
find_located_label id sect origin o = elim (find_by_id id sect.label_vec) [
  | none ↦ none
  | some e ↦ if e.present then some e else elim (search_file e.name e (file_sections o origin)) [
    | some located ↦ some located
    | none ↦ search_exports e.name (all_sections o 0 o.loaded_files)
  ]
]

-- Patching.
unfoldable pub patch : LabelUse → ℕ → (ℕ → ℕ) → ℕ → ℕ
patch u value content =
    if u.half_word == 0
    then update (update content u.addr (low value)) (u.addr + 1) (high value)
    else if u.half_word == 1
    then update content u.addr (low value)
    else if u.half_word == 2
    then update content u.addr (high value)
    else content

-- The loop over the mask of one section; `locate` is the search for an id.
unfoldable pub patch_uses : (ℕ → Option LabelEntry) → List LabelUse → (ℕ → ℕ) → Option (ℕ → ℕ)
patch_uses locate [] content = some content
patch_uses locate (u ∷ us) content = elim (locate u.id) [
  | none ↦ none
  | some e ↦ patch_uses locate us (patch u (e.position + u.offset) content)
]

-- The search from a node's own section and file.
abbrev pub locate_from : Node → Objects → ℕ → Option LabelEntry
locate_from n o id = find_located_label id (section_of o n) n.origin o

unfoldable pub link_node : Node → Objects → Option Objects
link_node n o =
    if n.used
    then elim (patch_uses (locate_from n o) (section_of o n).label_mask (section_of o n).content) [
      | none ↦ none
      | some content ↦ some (change_section n (λ s. record s { content = content }) o)
    ]
    else some o

unfoldable pub link_nodes : List Node → Objects → Option Objects
link_nodes [] o = some o
link_nodes (n ∷ ns) o = elim (link_node n o) [ none ↦ none | some o' ↦ link_nodes ns o' ]

unfoldable pub linker_link : List SectionDict → Objects → Option Objects
linker_link [] o = some o
linker_link (d ∷ ds) o = elim (link_nodes d.list o) [ none ↦ none | some o' ↦ linker_link ds o' ]

-- The bytes that `main` writes in its binary form.
abbrev pub chunk : Objects → Node → List ℕ
chunk o n = if n.used then bytes (section_of o n).content 0 (section_of o n).data_pos else []

unfoldable pub image_nodes : Objects → List Node → List ℕ
image_nodes o [] = []
image_nodes o (n ∷ ns) = chunk o n ++ image_nodes o ns

unfoldable pub image : Objects → List SectionDict → List ℕ
image o [] = []
image o (d ∷ ds) = (if is_bss d then [] else image_nodes o d.list) ++ image o ds
