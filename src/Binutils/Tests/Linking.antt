-- ===== src/Binutils/Tests/Linking.antt =====
-- binutils/link.c: two files that are linked.
use cpu.Prelude.{
  ℕ, zero, suc, ◌+◌, ◌<◌, ◌≡◌, refl, subst, ◌≢◌, ◌↔◌, Bool, true, false, Option, none, some, List,
  [], ◌∷◌, arith, ◌==◌, if◌then◌else◌, get_elem?,
}
use cpu.Binutils.Text.{Text, codes, str_eq}
use cpu.Binutils.Sort.{sect_comparator, by_rank, flip, sect_comparator_lem}
use cpu.Binutils.Labels.{LabelEntry, LabelUse, find, find_by_id}
use cpu.Binutils.Section.{low, high, bytes}
use cpu.Binutils.Link.{
  LinkSection, image_nodes, Placed, Objects, Node, SectionDict, section_of, is_prefix, contains,
  is_bss, linker_offset_labels, linker_link, image, link_node, locate_from, find_located_label,
  change_section, place_dicts, place_nodes, bump, offset_entries, offset_label, patch, patch_uses,
  link_nodes, search_file, search_exports, all_sections, upto,
}
use cpu.Binutils.Dict.{new_node}
use cpu.Binutils.Link.Layout.{nodes_size}
use cpu.Binutils.Link.Image.{all_nodes, NoBss, linker_image}
use cpu.Binutils.Link.Locate.{Outcome, find_located_label_lem}
use cpu.Binutils.Link.Relocate.{Apart, Located, Patched, link_node_lem}
use cpu.Binutils.Reach.{
  Used, mark, none_used, done, out_of_fuel, mark_used_sects, entry_name, require_label,
  require_entries, provider, exported_by, present_in_file, find_section_in_dict,
}
use cpu.Binutils.Reach.Needed.{Needed, mark_used_sects-Needed}
use cpu.Binutils.Reach.Fuel.{mark_used_sects-ends}
use cpu.Binutils.Tests.{foo, entry_label}

-- Two files with a section "text" each; the first has the entry and uses foo, which the second
-- exports.
abbrev text_name : Text
text_name = b't' ∷ b'e' ∷ b'x' ∷ b't' ∷ []

abbrev entry_section : LinkSection
entry_section = record {
  name = text_name;
  executable = true;
  content = λ i. 0;
  data_pos = 4;
  label_vec = entry_label 0 entry_name 0 true ∷ entry_label 1 foo 0 false ∷ [];
  label_mask = record { addr = 1; offset = 2; id = 1; half_word = 0 } ∷ [];
}

abbrev foo_section : LinkSection
foo_section = record {
  name = text_name;
  executable = true;
  content = λ i. i + 9;
  data_pos = 5;
  label_vec = entry_label 2 foo 3 true ∷ [];
  label_mask = [];
}

abbrev two_files : Objects
two_files = record {
  loaded_files = 2;
  n_sections = λ file. 1;
  sections = λ file s. if file == 0 then entry_section else foo_section;
}

abbrev node : ℕ → Node
node file = record { origin = file; section = 0; used = true; start = 0 }

abbrev two_marked : Used
two_marked = mark (node 1) (mark (node 0) none_used)

mark_used_sects-two_files : mark_used_sects two_files (node 0 ∷ node 1 ∷ []) ≡ done two_marked
unfolding mark_used_sects require_label require_entries provider exported_by find present_in_file
    find_section_in_dict str_eq
mark_used_sects-two_files = refl

mark_used_sects-Needed_example :
    (two_marked 1 0 ≡ true) ↔ Needed two_files (node 0 ∷ node 1 ∷ []) 1 0
mark_used_sects-Needed_example =
    mark_used_sects-Needed two_files (node 0 ∷ node 1 ∷ []) two_marked mark_used_sects-two_files 1 0

mark_used_sects-ends_example : mark_used_sects two_files (node 0 ∷ node 1 ∷ []) ≢ out_of_fuel
mark_used_sects-ends_example = mark_used_sects-ends two_files (node 0 ∷ node 1 ∷ [])

abbrev text_dict : SectionDict
text_dict = record { name = text_name; executable = true; list = node 0 ∷ node 1 ∷ [] }

text_dict-NoBss : NoBss (text_dict ∷ [])
unfolding is_bss contains is_prefix
text_dict-NoBss zero d at = let same : text_dict ≡ d = cc in subst (λ x. is_bss x ≡ false) same refl
text_dict-NoBss (suc k) d at = absurd cc

find_located_label_lem_example :
    Outcome (entry_label 1 foo 0 false) 0 two_files (find_located_label 1 entry_section 0 two_files)
find_located_label_lem_example =
    find_located_label_lem 1 entry_section 0 two_files (entry_label 1 foo 0 false)
      (unfold find_by_id in refl)

abbrev foo_use : LabelUse
foo_use = record { addr = 1; offset = 2; id = 1; half_word = 0 }

foo_use-Apart : Apart (foo_use ∷ [])
foo_use-Apart j zero u v below first second = absurd (omega arith)
foo_use-Apart j (suc k) u v below first second = absurd cc

foo_use-Located : Located (locate_from (node 0) two_files) (foo_use ∷ [])
unfolding find_located_label find_by_id search_file search_exports all_sections upto find str_eq
foo_use-Located zero u at =
    let same : foo_use ≡ u = cc in
    subst
      (λ u.
        (u.half_word < 3)
        × (u.offset < 65536)
        × ((e : LabelEntry) × (locate_from (node 0) two_files u.id ≡ some e)
            × (e.position < 65536)))
      same (omega arith, omega arith, (entry_label 2 foo 3 true, refl, omega arith))
foo_use-Located (suc k) u at = absurd cc

link_node_lem_example :
    (content : ℕ → ℕ) × (link_node (node 0) two_files
      ≡ some (change_section (node 0) (λ s. record s { content = content }) two_files))
    × Patched (locate_from (node 0) two_files) (foo_use ∷ []) entry_section.content content
link_node_lem_example = link_node_lem (node 0) two_files refl foo_use-Apart foo_use-Located

-- The two files placed from 0x100 on, and linked.
abbrev placed_files : Placed (List SectionDict)
placed_files = linker_offset_labels 0 256 (text_dict ∷ []) two_files

abbrev or_else : Objects → Option Objects → Objects
or_else o none = o
or_else o (some linked) = linked

abbrev linked_files : Objects
linked_files = or_else two_files (linker_link placed_files.items placed_files.objects)

linker_link-placed_files : linker_link placed_files.items placed_files.objects ≡ some linked_files
unfolding linker_link link_nodes link_node place_dicts place_nodes bump is_bss contains is_prefix
    offset_entries offset_label patch_uses patch find_located_label find_by_id search_file
    search_exports all_sections upto find str_eq
linker_link-placed_files = refl

-- The word at 1 is 0x100 + 4 + 3 + 2.
image-linked_files :
    image linked_files placed_files.items ≡ 0 ∷ 9 ∷ 1 ∷ 0 ∷ 9 ∷ 10 ∷ 11 ∷ 12 ∷ 13 ∷ []
unfolding image image_nodes bytes low high linker_link link_nodes link_node place_dicts place_nodes
    bump is_bss contains is_prefix offset_entries offset_label patch_uses patch find_located_label
    find_by_id search_file search_exports all_sections upto find str_eq
image-linked_files = refl

linker_image_example :
    (get_elem? (all_nodes placed_files.items) 1
      ≡ some (record (node 1) { start = 256 + nodes_size two_files (node 0 ∷ []) }))
    × ((i : ℕ)
        → i < 5
        → get_elem? (image linked_files placed_files.items) (nodes_size two_files (node 0 ∷ []) + i)
          ≡ some ((section_of linked_files (node 1)).content i))
linker_image_example =
    linker_image 0 256 (text_dict ∷ []) [] two_files linked_files (node 0 ∷ []) (node 1) []
      text_dict-NoBss (unfold all_nodes in refl) refl (unfold nodes_size in omega arith)
      linker_link-placed_files

abbrev text_lists : List SectionDict
text_lists =
    record { name = text_name; executable = true; list = new_node 0 0 ∷ new_node 1 0 ∷ [] } ∷ []

abbrev dict_of : Text → Bool → SectionDict
dict_of name executable = record { name = name; executable = executable; list = [] }

-- Code before variables, and the sign the other way round.
sect_comparator_lem_example :
    (sect_comparator (dict_of (codes "text") true) (dict_of (codes "data") false)
      ≡ by_rank (dict_of (codes "text") true) (dict_of (codes "data") false))
    × (sect_comparator (dict_of (codes "data") false) (dict_of (codes "text") true)
        ≡ flip (sect_comparator (dict_of (codes "text") true) (dict_of (codes "data") false)))
unfolding str_eq
sect_comparator_lem_example =
    sect_comparator_lem (dict_of (codes "text") true) (dict_of (codes "data") false) refl
