-- ===== src/Binutils/Tests.antt =====
-- binutils/labels.c and sections.c: runs and instances.
mod Assembling
mod Instructions
mod Linking
use cpu.Prelude.{
  ℕ, zero, suc, ◌+◌, ◌-◌, ◌*◌, ◌/◌, ◌%◌, ◌^◌, ◌≤◌, ◌<◌, bit_and, bit_or, bit_xor, for_up, ◌≡◌, refl,
  sym, ap, ap₂, ◌∙◌, subst, fun_ext, ◌≢◌, ◌↔◌, inl, inr, Bool, true, false, not, ◌&&◌, ◌||◌, Option,
  some, List, [], ◌∷◌, ◌++◌, map, arith, ltb, leb, ◌==◌, ==_iff, ==_refl, ==_ne, if◌then◌else◌,
  Bool-cases, Option-cases, length, get_elem?, length-append, get_elem-append_right,
  get_elem-append_left, u8, u16, ◌<<<◌, ◌>>>◌, passes_below, passes_below-entry, update,
}
use cpu.Binutils.Text.{Text, str_eq, strchr, before, digits_value}
use cpu.Binutils.Labels.{
  LabelEntry, LabelUse, Labels, find, find_by_id, find_label, find_label_by_id, find_or_create,
  placed, mark_label_use, label_name, label_offset, next_sign, offset_sum, atoi16,
}
use cpu.Binutils.Labels.Find.{find-mark_label_position}
use cpu.Binutils.Labels.Ids.{IsValid, used, mark_label_use_resolves}
use cpu.Binutils.Labels.Offsets.{label_name_lem}
use cpu.Binutils.Section.{low, high, bytes, Section, serialize_section, deserialize_section}
use cpu.Binutils.Section.RoundTrip.{Agrees, deserialize-serialize_section}
use cpu.Binutils.Link.{
  LinkSection, image_nodes, Placed, Objects, Node, SectionDict, section_of, is_prefix, contains,
  is_bss, linker_offset_labels, linker_link, image, link_node, locate_from, find_located_label,
  change_section, place_dicts, place_nodes, bump, offset_entries, offset_label, patch, patch_uses,
  link_nodes, search_file, search_exports, all_sections, upto,
}
use cpu.Binutils.Dict.{new_node, build_section_lists, add_sections, add_section, load_order, Filed}
use cpu.Binutils.Link.Layout.{nodes_size}
use cpu.Binutils.Link.Image.{all_nodes, NoBss, linker_image}
use cpu.Binutils.Link.Locate.{Outcome, find_located_label_lem}
use cpu.Binutils.Link.Relocate.{Apart, Located, Patched, link_node_lem}
use cpu.Binutils.Reach.{
  Used, mark, none_used, done, out_of_fuel, mark_used_sects, entry_name, require_label,
  require_entries, provider, exported_by, present_in_file, find_section_in_dict,
}
use cpu.Binutils.Reach.Needed.{Needed, mark_used_sects-Needed}
use cpu.Binutils.Reach.Fuel.{mark_used_sects-ends}

abbrev pub foo : Text
foo = b'f' ∷ b'o' ∷ b'o' ∷ []

abbrev pub entry_label : ℕ → Text → ℕ → Bool → LabelEntry
entry_label id label position present = record {
  name = label;
  id = id;
  position = position;
  present = present;
  export = present;
  import = false;
}

-- Two labels of a section under assembly.
abbrev two_labels : Labels
two_labels = record {
  label_vec = entry_label 0 entry_name 0 true ∷ entry_label 1 foo 0 false ∷ [];
  label_mask = [];
  current_label_id = 2;
}

two_labels-IsValid : IsValid two_labels
two_labels-IsValid = (omega arith, (omega arith, omega arith))

-- "foo+2"
abbrev foo_plus_2 : Text
foo_plus_2 = foo ++ (b'+' ∷ b'2' ∷ [])

mark_label_use-foo_plus_2 :
    (mark_label_use foo_plus_2 5 0 two_labels).1.label_mask
    ≡ record { addr = 5; offset = 2; id = 1; half_word = 0 } ∷ []
unfolding mark_label_use label_offset label_name find_or_create find str_eq strchr next_sign
    offset_sum atoi16 digits_value before
mark_label_use-foo_plus_2 = refl

mark_label_use_resolves_example :
    ((mark_label_use foo_plus_2 5 0 two_labels).0 ≡ (used foo_plus_2 two_labels).id)
    × ((used foo_plus_2 two_labels).name ≡ label_name foo_plus_2)
    × (find_label_by_id
          (mark_label_use foo_plus_2 5 0 two_labels).0
          (mark_label_use foo_plus_2 5 0 two_labels).1
        ≡ some (used foo_plus_2 two_labels))
    × ((mark_label_use foo_plus_2 5 0 two_labels).1.label_mask
        ≡ two_labels.label_mask
          ++ (record {
            addr = 5;
            offset = label_offset foo_plus_2;
            id = (mark_label_use foo_plus_2 5 0 two_labels).0;
            half_word = 0;
          }
              ∷ []))
    × ((j : Text)
        → str_eq (label_name foo_plus_2) j ≡ false
        → find_label j (mark_label_use foo_plus_2 5 0 two_labels).1 ≡ find_label j two_labels)
mark_label_use_resolves_example =
    mark_label_use_resolves foo_plus_2 5 0 two_labels (omega arith) two_labels-IsValid

-- A section of two bytes with one byte in each of the other arrays.
abbrev small_section : Section
small_section = record {
  name =
      b't' ∷ b'e' ∷ b'x' ∷ b't' ∷ 0 ∷ 0 ∷ 0 ∷ 0 ∷ 0 ∷ 0 ∷ 0 ∷ 0 ∷ 0 ∷ 0 ∷ 0 ∷ 0 ∷ 0 ∷ 0 ∷ 0 ∷ 0 ∷ 0
      ∷ 0 ∷ 0 ∷ 0 ∷ 0 ∷ 0 ∷ 0 ∷ 0 ∷ 0 ∷ 0 ∷ 0 ∷ 0 ∷ [];
  executable = 1;
  data_pos = 2;
  label_vec_pos = 1;
  label_mask_pos = 1;
  content = λ i. i + 3;
  label_vec = λ i. 9;
  label_mask = λ i. 8;
}

deserialize-serialize_section_example :
    (s' : Section) × (deserialize_section (serialize_section small_section ++ (4 ∷ []))
      ≡ some (s', 4 ∷ []))
    × Agrees small_section s'
deserialize-serialize_section_example =
    deserialize-serialize_section small_section (4 ∷ []) refl (omega arith) (omega arith)
      (omega arith)
