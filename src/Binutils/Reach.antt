-- ===== src/Binutils/Reach.antt =====
-- binutils/link.c: which sections are linked, `mark_used_sects` with `require_label` and
-- `require_section`.
pub mod Closure
pub mod Needed
pub mod Fuel
use cpu.Prelude.{
  ℕ, zero, suc, ◌+◌, ◌-◌, ◌*◌, ◌/◌, ◌%◌, ◌^◌, ◌≤◌, ◌<◌, bit_and, bit_or, bit_xor, ◌≡◌, refl, sym,
  ap, ap₂, ◌∙◌, subst, fun_ext, ◌≢◌, ◌↔◌, ◌⊎◌, inl, inr, Bool, true, false, not, ◌&&◌, ◌||◌, Option,
  none, some, List, [], ◌∷◌, ◌++◌, map, arith, ltb, leb, ◌==◌, ==_iff, ==_refl, ==_ne,
  if◌then◌else◌, Bool-cases, Option-cases, length, get_elem?, length-append, get_elem-append_right,
  get_elem-append_left, u8, u16, ◌<<<◌, ◌>>>◌, passes_below, passes_below-entry, update,
}
use cpu.Binutils.Text.{Text}
use cpu.Binutils.Labels.{LabelEntry, find}
use cpu.Binutils.Link.{LinkSection, Objects, Node, SectionDict, section_of}

-- The `used` flags, by file and section, while the search runs.
abbrev pub Used : Type 0
Used = ℕ → ℕ → Bool

abbrev pub is_used : Node → Used → Bool
is_used n used = used n.origin n.section

abbrev pub mark : Node → Used → Used
mark n used = update used n.origin (update (used n.origin) n.section true)

-- `exits` is the end of the program with an error.
pub data Search : Type 0 where
  exits : Search
  out_of_fuel : Search
  done : Used → Search

abbrev pub same_section : ℕ → ℕ → Node → Bool
same_section file s n = (n.origin == file) && (n.section == s)

-- The nodes of all the lists, in the order of the loops.
unfoldable pub find_section_in_dict : ℕ → ℕ → List Node → Option Node
find_section_in_dict file s [] = none
find_section_in_dict file s (n ∷ ns) =
    if same_section file s n then some n else find_section_in_dict file s ns

abbrev pub is_present : Option LabelEntry → Bool
is_present none = false
is_present (some e) = e.present

abbrev pub is_exported : Option LabelEntry → Bool
is_exported none = false
is_exported (some e) = e.present && e.export

-- The first section of the file, from `s` on, that has the label.
unfoldable pub present_in_file : Text → ℕ → ℕ → ℕ → Objects → Option ℕ
present_in_file label file s zero o = none
present_in_file label file s (suc left) o =
    if is_present (find label (o.sections file s).label_vec)
    then some s
    else present_in_file label file (s + 1) left o

unfoldable pub exported_by : Text → Objects → List Node → Option Node
exported_by label o [] = none
exported_by label o (n ∷ ns) =
    if is_exported (find label (section_of o n).label_vec) then some n else exported_by label o ns

-- The node that `require_label` includes for a label, `from` being the file of the section that
-- asks for it, if there is one.
unfoldable pub provider : Objects → List Node → Text → Option ℕ → Option Node
provider o nodes label none = exported_by label o nodes
provider o nodes label (some file) = elim (present_in_file label file 0 (o.n_sections file) o) [
  | some s ↦ find_section_in_dict file s nodes
  | none ↦ exported_by label o nodes
]

-- The loop of `require_section`; `require` is the call of `require_label`.
unfoldable pub require_entries : (Text → Used → Search) → List LabelEntry → Used → Search
require_entries require [] used = done used
require_entries require (e ∷ es) used =
    if e.present then require_entries require es used else elim (require e.name used) [
      | exits ↦ exits
      | out_of_fuel ↦ out_of_fuel
      | done used' ↦ require_entries require es used'
    ]

-- One unit of fuel for each nested call.
unfoldable pub require_label : Objects → List Node → ℕ → Text → Option ℕ → Used → Search
require_label o nodes zero label from used = out_of_fuel
require_label o nodes (suc fuel) label from used = elim (provider o nodes label from) [
  | none ↦ exits
  | some n ↦
      let rest =
        require_entries (λ l u. require_label o nodes fuel l (some n.origin) u)
          (section_of o n).label_vec (mark n used) in
      if is_used n used then done used else rest
]

abbrev pub entry_name : Text
entry_name = b'_' ∷ b'_' ∷ b'e' ∷ b'n' ∷ b't' ∷ b'r' ∷ b'y' ∷ []

abbrev pub none_used : Used
none_used file s = false

-- With unused sections removed: the sections that the label "__entry" needs.
unfoldable pub mark_used_sects : Objects → List Node → Search
mark_used_sects o nodes = require_label o nodes (length nodes + 1) entry_name none none_used
