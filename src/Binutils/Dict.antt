-- ===== src/Binutils/Dict.antt =====
-- binutils/link.c: the lists of sections by name, `build_section_lists` with `get_dict_by_name` and
-- `append_to_sect_list`.
use cpu.Prelude.{
  ℕ, zero, suc, ◌+◌, ◌≡◌, Bool, true, false, not, Option, none, some, List, [], ◌∷◌, ◌++◌,
  if◌then◌else◌, get_elem?,
}
use cpu.Binutils.Text.{Text, str_eq}
use cpu.Binutils.Link.{Objects, Node, SectionDict, section_of, upto}

abbrev pub same : Bool → Bool → Bool
same true b = b
same false b = not b

-- `get_dict_by_name`, which makes the list where there is none, and `append_to_sect_list`; `none` is
-- the failed assertion on a name that is used with and without code.
unfoldable pub add_section : Text → Bool → Node → List SectionDict → Option (List SectionDict)
add_section name executable n [] =
    some (record { name = name; executable = executable; list = n ∷ [] } ∷ [])
add_section name executable n (d ∷ ds) =
    if str_eq d.name name
    then if same d.executable executable
      then some (record d { list = d.list ++ (n ∷ []) } ∷ ds)
      else none
    else elim (add_section name executable n ds) [ none ↦ none | some ds' ↦ some (d ∷ ds') ]

abbrev pub new_node : ℕ → ℕ → Node
new_node file s = record { origin = file; section = s; used = false; start = 0 }

-- The sections in the order of the two loops.
unfoldable pub load_order : Objects → ℕ → ℕ → List Node
load_order o file zero = []
load_order o file (suc left) =
    upto (new_node file) 0 (o.n_sections file) ++ load_order o (file + 1) left

unfoldable pub add_sections : Objects → List Node → List SectionDict → Option (List SectionDict)
add_sections o [] ds = some ds
add_sections o (n ∷ ns) ds =
    elim (add_section (section_of o n).name (section_of o n).executable n ds) [
      | none ↦ none
      | some ds' ↦ add_sections o ns ds'
    ]

unfoldable pub build_section_lists : Objects → Option (List SectionDict)
build_section_lists o = add_sections o (load_order o 0 o.loaded_files) []

-- A node stands in the list of that name and kind.
abbrev pub Filed : List SectionDict → Text → Bool → Node → Type 0
Filed ds name executable n =
    (k : ℕ) × (d : SectionDict) × (j : ℕ) × (get_elem? ds k ≡ some d)
    × (d.name ≡ name)
    × (d.executable ≡ executable)
    × (get_elem? d.list j ≡ some n)
