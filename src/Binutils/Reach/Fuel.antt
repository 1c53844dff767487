-- ===== src/Binutils/Reach/Fuel.antt =====
-- binutils/link.c: `mark_used_sects` ends.
use cpu.Prelude.{
  ℕ, zero, suc, ◌+◌, ◌≤◌, ◌<◌, ◌≡◌, sym, subst, ◌≢◌, inl, inr, true, false, ◌&&◌, Option, none,
  some, List, [], ◌∷◌, arith, ◌==◌, if◌then◌else◌, Bool-cases, Option-cases, length, get_elem?,
}
use cpu.Binutils.Text.{Text}
use cpu.Binutils.Labels.{LabelEntry, find}
use cpu.Binutils.Link.{Objects, Node, section_of}
use cpu.Binutils.Reach.{
  Used, is_used, mark, is_exported, Search, out_of_fuel, done, find_section_in_dict,
  present_in_file, exported_by, provider, require_entries, require_label, entry_name, none_used,
  mark_used_sects,
}
use cpu.Binutils.Reach.Closure.{Below, Search-cases, mark-Below, mark_self, require_label-Post}

abbrev Listed : Node → List Node → Type 0
Listed n nodes = (k : ℕ) × (get_elem? nodes k ≡ some n)

find_section_in_dict-Listed :
    (file s : ℕ) (nodes : List Node) (n : Node)
    → find_section_in_dict file s nodes ≡ some n
    → Listed n nodes
unfolding find_section_in_dict
find_section_in_dict-Listed file s [] n found = absurd cc
find_section_in_dict-Listed file s (m ∷ ms) n found =
    elim (Bool-cases ((m.origin == file) && (m.section == s))) [
      | inl hit ↦ (0, ground arith)
      | inr miss ↦
          let (k, at) = find_section_in_dict-Listed file s ms n (ground arith) in (suc k, at)
    ]

exported_by-Listed :
    (label : Text) (o : Objects) (nodes : List Node) (n : Node)
    → exported_by label o nodes ≡ some n
    → Listed n nodes
unfolding exported_by
exported_by-Listed label o [] n found = absurd cc
exported_by-Listed label o (m ∷ ms) n found =
    elim (Bool-cases (is_exported (find label (section_of o m).label_vec))) [
      | inl hit ↦ (0, ground (arith, hit))
      | inr miss ↦
          let (k, at) = exported_by-Listed label o ms n (ground (arith, miss)) in (suc k, at)
    ]

provider-Listed :
    (o : Objects) (nodes : List Node) (label : Text) (from : Option ℕ) (n : Node)
    → provider o nodes label from ≡ some n
    → Listed n nodes
unfolding provider
provider-Listed o nodes label none n found = exported_by-Listed label o nodes n found
provider-Listed o nodes label (some file) n found =
    elim (Option-cases (present_in_file label file 0 (o.n_sections file) o)) [
      | inl elsewhere ↦ exported_by-Listed label o nodes n (ground (arith, elsewhere))
      | inr (s, here) ↦ find_section_in_dict-Listed file s nodes n (ground (arith, here))
    ]

-- How many nodes are not marked.
unfoldable pub unused : Used → List Node → ℕ
unused u [] = 0
unused u (n ∷ ns) = if is_used n u then unused u ns else unused u ns + 1

unused-Below : (u v : Used) (nodes : List Node) → Below u v → unused v nodes ≤ unused u nodes
unfolding unused
unused-Below u v [] grows = omega arith
unused-Below u v (n ∷ ns) grows =
    ground (arith, grows n.origin n.section, unused-Below u v ns grows)

unused-mark :
    (n : Node) (u : Used) (nodes : List Node) (k : ℕ)
    → get_elem? nodes k ≡ some n
    → is_used n u ≡ false
    → unused (mark n u) nodes < unused u nodes
unfolding unused
unused-mark n u [] k at new = absurd cc
unused-mark n u (m ∷ ms) zero at new =
    let same : m ≡ n = cc in
    let new_m : is_used m u ≡ false = subst (λ x. is_used x u ≡ false) (sym same) new in
    let marked : is_used m (mark n u) ≡ true =
      subst (λ x. is_used x (mark n u) ≡ true) (sym same) (mark_self n u) in
    ground (arith, new_m, marked, unused-Below u (mark n u) ms (mark-Below n u))
unused-mark n u (m ∷ ms) (suc k) at new =
    ground (arith, unused-mark n u ms k at new, mark-Below n u m.origin m.section)

unused-length : (u : Used) (nodes : List Node) → unused u nodes ≤ length nodes
unfolding unused
unused-length u [] = omega arith
unused-length u (n ∷ ns) = ground (arith, unused-length u ns)

module _ (o : Objects) (nodes : List Node) where
  require_entries-ends :
      (require : Text → Used → Search) (bound : ℕ)
      → ((l : Text) (u : Used) → unused u nodes ≤ bound → require l u ≢ out_of_fuel)
      → ((l : Text) (u v : Used) → require l u ≡ done v → Below u v)
      → (es : List LabelEntry) (u : Used) → unused u nodes ≤ bound
      → require_entries require es u ≢ out_of_fuel
  unfolding require_entries
  require_entries-ends require bound ends grows [] u few run = cc
  require_entries-ends require bound ends grows (e ∷ es) u few run = elim (Bool-cases e.present) [
    | inl present ↦ require_entries-ends require bound ends grows es u few (ground (arith, present))
    | inr absent ↦ elim (Search-cases (require e.name u)) [
      | inl exit ↦ ground (arith, absent, exit)
      | inr (inl empty) ↦ ends e.name u few empty
      | inr (inr (w, call)) ↦
          let fewer = unused-Below u w nodes (grows e.name u w call) in
          require_entries-ends require bound ends grows es w (omega (arith, fewer))
            (ground (arith, absent, call))
    ]
  ]

  require_label-ends :
      (fuel : ℕ) (label : Text) (from : Option ℕ) (u : Used)
      → unused u nodes < fuel
      → require_label o nodes fuel label from u ≢ out_of_fuel
  unfolding require_label
  require_label-ends zero label from u few run = absurd (omega arith)
  require_label-ends (suc fuel) label from u few run =
      elim (Option-cases (provider o nodes label from)) [
        | inl missing ↦ ground (arith, missing)
        | inr (n, found) ↦ elim (Bool-cases (is_used n u)) [
          | inl marked ↦ ground (arith, found, marked)
          | inr new ↦
              let (k, at) = provider-Listed o nodes label from n found in
              let fewer = unused-mark n u nodes k at new in
              require_entries-ends (λ l w. require_label o nodes fuel l (some n.origin) w)
                (unused (mark n u) nodes)
                (λ l w less.
                  require_label-ends fuel l (some n.origin) w (omega (arith, less, fewer)))
                (λ l w x call. (require_label-Post o nodes fuel l (some n.origin) w x call).grows)
                (section_of o n).label_vec (mark n u) (omega arith) (ground (arith, found, new))
        ]
      ]

-- The search for the sections that the entry needs ends within one nested call more than there are
-- nodes, also where sections use each other's labels: it marks the sections or exits with an error.
pub mark_used_sects-ends : (o : Objects) (nodes : List Node) → mark_used_sects o nodes ≢ out_of_fuel
unfolding mark_used_sects
mark_used_sects-ends o nodes =
    require_label-ends o nodes (length nodes + 1) entry_name none none_used
      (omega (arith, unused-length none_used nodes))
