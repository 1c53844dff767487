-- ===== src/Binutils/Link/Locate.antt =====
-- binutils/link.c: which label `find_located_label` gives.
use cpu.Prelude.{
  ℕ, zero, suc, ◌≡◌, refl, ap, ◌∙◌, subst, ◌⊎◌, inl, inr, true, false, ◌&&◌, Option, none, some,
  List, [], ◌∷◌, arith, Bool-cases, Option-cases, get_elem?,
}
use cpu.Binutils.Text.{Text}
use cpu.Binutils.Labels.{LabelEntry, find, find_by_id}
use cpu.Binutils.Link.{
  LinkSection, Objects, latest, file_sections, all_sections, search_file, search_exports,
  find_located_label,
}

-- A section of the list has the entry under that name.
abbrev pub HasEntry : Text → LabelEntry → List LinkSection → Type 0
HasEntry label e ss =
    (k : ℕ) × (s : LinkSection) × (get_elem? ss k ≡ some s) × (find label s.label_vec ≡ some e)

search_file-hit :
    (label : Text) (e r : LabelEntry) (ss : List LinkSection)
    → e.present ≡ false
    → search_file label e ss ≡ some r
    → (r.present ≡ true) × HasEntry label r ss
unfolding search_file
search_file-hit label e r [] absent h = absurd cc
search_file-hit label e r (s ∷ ss) absent h = elim (Option-cases (find label s.label_vec)) [
  | inl none_here ↦
      let tail : search_file label e ss ≡ some r = ground (arith, none_here) in
      let (found, (k, t, at, hit)) = search_file-hit label e r ss absent tail in
      (found, (suc k, t, at, hit))
  | inr (x, here) ↦ elim (Bool-cases x.present) [
    | inl present ↦
        let same : x ≡ r = ground (arith, here) in
        (subst (λ y. y.present ≡ true) same present, (0, s, refl, here ∙ ap some same))
    | inr missing ↦
        let tail : search_file label x ss ≡ some r = ground (arith, here) in
        let (found, (k, t, at, hit)) = search_file-hit label x r ss missing tail in
        (found, (suc k, t, at, hit))
  ]
]

search_file-miss :
    (label : Text) (e r : LabelEntry) (ss : List LinkSection)
    → search_file label e ss ≡ none
    → HasEntry label r ss
    → r.present ≡ false
unfolding search_file
search_file-miss label e r [] h (k, s, at, hit) = absurd cc
search_file-miss label e r (s ∷ ss) h (zero, t, at, hit) = ground arith
search_file-miss label e r (s ∷ ss) h (suc k, t, at, hit) =
    search_file-miss label (latest e (find label s.label_vec)) r ss (ground arith) (k, t, at, hit)

search_exports-hit :
    (label : Text) (r : LabelEntry) (ss : List LinkSection)
    → search_exports label ss ≡ some r
    → ((r.present && r.export) ≡ true) × HasEntry label r ss
unfolding search_exports
search_exports-hit label r [] h = absurd cc
search_exports-hit label r (s ∷ ss) h = elim (Option-cases (find label s.label_vec)) [
  | inl none_here ↦
      let (found, (k, t, at, hit)) = search_exports-hit label r ss (ground (arith, none_here)) in
      (found, (suc k, t, at, hit))
  | inr (x, here) ↦ elim (Bool-cases (x.present && x.export)) [
    | inl exported ↦
        let same : x ≡ r = ground (arith, here) in
        (
          subst (λ y. (y.present && y.export) ≡ true) same exported,
          (0, s, refl, here ∙ ap some same),
        )
    | inr hidden ↦
        let (found, (k, t, at, hit)) = search_exports-hit label r ss (ground (arith, here)) in
        (found, (suc k, t, at, hit))
  ]
]

search_exports-miss :
    (label : Text) (r : LabelEntry) (ss : List LinkSection)
    → search_exports label ss ≡ none
    → HasEntry label r ss
    → (r.present && r.export) ≡ false
unfolding search_exports
search_exports-miss label r [] h (k, s, at, hit) = absurd cc
search_exports-miss label r (s ∷ ss) h (zero, t, at, hit) = ground arith
search_exports-miss label r (s ∷ ss) h (suc k, t, at, hit) =
    search_exports-miss label r ss (ground arith) (k, t, at, hit)

abbrev pub NotInFile : LabelEntry → ℕ → Objects → Type 0
NotInFile x origin o =
    (x.present ≡ false)
    × ((r : LabelEntry) → HasEntry x.name r (file_sections o origin) → r.present ≡ false)

-- What the search answers for the entry `x` that the section has under the id.
abbrev pub Outcome : LabelEntry → ℕ → Objects → Option LabelEntry → Type 0
Outcome x origin o none =
    NotInFile x origin o
    × ((r : LabelEntry)
        → HasEntry x.name r (all_sections o 0 o.loaded_files)
        → (r.present && r.export) ≡ false)
Outcome x origin o (some e) =
    (e.present ≡ true)
    × ((e ≡ x)
        ⊎ (((x.present ≡ false) × HasEntry x.name e (file_sections o origin))
            ⊎ (NotInFile x origin o
                × (e.export ≡ true)
                × HasEntry x.name e (all_sections o 0 o.loaded_files))))

abbrev by_name : LabelEntry → ℕ → Objects → Option LabelEntry
by_name x origin o = elim (search_file x.name x (file_sections o origin)) [
  | some located ↦ some located
  | none ↦ search_exports x.name (all_sections o 0 o.loaded_files)
]

by_name-Outcome :
    (x : LabelEntry) (origin : ℕ) (o : Objects)
    → x.present ≡ false
    → (r : Option LabelEntry) → by_name x origin o ≡ r
    → Outcome x origin o r
by_name-Outcome x origin o absent r answer =
    elim (Option-cases (search_file x.name x (file_sections o origin))) [
      | inr (e, in_file) ↦
          let (found, entry) = search_file-hit x.name x e (file_sections o origin) absent in_file in
          subst (Outcome x origin o) {x = some e} {y = r} (ground (arith, in_file))
            (found, inr (inl (absent, entry)))
      | inl missing ↦
          let not_in_file : NotInFile x origin o =
            (absent, λ r. search_file-miss x.name x r (file_sections o origin) missing) in
          elim (Option-cases (search_exports x.name (all_sections o 0 o.loaded_files))) [
            | inl nowhere ↦
                subst (Outcome x origin o) {x = none} {y = r} (ground (arith, missing)) (
                  not_in_file,
                  λ r. search_exports-miss x.name r (all_sections o 0 o.loaded_files) nowhere,
                )
            | inr (e, exported) ↦
                let (both, entry) =
                  search_exports-hit x.name e (all_sections o 0 o.loaded_files) exported in
                subst (Outcome x origin o) {x = some e} {y = r} (ground (arith, missing))
                  (ground arith, inr (inr (not_in_file, ground arith, entry)))
          ]
    ]

-- For an id that the section has, the search answers with a label that is present: the section's
-- own, else one of that name in the same file, else, only when the file has none, an exported one
-- of that name in some file; and it fails only when there is no such label in any of these places.
pub find_located_label_lem :
    (id : ℕ) (sect : LinkSection) (origin : ℕ) (o : Objects) (x : LabelEntry)
    → find_by_id id sect.label_vec ≡ some x
    → Outcome x origin o (find_located_label id sect origin o)
unfolding find_located_label
find_located_label_lem id sect origin o x own = elim (Bool-cases x.present) [
  | inl present ↦
      subst (Outcome x origin o) {x = some x} {y = find_located_label id sect origin o}
        (ground (arith, own)) (present, inl refl)
  | inr absent ↦
      by_name-Outcome x origin o absent (find_located_label id sect origin o) (ground (arith, own))
]
