-- ===== src/Binutils/Labels/Ids.antt =====
-- binutils/labels.c: the ids by which the uses of labels are kept.
use cpu.Prelude.{
  ℕ, ◌+◌, ◌≤◌, ◌<◌, ◌≡◌, refl, inl, inr, false, some, List, [], ◌∷◌, ◌++◌, arith, Option-cases, u16,
}
use cpu.Binutils.Text.{Text, str_eq, str_eq_refl}
use cpu.Binutils.Labels.{
  LabelEntry, Labels, find, find_by_id, find_label, find_label_by_id, create_new_label,
  find_or_create, label_name, label_offset, mark_label_use,
}
use cpu.Binutils.Labels.Find.{name-find, or_fresh, find-find_or_create}

-- The ids of a label vector rise from `lo` on and stay below `hi`.
abbrev pub Rising : ℕ → ℕ → List LabelEntry → Type 0
Rising lo hi [] = lo ≤ hi
Rising lo hi (e ∷ es) = (lo ≤ e.id) × Rising (e.id + 1) hi es

abbrev pub KeepsId : (LabelEntry → LabelEntry) → Type 0
KeepsId f = (e : LabelEntry) → (f e).id ≡ e.id

Rising-append :
    (lo hi : ℕ) (es : List LabelEntry) (e : LabelEntry)
    → e.id ≡ hi
    → Rising lo hi es
    → Rising lo (hi + 1) (es ++ (e ∷ []))
Rising-append lo hi [] e h r = (omega arith, omega arith)
Rising-append lo hi (x ∷ es) e h r = (r.0, Rising-append (x.id + 1) hi es e h r.1)

find-ge :
    (lo hi : ℕ) (l : Text) (es : List LabelEntry) (e : LabelEntry)
    → Rising lo hi es
    → find l es ≡ some e
    → lo ≤ e.id
unfolding find
find-ge lo hi l [] e r h = cc
find-ge lo hi l (x ∷ es) e r h = ground (arith, find-ge (x.id + 1) hi l es e r.1)

-- In a vector with rising ids, the id of a label that is found finds the same entry.
find_by_id-find :
    (lo hi : ℕ) (l : Text) (es : List LabelEntry) (e : LabelEntry)
    → Rising lo hi es
    → find l es ≡ some e
    → find_by_id e.id es ≡ some e
unfolding find find_by_id
find_by_id-find lo hi l [] e r h = cc
find_by_id-find lo hi l (x ∷ es) e r h =
    ground (arith, find_by_id-find (x.id + 1) hi l es e r.1, find-ge (x.id + 1) hi l es e r.1)

-- The ids of a section are distinct and below the counter.
abbrev pub IsValid : Labels → Type 0
IsValid s = Rising 0 s.current_label_id s.label_vec

find_or_create-IsValid :
    (label : Text) (s : Labels)
    → s.current_label_id < 65535
    → IsValid s
    → IsValid (find_or_create label s)
unfolding find_or_create create_new_label
find_or_create-IsValid label s small v = elim (Option-cases (find_label label s)) [
  | inl absent ↦
      let e : u16 (s.current_label_id + 1) ≡ s.current_label_id + 1 = omega arith in
      rw (absent, find_or_create, e) (Rising-append 0 s.current_label_id s.label_vec _ refl v)
  | inr (e, there) ↦ rw (there, find_or_create) v
]

-- The call that appends a use, where the label has been found.
mark_label_use_found :
    (label : Text) (addr half_word : ℕ) (s : Labels) (e : LabelEntry)
    → find_label (label_name label) (find_or_create (label_name label) s) ≡ some e
    → mark_label_use label addr half_word s ≡ (
      e.id,
      record (find_or_create (label_name label) s) {
        label_mask =
            (find_or_create (label_name label) s).label_mask
            ++ (record {
              addr = u16 addr;
              offset = label_offset label;
              id = e.id;
              half_word = half_word;
            }
                ∷ []);
      },
    )
unfolding mark_label_use
mark_label_use_found label addr half_word s e found = rw (found, mark_label_use)

-- The entry that a use is about.
abbrev pub used : Text → Labels → LabelEntry
used label s = or_fresh (label_name label) s (find_label (label_name label) s)

find-used :
    (label : Text) (s : Labels)
    → find_label (label_name label) (find_or_create (label_name label) s) ≡ some (used label s)
find-used label s =
    rw (find-find_or_create (label_name label) (label_name label) s, str_eq_refl (label_name label))

label_mask-find_or_create :
    (label : Text) (s : Labels) → (find_or_create label s).label_mask ≡ s.label_mask
unfolding find_or_create create_new_label
label_mask-find_or_create label s = ground arith

-- A use of a label is kept under an id by which the linker finds the entry of the name that the
-- text gives, and the rest of its record is the place, the offset and which half is meant; no other
-- label changes.
pub mark_label_use_resolves :
    (label : Text) (addr half_word : ℕ) (s : Labels)
    → s.current_label_id < 65535
    → IsValid s
    → let (id, s') = mark_label_use label addr half_word s in
      let e = used label s in
      (id ≡ e.id)
      × (e.name ≡ label_name label)
      × (find_label_by_id id s' ≡ some e)
      × (s'.label_mask
          ≡ s.label_mask
            ++ (record {
              addr = u16 addr;
              offset = label_offset label;
              id = id;
              half_word = half_word;
            }
                ∷ []))
      × ((j : Text) → str_eq (label_name label) j ≡ false → find_label j s' ≡ find_label j s)
mark_label_use_resolves label addr half_word s small v =
    rw (mark_label_use_found label addr half_word s (used label s) (find-used label s)) (
      refl,
      name-find (label_name label) (find_or_create (label_name label) s).label_vec (used label s)
          (find-used label s),
      find_by_id-find 0 _ (label_name label) (find_or_create (label_name label) s).label_vec
          (used label s) (find_or_create-IsValid (label_name label) s small v) (find-used label s),
      rw (label_mask-find_or_create (label_name label) s) refl,
      λ j ne. ground (arith, find-find_or_create (label_name label) j s),
    )
