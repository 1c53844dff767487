-- ===== src/Binutils/Labels/Find.antt =====
-- binutils/labels.c: what is found after the marks.
use cpu.Prelude.{
  ℕ, ◌≡◌, inl, inr, refl, arith, true, false, Option, none, some, List, [], ◌∷◌, ◌++◌, u16,
  if◌then◌else◌, Bool-cases, Option-cases,
}
use mathlib.Core.Option
use cpu.Binutils.Text.{Text, str_eq, str_eq_refl, eq-str_eq}
use cpu.Binutils.Labels.{
  LabelEntry, Labels, find, find_label, fresh, create_new_label, find_or_create, write_entry,
  placed, mark_label_position,
}

-- A write that leaves the name of an entry alone.
abbrev pub KeepsName : (LabelEntry → LabelEntry) → Type 0
KeepsName f = (e : LabelEntry) → (f e).name ≡ e.name

pub name-find : (l : Text) (es : List LabelEntry) (e : LabelEntry) → find l es ≡ some e → e.name ≡ l
unfolding find
name-find l [] e h = cc
name-find l (x ∷ es) e h = elim (Bool-cases (str_eq x.name l)) [
  | inl hit ↦ ground (arith, eq-str_eq x.name l)
  | inr miss ↦ name-find l es e (ground arith)
]

str_eq-ne : (a b c : Text) → str_eq a b ≡ true → str_eq b c ≡ false → str_eq a c ≡ false
str_eq-ne a b c h k = ground (arith, eq-str_eq a b h)

find-write_entry_self :
    (l : Text) (f : LabelEntry → LabelEntry) (es : List LabelEntry)
    → KeepsName f
    → find l (write_entry l f es) ≡ Option.map f (find l es)
unfolding find write_entry
find-write_entry_self l f [] keep = refl
find-write_entry_self l f (e ∷ es) keep = ground (arith, keep e, find-write_entry_self l f es keep)

find-write_entry_ne :
    (l j : Text) (f : LabelEntry → LabelEntry) (es : List LabelEntry)
    → KeepsName f
    → str_eq l j ≡ false
    → find j (write_entry l f es) ≡ find j es
unfolding find write_entry
find-write_entry_ne l j f [] keep ne = refl
find-write_entry_ne l j f (e ∷ es) keep ne =
    ground (arith, keep e, str_eq-ne e.name l j, find-write_entry_ne l j f es keep ne)

find-append :
    (j : Text) (es : List LabelEntry) (e : LabelEntry)
    → find j (es ++ (e ∷ []))
      ≡ elim (find j es) [ none ↦ (if str_eq e.name j then some e else none) | some x ↦ some x ]
unfolding find
find-append j [] e = refl
find-append j (x ∷ es) e = ground (arith, find-append j es e)

-- The entry of a label after a mark that creates it where it is not there.
abbrev pub or_fresh : Text → Labels → Option LabelEntry → LabelEntry
or_fresh label s none = fresh label s.current_label_id
or_fresh label s (some e) = e

pub find-find_or_create :
    (label j : Text) (s : Labels)
    → find_label j (find_or_create label s)
      ≡ (if str_eq label j then some (or_fresh label s (find_label label s)) else find_label j s)
unfolding find_or_create create_new_label
find-find_or_create label j s = elim (Option-cases (find_label label s)) [
  | inl absent ↦
      ground (arith, eq-str_eq label j, find-append j s.label_vec (fresh label s.current_label_id))
  | inr (e, there) ↦ ground (arith, eq-str_eq label j)
]

-- `mark_label_position` sets the position of its label, creating it where it is not there, and
-- leaves every other label as it was found.
pub find-mark_label_position :
    (label j : Text) (pos : ℕ) (s : Labels)
    → find_label j (mark_label_position label pos s) ≡ (
        if str_eq label j
        then some (placed (u16 pos) (or_fresh label s (find_label label s)))
        else find_label j s)
unfolding mark_label_position
find-mark_label_position label j pos s = elim (Bool-cases (str_eq label j)) [
  | inl same ↦ ground (
    arith,
    eq-str_eq label j,
    str_eq_refl label,
    find-find_or_create label label s,
    find-write_entry_self label (placed (u16 pos)) (find_or_create label s).label_vec (λ e. refl),
  )
  | inr other ↦ ground (
    arith,
    find-find_or_create label j s,
    find-write_entry_ne label j (placed (u16 pos)) (find_or_create label s).label_vec (λ e. refl),
  )
]
