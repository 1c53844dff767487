-- ===== src/Binutils/Labels.antt =====
-- binutils/labels.c: the label vector of a section and the places where labels are used.
pub mod Find
pub mod Ids
pub mod Offsets
use cpu.Prelude.{
  ℕ, zero, suc, ◌+◌, ◌-◌, ◌*◌, ◌≡◌, Bool, true, false, Option, none, some, List, [], ◌∷◌, ◌++◌,
  length, u16, ◌==◌, if◌then◌else◌,
}
use cpu.Binutils.Text.{Text, str_eq, strchr, before, digits_value}

pub record LabelEntry : Type 0 where
  pub name : Text
  pub id : ℕ
  pub position : ℕ
  pub present : Bool
  pub export : Bool
  pub import : Bool

-- Four words of the label mask.
pub record LabelUse : Type 0 where
  pub addr : ℕ
  pub offset : ℕ
  pub id : ℕ
  pub half_word : ℕ

-- What labels.c keeps of a section, and the counter of ids, which all sections share.
pub record Labels : Type 0 where
  pub label_vec : List LabelEntry
  pub label_mask : List LabelUse
  pub current_label_id : ℕ

unfoldable pub find : Text → List LabelEntry → Option LabelEntry
find label [] = none
find label (e ∷ es) = if str_eq e.name label then some e else find label es

unfoldable pub find_by_id : ℕ → List LabelEntry → Option LabelEntry
find_by_id id [] = none
find_by_id id (e ∷ es) = if e.id == id then some e else find_by_id id es

abbrev pub find_label : Text → Labels → Option LabelEntry
find_label label s = find label s.label_vec

abbrev pub find_label_by_id : ℕ → Labels → Option LabelEntry
find_label_by_id id s = find_by_id id s.label_vec

abbrev pub fresh : Text → ℕ → LabelEntry
fresh label id = record {
  name = label;
  id = id;
  position = 0;
  present = false;
  export = false;
  import = false;
}

unfoldable pub create_new_label : Text → Labels → Labels
create_new_label label s = record s {
  label_vec = s.label_vec ++ (fresh label s.current_label_id ∷ []);
  current_label_id = u16 (s.current_label_id + 1);
}

-- `e = find_label(...); if(!e) e = create_new_label(...);`
unfoldable pub find_or_create : Text → Labels → Labels
find_or_create label s = elim (find_label label s) [ none ↦ create_new_label label s | some e ↦ s ]

-- A write through the pointer that `find_label` returns.
unfoldable pub write_entry : Text → (LabelEntry → LabelEntry) → List LabelEntry → List LabelEntry
write_entry label f [] = []
write_entry label f (e ∷ es) = if str_eq e.name label then f e ∷ es else e ∷ write_entry label f es

abbrev pub placed : ℕ → LabelEntry → LabelEntry
placed pos e = record e { position = pos; present = true }

unfoldable pub mark_label_position : Text → ℕ → Labels → Labels
mark_label_position label pos s =
    let s' = find_or_create label s in
    record s' { label_vec = write_entry label (placed (u16 pos)) s'.label_vec }

-- `none` is the failed assertion.
unfoldable pub mark_label_export : Text → Labels → Option Labels
mark_label_export label s = elim (find_label label s) [
  | none ↦ none
  | some e ↦
      some
        (record s { label_vec = write_entry label (λ e. record e { export = true }) s.label_vec })
]

unfoldable pub mark_label_import : Text → Labels → Labels
mark_label_import label s = record s {
  label_vec = write_entry label (λ e. record e { import = true }) s.label_vec;
}

-- `atoi`, as it is kept in 16 bits: a sign, then digits.
unfoldable pub atoi16 : Text → ℕ
atoi16 [] = 0
atoi16 (c ∷ s) =
    if c == b'-'
    then u16 (65536 - u16 (digits_value 0 s))
    else if c == b'+'
    then u16 (digits_value 0 s)
    else u16 (digits_value 0 (c ∷ s))

-- The next sign: the first '+' of the rest, and only without one the first '-'.
unfoldable pub next_sign : Text → Option Text
next_sign s = elim (strchr b'+' s) [ none ↦ strchr b'-' s | some p ↦ some p ]

abbrev pub signed_term : ℕ → Text → ℕ
signed_term sign s = if sign == b'+' then atoi16 s else u16 (65536 - atoi16 s)

-- The sum, modulo 2 ^ 16, as it is stored; each round drops at least one character, so that the
-- length is fuel enough.
unfoldable pub offset_sum : ℕ → Text → ℕ → ℕ
offset_sum zero s offset = offset
offset_sum (suc fuel) s offset = elim (next_sign s) [
  | none ↦ offset
  | some [] ↦ offset
  | some (sign ∷ rest) ↦ offset_sum fuel rest (u16 (offset + signed_term sign rest))
]

-- `*sign_pos = 0` on the label: what is left of it is the name.
unfoldable pub label_name : Text → Text
label_name label = elim (strchr b'+' label) [
  | none ↦ before b'-' label
  | some p ↦ before b'+' label
]

unfoldable pub label_offset : Text → ℕ
label_offset label = elim (next_sign label) [ none ↦ 0 | some p ↦ offset_sum (length p) p 0 ]

-- The id that goes into the mask; the label is there once `find_or_create` has run.
unfoldable pub mark_label_use : Text → ℕ → ℕ → Labels → ℕ × Labels
mark_label_use label addr half_word s =
    let s' = find_or_create (label_name label) s in
    elim (find_label (label_name label) s') [
      | none ↦ (0, s')
      | some e ↦ (
        e.id,
        record s' {
          label_mask =
              s'.label_mask
              ++ (record {
                addr = u16 addr;
                offset = label_offset label;
                id = e.id;
                half_word = half_word;
              }
                  ∷ []);
        },
      )
    ]
