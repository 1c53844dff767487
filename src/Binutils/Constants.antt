-- ===== src/Binutils/Constants.antt =====
-- binutils/constants.c: the constants of the assembler, up to the first free place of the list.
use cpu.Prelude.{
  ℕ, ◌≡◌, refl, ap, subst, inl, inr, Bool, true, false, Option, none, some, List, [], ◌∷◌, ◌++◌,
  arith, ltb, if◌then◌else◌, Bool-cases, Option-cases, length,
}
use cpu.Binutils.Text.{Text, str_eq, str_eq_refl, eq-str_eq}

abbrev pub max_constants : ℕ
max_constants = 256

pub record ConstantEntry : Type 0 where
  pub name : Text
  pub value : ℕ

-- The loop of `find_constant`.
unfoldable pub find_constant : Text → List ConstantEntry → Option ConstantEntry
find_constant name [] = none
find_constant name (e ∷ list) = if str_eq e.name name then some e else find_constant name list

-- A write through the pointer that `find_constant` returns.
unfoldable pub write_value : Text → ℕ → List ConstantEntry → List ConstantEntry
write_value name value [] = []
write_value name value (e ∷ list) =
    if str_eq e.name name
    then record e { value = value } ∷ list
    else e ∷ write_value name value list

-- `find_constant(name, constants, 1)` and the write of the value behind it; `none` is the list with
-- no place left. A new entry has no value before the write.
unfoldable pub set_constant : Text → ℕ → List ConstantEntry → Option (List ConstantEntry)
set_constant name value list = elim (find_constant name list) [
  | some e ↦ some (write_value name value list)
  | none ↦
      if ltb (length list) max_constants
      then some (list ++ (record { name = name; value = value } ∷ []))
      else none
]

-- What a name stands for.
abbrev pub value_of : Option ConstantEntry → Option ℕ
value_of none = none
value_of (some e) = some e.value

abbrev pub is_defined : Option ConstantEntry → Bool
is_defined none = false
is_defined (some e) = true

str_eq-other : (a b c : Text) → str_eq a b ≡ true → str_eq b c ≡ false → str_eq a c ≡ false
str_eq-other a b c h k = ground (arith, eq-str_eq a b h)

value_of-write_value :
    (name : Text) (value : ℕ) (list : List ConstantEntry)
    → is_defined (find_constant name list) ≡ true
    → value_of (find_constant name (write_value name value list)) ≡ some value
unfolding find_constant write_value
value_of-write_value name value [] h = absurd cc
value_of-write_value name value (x ∷ list) h = elim (Bool-cases (str_eq x.name name)) [
  | inl hit ↦ rw (hit, hit) refl
  | inr miss ↦ rw (miss, miss) (value_of-write_value name value list (ground (arith, miss)))
]

value_of-write_value_other :
    (name other : Text) (value : ℕ) (list : List ConstantEntry)
    → str_eq name other ≡ false
    → value_of (find_constant other (write_value name value list))
      ≡ value_of (find_constant other list)
unfolding find_constant write_value
value_of-write_value_other name other value [] h = refl
value_of-write_value_other name other value (x ∷ list) h = elim (Bool-cases (str_eq x.name name)) [
  | inl hit ↦ rw (hit, str_eq-other x.name name other hit h) refl
  | inr miss ↦ let on = value_of-write_value_other name other value list h in ground (arith, miss)
]

value_of-append :
    (name : Text) (value : ℕ) (list : List ConstantEntry)
    → is_defined (find_constant name list) ≡ false
    → value_of (find_constant name (list ++ (record { name = name; value = value } ∷ [])))
      ≡ some value
unfolding find_constant
value_of-append name value [] h = rw (str_eq_refl name) refl
value_of-append name value (x ∷ list) h = let on = value_of-append name value list in ground arith

value_of-append_other :
    (name other : Text) (value : ℕ) (list : List ConstantEntry)
    → str_eq name other ≡ false
    → value_of (find_constant other (list ++ (record { name = name; value = value } ∷ [])))
      ≡ value_of (find_constant other list)
unfolding find_constant
value_of-append_other name other value [] h = rw h refl
value_of-append_other name other value (x ∷ list) h =
    let on = value_of-append_other name other value list h in ground arith

-- After a constant has been set, its name stands for the value given last, whether it was there before
-- or not, and every other name stands for what it stood for.
pub find_constant-set_constant :
    (name other : Text) (value : ℕ) (list list' : List ConstantEntry)
    → str_eq name other ≡ false
    → set_constant name value list ≡ some list'
    → (value_of (find_constant name list') ≡ some value)
      × (value_of (find_constant other list') ≡ value_of (find_constant other list))
unfolding set_constant
find_constant-set_constant name other value list list' differ h =
    elim (Option-cases (find_constant name list)) [
      | inl nothing ↦
          let same : list ++ (record { name = name; value = value } ∷ []) ≡ list' =
            ground (arith, nothing) in
          subst
            (λ l.
              (value_of (find_constant name l) ≡ some value)
              × (value_of (find_constant other l) ≡ value_of (find_constant other list)))
            same
            (
              value_of-append name value list (ap is_defined nothing),
              value_of-append_other name other value list differ,
            )
      | inr (e, found) ↦
          let same : write_value name value list ≡ list' = ground (arith, found) in
          subst
            (λ l.
              (value_of (find_constant name l) ≡ some value)
              × (value_of (find_constant other l) ≡ value_of (find_constant other list)))
            same
            (
              value_of-write_value name value list (ap is_defined found),
              value_of-write_value_other name other value list differ,
            )
    ]
