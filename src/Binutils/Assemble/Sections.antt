-- ===== src/Binutils/Assemble/Sections.antt =====
-- binutils/asm.c: `.align`, and the choice of a section by its name.
use native.Mathlib.Nat.{mod-lt, mod-add-mod, add-mod-mod, mod_self}
use cpu.Prelude.{
  ℕ, zero, suc, ◌+◌, ◌-◌, ◌%◌, ◌≤◌, ◌<◌, ◌≡◌, refl, sym, ap, ◌∙◌, inl, inr, true, false, none, some,
  List, [], ◌∷◌, ◌++◌, arith, ltb, ==_ne, Bool-cases, Option-cases, length, get_elem?,
  get_elem-append_right, u32,
}
use cpu.Binutils.Text.{Text, str_eq, str_eq_refl, eq-str_eq}
use cpu.Binutils.Result.{ok}
use cpu.Binutils.Section.{section_name_size}
use cpu.Binutils.Assemble.{
  AsmSection, Assembler, int_negative, max_section_list, cut, new_section, create_section,
  section_named, select_section, current,
}
use cpu.Binutils.Assemble.Directives.{padding, align_section}

padding-mod : (a p : ℕ) → 0 < a → (p + padding a p) % a ≡ 0
padding-mod a p positive =
    let below = mod-lt p positive in
    add-mod-mod p (a - p % a) a
    ∙ sym (mod-add-mod p a (a - p % a))
    ∙ ap (λ n. n % a) {x = p % a + (a - p % a)} {y = a} (omega arith)
    ∙ mod_self a

-- `.align` moves the place of a section to the next multiple of its argument: what it leaves is a
-- multiple, no smaller than before, and less than one alignment away. The argument is not 0 and has 16
-- bits, and the place is one of the section.
pub align_section_lem :
    (a : ℕ) (sec : AsmSection)
    → 0 < a
    → a < 65536
    → sec.data_pos ≤ 65534
    → (sec' : AsmSection) × (align_section a sec ≡ ok sec')
      × (sec'.data_pos % a ≡ 0)
      × (sec.data_pos ≤ sec'.data_pos)
      × (sec'.data_pos < sec.data_pos + a)
unfolding align_section
align_section_lem a sec positive word inside =
    let p = sec.data_pos in
    let less = mod-lt (a - p % a) positive in
    let fits : u32 (p + padding a p) ≡ p + padding a p = omega (arith, less) in
    let some_align = ==_ne a 0 (omega arith) in
    let no_sign : int_negative p ≡ false = ground arith in
    (
      record sec { data_pos = u32 (p + padding a p) },
      rw (some_align, no_sign) refl,
      ap (λ n. n % a) fits ∙ padding-mod a p positive,
      omega (arith, fits),
      omega (arith, fits, less),
    )

cut-short : (n : ℕ) (s : Text) → length s ≤ n → cut n s ≡ s
unfolding cut
cut-short zero [] h = refl
cut-short zero (c ∷ s) h = absurd (omega arith)
cut-short (suc n) [] h = refl
cut-short (suc n) (c ∷ s) h = ap (λ r. c ∷ r) (cut-short n s (omega arith))

section_named-found :
    (name : Text) (xs : List AsmSection) (i j : ℕ)
    → section_named name xs i ≡ some j
    → (sec : AsmSection) × (i ≤ j) × (get_elem? xs (j - i) ≡ some sec) × (sec.name ≡ name)
unfolding section_named
section_named-found name [] i j h = absurd cc
section_named-found name (x ∷ xs) i j h = elim (Bool-cases (str_eq name x.name)) [
  | inl hit ↦
      let same : i ≡ j = ground (arith, hit) in
      (
        x,
        omega arith,
        ap (get_elem? (x ∷ xs)) {y = 0} (omega arith),
        sym (eq-str_eq name x.name hit),
      )
  | inr miss ↦
      let on = section_named-found name xs (i + 1) j (ground (arith, miss)) in
      let at : j - i ≡ suc (j - (i + 1)) = omega (arith, on.1) in
      (on.0, omega (arith, on.1), ap (get_elem? (x ∷ xs)) at ∙ on.2, on.3)
]

section_named-append :
    (name : Text) (sec : AsmSection) (xs : List AsmSection) (i : ℕ)
    → sec.name ≡ name
    → section_named name xs i ≡ none
    → section_named name (xs ++ (sec ∷ [])) i ≡ some (i + length xs)
unfolding section_named
section_named-append name sec [] i same h =
    let hit : str_eq name sec.name ≡ true = ap (str_eq name) same ∙ str_eq_refl name in
    rw hit (ap some (omega arith))
section_named-append name sec (x ∷ xs) i same h =
    let on = section_named-append name sec xs (i + 1) same in
    let at : i + 1 + length xs ≡ i + length (x ∷ xs) = omega arith in ground arith

name-new_section :
    (name : Text) (unwritten : ℕ → ℕ)
    → length name < section_name_size
    → (new_section name unwritten).name ≡ name
unfolding new_section
name-new_section name unwritten short = cut-short 31 name (omega arith)

select_section-named :
    (name : Text) (s : Assembler) (i : ℕ)
    → section_named name s.sections 0 ≡ some i
    → select_section name s ≡ ok (record s { current_section = some i })
unfolding select_section
select_section-named name s i found = rw (select_section, found) refl

select_section-new :
    (name : Text) (s : Assembler)
    → section_named name s.sections 0 ≡ none
    → length s.sections < max_section_list
    → select_section name s
      ≡ ok (record s {
        sections = s.sections ++ (new_section name s.unwritten ∷ []);
        current_section = some (length s.sections);
      })
unfolding select_section create_section
select_section-new name s nothing room =
    let left : ltb (length s.sections) max_section_list ≡ true = ground arith in
    rw (select_section, nothing, create_section, left) refl

-- `.section` with a name of at most 31 characters, and a place left in the list, succeeds: the current
-- section is then one of that name, and the same directive once more changes nothing.
pub select_section_lem :
    (name : Text) (s : Assembler)
    → length name < section_name_size
    → length s.sections < max_section_list
    → (s' : Assembler) × (sec : AsmSection) × (select_section name s ≡ ok s')
      × (current s' ≡ some sec)
      × (sec.name ≡ name)
      × (select_section name s' ≡ ok s')
select_section_lem name s short room = elim (Option-cases (section_named name s.sections 0)) [
  | inr (i, found) ↦
      let at = section_named-found name s.sections 0 i found in
      let s' : Assembler = record s { current_section = some i } in
      (
        s',
        at.0,
        select_section-named name s i found,
        ap (get_elem? s.sections) {x = i} {y = i - 0} (omega arith) ∙ at.2,
        at.3,
        select_section-named name s' i found,
      )
  | inl nothing ↦
      let fresh = new_section name s.unwritten in
      let named = name-new_section name s.unwritten short in
      let end = length s.sections in
      let s' : Assembler = record s {
        sections = s.sections ++ (fresh ∷ []);
        current_section = some end;
      } in
      let found =
        section_named-append name fresh s.sections 0 named nothing
        ∙ ap some {x = 0 + end} {y = end} (omega arith) in
      (
        s',
        fresh,
        select_section-new name s nothing room,
        ap (get_elem? (s.sections ++ (fresh ∷ []))) {x = end} {y = end + 0} (omega arith)
            ∙ get_elem-append_right s.sections (fresh ∷ []) 0,
        named,
        select_section-named name s' end found,
      )
]
