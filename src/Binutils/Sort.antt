-- ===== src/Binutils/Sort.antt =====
-- binutils/link.c: the order of the section lists. `qsort` uses the sign of what the comparison returns.
use cpu.Prelude.{
  ℕ, ◌+◌, ◌≡◌, refl, sym, ap, ◌∙◌, Bool, false, not, ◌&&◌, List, [], ◌∷◌, arith, ltb, ◌==◌,
  if◌then◌else◌,
}
use cpu.Binutils.Text.{Text, codes, str_eq}
use cpu.Binutils.Link.{SectionDict, is_bss}

pub data Sign : Type 0 where
  negative zero_sign positive : Sign

-- The sign of `strcmp`.
unfoldable pub strcmp_sign : Text → Text → Sign
strcmp_sign [] [] = zero_sign
strcmp_sign [] (b ∷ t) = negative
strcmp_sign (a ∷ s) [] = positive
strcmp_sign (a ∷ s) (b ∷ t) =
    let on = strcmp_sign s t in if a == b then on else if ltb a b then negative else positive

abbrev pub is_start : SectionDict → Bool
is_start d = str_eq d.name (codes "start_section")

unfoldable pub sect_comparator : SectionDict → SectionDict → Sign
sect_comparator a b =
    if is_start a
    then negative
    else if is_start b
    then positive
    else if a.executable && not b.executable
    then negative
    else if not a.executable && b.executable
    then positive
    else if is_bss a && not (is_bss b)
    then positive
    else if not (is_bss a) && is_bss b
    then negative
    else strcmp_sign a.name b.name

-- `qsort` is a parameter.
abbrev pub sort_sects :
    ((SectionDict → SectionDict → Sign) → List SectionDict → List SectionDict)
    → List SectionDict
    → List SectionDict
sort_sects qsort sects = qsort sect_comparator sects

-- The groups in which sections are laid out: the start section, code, code in bss, variables with a
-- value, bss.
unfoldable pub rank : SectionDict → ℕ
rank d = if is_start d then 0 else (if d.executable then 1 else 3) + (if is_bss d then 1 else 0)

unfoldable pub by_rank : SectionDict → SectionDict → Sign
by_rank a b =
    if ltb (rank a) (rank b)
    then negative
    else if ltb (rank b) (rank a)
    then positive
    else strcmp_sign a.name b.name

abbrev pub flip : Sign → Sign
flip negative = positive
flip zero_sign = zero_sign
flip positive = negative

flip-strcmp_sign : (s t : Text) → strcmp_sign t s ≡ flip (strcmp_sign s t)
unfolding strcmp_sign
flip-strcmp_sign [] [] = refl
flip-strcmp_sign [] (b ∷ t) = refl
flip-strcmp_sign (a ∷ s) [] = refl
flip-strcmp_sign (a ∷ s) (b ∷ t) = let on = flip-strcmp_sign s t in ground (arith, on)

comparator-by_rank :
    (a b : SectionDict) → (is_start a && is_start b) ≡ false → sect_comparator a b ≡ by_rank a b
unfolding sect_comparator by_rank rank
comparator-by_rank a b one_start = ground arith

flip-by_rank : (a b : SectionDict) → by_rank b a ≡ flip (by_rank a b)
unfolding by_rank
flip-by_rank a b = let names = flip-strcmp_sign a.name b.name in ground (arith, names)

-- The comparison of section lists, where not both are the start section, is that of their groups, and of
-- their names within a group: the start section comes first, then code, then variables, with bss behind
-- the rest of each. The comparison the other way round has the opposite sign.
pub sect_comparator_lem :
    (a b : SectionDict)
    → (is_start a && is_start b) ≡ false
    → (sect_comparator a b ≡ by_rank a b) × (sect_comparator b a ≡ flip (sect_comparator a b))
sect_comparator_lem a b one_start =
    let there = comparator-by_rank a b one_start in
    let other : (is_start b && is_start a) ≡ false = ground (arith, one_start) in
    (there, comparator-by_rank b a other ∙ flip-by_rank a b ∙ ap flip (sym there))
