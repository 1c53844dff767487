-- ===== src/Kernel/Shell/Arguments.antt =====
-- software/kernel/kernel_main.c: `build_argv` and `get_cmd_idx`, against a splitting of the line and the
-- list of names.
use cpu.Prelude.{
  ℕ, zero, suc, ◌+◌, ◌-◌, ◌≤◌, ◌≡◌, refl, sym, ap, ◌∙◌, subst, ◌≢◌, inl, inr, Bool, true, false,
  not, Option, none, some, List, [], ◌∷◌, map, arith, leb, ◌==◌, if◌then◌else◌, Bool-cases, length,
  get_elem?,
}
use cpu.Kernel.Klib.{CString, strcmp, strchr}
use cpu.Kernel.Klib.Strings.{bytes_ok, strcmp_lem}
use cpu.Kernel.Shell.{
  starts_argument, places_from, argument_places, cut_at_space, build_argv, cmds, cmd_from,
  get_cmd_idx,
}

abbrev nonempty : CString → Bool
nonempty [] = false
nonempty (c ∷ s) = true

-- What stands behind each space of a line, up to the next space, where it is not empty.
unfoldable pub later_words : CString → List CString
later_words [] = []
later_words (c ∷ s) =
    let rest = later_words s in
    if not (c == b' ')
    then rest
    else if nonempty (cut_at_space s)
    then cut_at_space s ∷ rest
    else rest

starts_argument-nonempty : (s : CString) → starts_argument s ≡ nonempty (cut_at_space s)
unfolding cut_at_space
starts_argument-nonempty [] = refl
starts_argument-nonempty (c ∷ s) = ground arith

strchr-here : (c : ℕ) (s : CString) → (c == b' ') ≡ true → strchr (c ∷ s) b' ' ≡ some (c ∷ s)
unfolding strchr
strchr-here c s space = rw space refl

strchr-there : (c : ℕ) (s : CString) → (c == b' ') ≡ false → strchr (c ∷ s) b' ' ≡ strchr s b' '
unfolding strchr
strchr-there c s other = rw other refl

cut-places_from :
    (c : ℕ) (s : CString) (loop : CString → List CString)
    → (c == b' ') ≡ true
    → map cut_at_space (loop s) ≡ later_words s
    → map cut_at_space (places_from loop (some (c ∷ s))) ≡ later_words (c ∷ s)
unfolding later_words
cut-places_from c s loop space on = elim (Bool-cases (starts_argument s)) [
  | inl some_word ↦
      let full = sym (starts_argument-nonempty s) ∙ some_word in
      rw (space, some_word, full) (ap (λ ws. cut_at_space s ∷ ws) on)
  | inr no_word ↦
      let empty = sym (starts_argument-nonempty s) ∙ no_word in rw (space, no_word, empty) on
]

later_words-other :
    (c : ℕ) (s : CString) → (c == b' ') ≡ false → later_words (c ∷ s) ≡ later_words s
unfolding later_words
later_words-other c s other = rw other refl

cut-argument_places :
    (fuel : ℕ) (s : CString)
    → length s ≤ fuel
    → map cut_at_space (argument_places fuel s) ≡ later_words s
unfolding argument_places
cut-argument_places zero [] below = unfold later_words in refl
cut-argument_places zero (c ∷ s) below = absurd (omega arith)
cut-argument_places (suc fuel) [] below = unfold later_words strchr in refl
cut-argument_places (suc fuel) (c ∷ s) below = elim (Bool-cases (c == b' ')) [
  | inl space ↦
      ap (λ o. map cut_at_space (places_from (argument_places fuel) o)) (strchr-here c s space)
      ∙ cut-places_from c s (argument_places fuel) space (cut-argument_places fuel s (omega arith))
  | inr other ↦
      ap (λ o. map cut_at_space (places_from (argument_places fuel) o)) (strchr-there c s other)
      ∙ cut-argument_places (suc fuel) s (omega arith)
      ∙ sym (later_words-other c s other)
]

-- `build_argv` splits its line at every space: the first argument is what stands before the first space,
-- empty or not, and the others are what stands behind a space, up to the next one, where that is not
-- empty. With more than 10 arguments it writes behind its array.
pub build_argv_lem :
    (str : CString)
    → build_argv str ≡ (
        let argv = cut_at_space str ∷ later_words str in
        if leb (length argv) 10 then some argv else none)
unfolding build_argv
build_argv_lem str =
    ap
      (λ ws. if leb (length (cut_at_space str ∷ ws)) 10 then some (cut_at_space str ∷ ws) else none)
      (cut-argument_places (length str) str (omega arith))

unfoldable pub all_bytes_ok : List CString → Bool
all_bytes_ok [] = true
all_bytes_ok (x ∷ xs) = if bytes_ok x then all_bytes_ok xs else false

-- What a search for a name says of the list from the place `i` on.
abbrev Named : List CString → ℕ → CString → Option ℕ → Type 0
Named list i s none = (j : ℕ) → get_elem? list j ≢ some s
Named list i s (some k) = (i ≤ k) × (get_elem? list (k - i) ≡ some s)

absent :
    (x : CString) (list : List CString) (s : CString)
    → x ≢ s
    → ((j : ℕ) → get_elem? list j ≢ some s)
    → (j : ℕ) → get_elem? (x ∷ list) j ≢ some s
absent x list s differ on zero found = differ cc
absent x list s differ on (suc j) found = on j found

Named-later :
    (x : CString) (list : List CString) (i : ℕ) (s : CString) (o : Option ℕ)
    → x ≢ s
    → Named list (i + 1) s o
    → Named (x ∷ list) i s o
Named-later x list i s none differ on = absent x list s differ on
Named-later x list i s (some k) differ (above, at) = (
  omega (arith, above),
  ap (get_elem? (x ∷ list)) {y = suc (k - (i + 1))} (omega (arith, above)) ∙ at,
)

cmd_from-Named :
    (list : List CString) (i : ℕ) (s : CString)
    → all_bytes_ok list ≡ true
    → bytes_ok s ≡ true
    → Named list i s (cmd_from list i s)
unfolding cmd_from all_bytes_ok
cmd_from-Named [] i s good bytes = λ j found. absurd cc
cmd_from-Named (x ∷ list) i s good bytes =
    let compared = strcmp_lem x s (ground arith) bytes in
    elim (Bool-cases (strcmp x s == 0)) [
      | inl same ↦ rw same (
        omega arith,
        ap (get_elem? (x ∷ list)) {y = 0} (omega arith)
            ∙ ap some (compared.0 (ground (arith, same))),
      )
      | inr other ↦ rw other (
          Named-later x list i s (cmd_from list (i + 1) s)
            (λ e. absurd (ground (arith, other, compared.1 e)))
            (cmd_from-Named list (i + 1) s (ground arith) bytes))
    ]

-- The command that a line chooses is the one in the list with that name, and where `get_cmd_idx` finds
-- none, no command of the list has the name.
pub get_cmd_idx_lem :
    (s : CString)
    → bytes_ok s ≡ true
    → ((i : ℕ) → get_cmd_idx s ≡ some i → get_elem? cmds i ≡ some s)
      × (get_cmd_idx s ≡ none → (j : ℕ) → get_elem? cmds j ≢ some s)
unfolding get_cmd_idx all_bytes_ok bytes_ok
get_cmd_idx_lem s bytes =
    let named = cmd_from-Named cmds 0 s refl bytes in
    (
      λ i e.
          let at : Named cmds 0 s (some i) = subst (Named cmds 0 s) e named in
          ap (get_elem? cmds) {x = i} {y = i - 0} (omega arith) ∙ at.1,
      λ e. subst (Named cmds 0 s) e named,
    )
