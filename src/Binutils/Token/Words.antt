-- ===== src/Binutils/Token/Words.antt =====
-- binutils/token.c: what the tokenizer reads of a text, and how far it gets.
use cpu.Prelude.{
  ℕ, ◌≤◌, ◌<◌, ◌≡◌, refl, sym, ap, ◌∙◌, arith, inl, inr, Bool, true, false, not, ◌&&◌, some, List,
  [], ◌∷◌, ◌++◌, ◌==◌, if◌then◌else◌, length, Bool-cases,
}
use cpu.Binutils.Text.{Text}
use cpu.Binutils.Token.{separates, is_empty, token_loop, get_next_token, behind_line, skip_comment}

-- A text with no separator in it.
unfoldable pub is_word : Text → Bool
is_word [] = true
is_word (c ∷ s) = if separates c then false else is_word s

unfoldable pub no_newline : Text → Bool
no_newline [] = true
no_newline (c ∷ s) = if c == b'\n' then false else no_newline s

-- The words of a list, each with a separator behind it.
unfoldable pub printed : List (Text × ℕ) → Text → Text
printed [] rest = rest
printed ((w, c) ∷ ws) rest = w ++ (c ∷ printed ws rest)

append_assoc : (xs ys zs : Text) → (xs ++ ys) ++ zs ≡ xs ++ (ys ++ zs)
append_assoc [] ys zs = refl
append_assoc (x ∷ xs) ys zs = ap (λ r. x ∷ r) (append_assoc xs ys zs)

append_nil : (xs : Text) → xs ++ [] ≡ xs
append_nil [] = refl
append_nil (x ∷ xs) = ap (λ r. x ∷ r) (append_nil xs)

is_empty-append : (xs : Text) (c : ℕ) → is_empty (xs ++ (c ∷ [])) ≡ false
is_empty-append [] c = refl
is_empty-append (x ∷ xs) c = refl

pub token_loop-word :
    (token w rest : Text) (c : ℕ)
    → is_word w ≡ true
    → separates c ≡ true
    → is_empty (token ++ w) ≡ false
    → token_loop token (w ++ (c ∷ rest))
      ≡ (record { text = token ++ w; b_getc_last = some c; rest = rest })
unfolding is_word token_loop
token_loop-word token [] rest c word sep full =
    rw (sep, ap is_empty (sym (append_nil token)) ∙ full, append_nil token) refl
token_loop-word token (a ∷ w) rest c word sep full = elim (Bool-cases (separates a)) [
  | inl bad ↦ absurd (ground (arith, bad))
  | inr good ↦ rw good (
      token_loop-word (token ++ (a ∷ [])) w rest c (ground (arith, good)) sep
        (ap is_empty (append_assoc token (a ∷ []) w) ∙ full)
      ∙ ap (λ t. record { text = t; b_getc_last = some c; rest = rest })
          (append_assoc token (a ∷ []) w))
]

-- The rest behind a token, and behind a comment, is no longer than the file.
pub length-rest : (token cs : Text) → length (token_loop token cs).rest ≤ length cs
unfolding token_loop
length-rest token [] = ground arith
length-rest token (c ∷ cs) =
    let on = length-rest (if separates c then token else token ++ (c ∷ [])) cs in
    elim (Bool-cases (separates c && not (is_empty token))) [
      | inl ends ↦ rw ends ground arith
      | inr goes ↦ rw goes ground (arith, on)
    ]

pub length-behind_line : (cs : Text) → length (behind_line cs) ≤ length cs
unfolding behind_line
length-behind_line [] = ground arith
length-behind_line (c ∷ cs) = ground (arith, length-behind_line cs)

-- Only an empty token leaves the file as long as it was.
pub length-rest_strict :
    (cs : Text)
    → is_empty (get_next_token cs).text ≡ false
    → length (get_next_token cs).rest < length cs
unfolding token_loop
length-rest_strict [] full = absurd cc
length-rest_strict (c ∷ cs) full = elim (Bool-cases (separates c)) [
  | inl sep ↦ rw sep ground (arith, length-rest [] cs)
  | inr word ↦ rw word ground (arith, length-rest (c ∷ []) cs)
]

-- Separators in front of a token are passed over.
pub get_next_token-separator :
    (c : ℕ) (cs : Text) → separates c ≡ true → get_next_token (c ∷ cs) ≡ get_next_token cs
unfolding token_loop
get_next_token-separator c cs sep = rw sep refl

not_newline : (c : ℕ) (s : Text) → no_newline (c ∷ s) ≡ true → (c == b'\n') ≡ false
unfolding no_newline
not_newline c s h = ground arith

behind_line-comment :
    (comment cs : Text) → no_newline comment ≡ true → behind_line (comment ++ (b'\n' ∷ cs)) ≡ cs
unfolding no_newline behind_line
behind_line-comment [] cs h = refl
behind_line-comment (c ∷ comment) cs h =
    rw (not_newline c comment h) (behind_line-comment comment cs (ground arith))

-- A text up to its end of line, with a token begun before it.
pub skip_comment-token_loop :
    (token comment cs : Text)
    → is_empty token ≡ false
    → no_newline comment ≡ true
    → (let t = token_loop token (comment ++ (b'\n' ∷ cs)) in skip_comment t.b_getc_last t.rest) ≡ cs
unfolding token_loop no_newline skip_comment
skip_comment-token_loop token [] cs full one_line = rw full refl
skip_comment-token_loop token (c ∷ comment) cs full one_line = elim (Bool-cases (separates c)) [
  | inl sep ↦
      rw (sep, full, not_newline c comment one_line) (behind_line-comment comment cs (ground arith))
  | inr word ↦ rw word (
      skip_comment-token_loop (token ++ (c ∷ [])) comment cs (is_empty-append token c)
        (ground arith))
]

-- The text keeps its first character.
pub starts-token_loop :
    (d : ℕ) (token cs : Text) → (w : Text) × ((token_loop (d ∷ token) cs).text ≡ d ∷ w)
unfolding token_loop
starts-token_loop d token [] = (token, refl)
starts-token_loop d token (c ∷ cs) = elim (Bool-cases (separates c)) [
  | inl sep ↦ rw sep (token, refl)
  | inr word ↦ rw word (starts-token_loop d (token ++ (c ∷ [])) cs)
]
