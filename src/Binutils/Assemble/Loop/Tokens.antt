-- ===== src/Binutils/Assemble/Loop/Tokens.antt =====
-- binutils/token.c, as asm.c calls it: the tokens of a printed list of words.
use cpu.Prelude.{
  ℕ, ◌≡◌, refl, ap, ◌∙◌, arith, Bool, true, false, not, ◌&&◌, List, [], ◌∷◌, map, length,
  if◌then◌else◌,
}
use cpu.Binutils.Text.{Text}
use cpu.Binutils.Token.{separates, is_empty}
use cpu.Binutils.Token.Words.{is_word, printed, token_loop-word}
use cpu.Binutils.Assemble.Loop.{next_tokens, behind_tokens}

-- Words that are not empty and have no separator in them, each with a separator to put behind it.
unfoldable pub printable : List (Text × ℕ) → Bool
printable [] = true
printable ((w, c) ∷ ws) =
    if is_word w && (not (is_empty w) && separates c) then printable ws else false

abbrev pub words : List (Text × ℕ) → List Text
words = map (λ p. p.0)

-- The tokens read from words printed with a separator behind each are the words, and what is left of
-- the file is what stood behind them, where every word is not empty and has no separator in it.
pub next_tokens-printed :
    (ws : List (Text × ℕ)) (rest : Text)
    → printable ws ≡ true
    → (next_tokens (length ws) (printed ws rest) ≡ words ws)
      × (behind_tokens (length ws) (printed ws rest) ≡ rest)
unfolding next_tokens behind_tokens printed printable
next_tokens-printed [] rest h = (refl, refl)
next_tokens-printed ((w, c) ∷ ws) rest h =
    let on = next_tokens-printed ws rest (ground arith) in
    let t = token_loop-word [] w (printed ws rest) c (ground arith) (ground arith) (ground arith) in
    (
      ap (λ t. t.text ∷ next_tokens (length ws) t.rest) t ∙ ap (λ ts. w ∷ ts) on.0,
      ap (λ t. behind_tokens (length ws) t.rest) t ∙ on.1,
    )
