-- ===== src/Binutils/Section/Bytes.antt =====
-- binutils/sections.c: reading back what was written, one field at a time.
use native.Mathlib.Nat.{add-zero}
use cpu.Prelude.{
  ℕ, zero, suc, ◌+◌, ◌<◌, ◌≡◌, refl, ap, ◌∙◌, some, List, [], ◌∷◌, ◌++◌, arith, length, get_elem?,
}
use cpu.Binutils.Section.{bytes, read, array_of}

pub read-append : (xs ys : List ℕ) → read (length xs) (xs ++ ys) ≡ some (xs, ys)
unfolding read
read-append [] ys = refl
read-append (x ∷ xs) ys = rw (read-append xs ys, read)

pub length-bytes : (array : ℕ → ℕ) (i n : ℕ) → length (bytes array i n) ≡ n
unfolding bytes
length-bytes array i zero = refl
length-bytes array i (suc n) = ap suc (length-bytes array (i + 1) n)

pub read-bytes :
    (array : ℕ → ℕ) (n : ℕ) (rest : List ℕ)
    → read n (bytes array 0 n ++ rest) ≡ some (bytes array 0 n, rest)
read-bytes array n rest =
    ap (λ k. read k (bytes array 0 n ++ rest)) {x = n} {y = length (bytes array 0 n)}
      (omega (arith, length-bytes array 0 n))
    ∙ read-append (bytes array 0 n) rest

array_of-bytes : (array : ℕ → ℕ) (i n j : ℕ) → j < n → array_of (bytes array i n) j ≡ array (i + j)
unfolding bytes array_of
array_of-bytes array i zero j h = absurd (omega arith)
array_of-bytes array i (suc n) zero h = rw add-zero
array_of-bytes array i (suc n) (suc j) h =
    array_of-bytes array (i + 1) n j (omega arith) ∙ ap array (omega arith)

pub array_of-bytes_zero : (array : ℕ → ℕ) (n j : ℕ) → j < n → array_of (bytes array 0 n) j ≡ array j
array_of-bytes_zero array n j below = array_of-bytes array 0 n j below ∙ ap array (omega arith)

pub get_elem-bytes :
    (array : ℕ → ℕ) (i n j : ℕ) (rest : List ℕ)
    → j < n
    → get_elem? (bytes array i n ++ rest) j ≡ some (array (i + j))
unfolding bytes
get_elem-bytes array i zero j rest h = absurd (omega arith)
get_elem-bytes array i (suc n) zero rest h = rw add-zero
get_elem-bytes array i (suc n) (suc j) rest h =
    get_elem-bytes array (i + 1) n j rest (omega arith) ∙ ap (λ k. some (array k)) (omega arith)
