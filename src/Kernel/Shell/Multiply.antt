-- ===== src/Kernel/Shell/Multiply.antt =====
-- software/kernel/kernel_main.c: `fxnMul` is multiplication modulo 2 ^ 16.
use Prim.Native.Nat.{min, digits, bit_and-bitwise}
use native.Mathlib.Nat.{
  mul_assoc, mul_comm, add-mul, mul-add, pow-suc, div-div-eq-div-mul, div-add-mod,
  mul-add-mod_self_left, mod-lt, mod-eq_of_lt,
}
use cpu.Prelude.{
  ℕ, zero, suc, ◌+◌, ◌*◌, ◌/◌, ◌%◌, ◌^◌, ◌≤◌, ◌<◌, bit_and, for_up, ◌≡◌, refl, sym, ap, ap₂, ◌∙◌,
  true, false, arith, ltb, ◌==◌, ==_iff, ==_ne, if◌then◌else◌, u16, passes_below,
  passes_below-entry,
}
use cpu.Kernel.Shell.{Product, mul_round, fxn_mul}

abbrev and_digits : ℕ → ℕ → ℕ → ℕ
and_digits = digits (λ b. zero) min

and_digits-zero : (k a : ℕ) → and_digits k 0 a ≡ 0
and_digits-zero zero a = refl
and_digits-zero (suc k) a = refl

and_digits-positive :
    (k x a : ℕ)
    → 0 < x
    → and_digits (suc k) x a ≡ and_digits k (x / 2) (a / 2) * 2 + min (x % 2) (a % 2)
and_digits-positive k zero a h = absurd (omega arith)
and_digits-positive k (suc x) a h = refl

power_positive : (n : ℕ) → 0 < 2 ^ n
power_positive zero = omega arith
power_positive (suc n) = omega (arith, power_positive n)

bit_times : (p d bit : ℕ) → bit < 2 → d ≡ p * 2 → p * bit * 2 + 0 ≡ d * bit
bit_times p d zero below e = omega arith
bit_times p d (suc zero) below e = omega (arith, e)
bit_times p d (suc (suc bit)) below e = absurd (omega arith)

bit_sum : (p d bit r : ℕ) → bit < 2 → d ≡ p * 2 → r < p → r + p * bit < d
bit_sum p d zero r below e less = omega (arith, e)
bit_sum p d (suc zero) r below e less = omega (arith, e)
bit_sum p d (suc (suc bit)) r below e less = absurd (omega arith)

-- One digit of a number.
and_digits-power : (n k a : ℕ) → n < k → and_digits k (2 ^ n) a ≡ 2 ^ n * (a / 2 ^ n % 2)
and_digits-power n zero a h = absurd (omega arith)
and_digits-power zero (suc k) a h =
    let none_left = and_digits-zero k (a / 2) in
    let one_digit : min 1 (a % 2) ≡ a % 2 = omega arith in omega (arith, none_left, one_digit)
and_digits-power (suc n) (suc k) a h =
    let double : 2 ^ suc n ≡ 2 ^ n * 2 = pow-suc 2 n in
    let positive = power_positive n in
    let split = and_digits-positive k (2 ^ suc n) a (omega (arith, double, positive)) in
    let half : 2 ^ suc n / 2 ≡ 2 ^ n = omega (arith, double) in
    let even : min (2 ^ suc n % 2) (a % 2) ≡ 0 = omega (arith, double) in
    let on = and_digits-power n k (a / 2) (omega arith) in
    let deeper : a / 2 / 2 ^ n ≡ a / 2 ^ suc n =
      div-div-eq-div-mul a 2 (2 ^ n) ∙ ap (λ m. a / m) {x = 2 * 2 ^ n} (omega (arith, double)) in
    split
    ∙ ap₂ (λ x y. and_digits k x (a / 2) * 2 + y) half even
    ∙ ap (λ x. x * 2 + 0) (on ∙ ap (λ q. 2 ^ n * (q % 2)) deeper)
    ∙ bit_times (2 ^ n) (2 ^ suc n) (a / 2 ^ suc n % 2) (omega arith) double

below_power : (n : ℕ) → n < 2 ^ n
below_power zero = omega arith
below_power (suc n) = omega (arith, below_power n, pow-suc 2 n)

-- The digit `n` of a number, as the loop tests it.
bit_and-power : (n a : ℕ) → bit_and (2 ^ n) a ≡ 2 ^ n * (a / 2 ^ n % 2)
bit_and-power n a =
    (λ i. bit_and-bitwise (2 ^ n) a i) ∙ and_digits-power n (2 ^ n) a (below_power n)

-- The digits below `n + 1` are those below `n` and the digit `n`.
regroup : (p q r : ℕ) → p * 2 * (q / 2) + (r + p * (q % 2)) ≡ p * q + r
regroup p q r =
    let halves : q ≡ 2 * (q / 2) + q % 2 = omega arith in
    let left = mul_assoc p 2 (q / 2) in
    let right = mul-add p (2 * (q / 2)) (q % 2) in
    let all = ap (λ n. p * n) halves in omega (arith, left, right, all)

mod-power : (n a : ℕ) → a % 2 ^ suc n ≡ a % 2 ^ n + 2 ^ n * (a / 2 ^ n % 2)
mod-power n a =
    let p = 2 ^ n in
    let q = a / p in
    let r = a % p in
    let whole : p * q + r ≡ a = div-add-mod a p in
    let double : 2 ^ suc n ≡ p * 2 = pow-suc 2 n in
    let below : r < p = mod-lt a (power_positive n) in
    let low = bit_sum p (2 ^ suc n) (q % 2) r (omega arith) double below in
    let parts : 2 ^ suc n * (q / 2) + (r + p * (q % 2)) ≡ a =
      ap (λ m. m * (q / 2) + (r + p * (q % 2))) double ∙ regroup p q r ∙ whole in
    ap (λ m. m % 2 ^ suc n) (sym parts)
    ∙ mul-add-mod_self_left (2 ^ suc n) (q / 2) (r + p * (q % 2))
    ∙ mod-eq_of_lt low

small_powers : passes_below 16 (λ n. ltb (2 ^ n) 65536) ≡ true
unfolding passes_below
small_powers = refl

-- After `n` rounds: the mask and the argument are shifted by `n`, and the sum is that of the digits below.
record Shifted (a b n : ℕ) (p : Product) : Type 0 where
  mask : p.mask ≡ u16 (2 ^ n)
  arg : p.b ≡ u16 (b * 2 ^ n)
  sum : p.res ≡ u16 (a % 2 ^ n * b)

-- The sum with one more digit.
more :
    (r b p bit res arg : ℕ)
    → 0 < p
    → bit < 2
    → res ≡ u16 (r * b)
    → arg ≡ u16 (b * p)
    → (if p * bit == 0 then res else u16 (res + arg)) ≡ u16 ((r + p * bit) * b)
more r b p zero res arg positive below r_eq a_eq =
    let none_added : r + p * 0 ≡ r = omega arith in
    let no_bit : (p * 0 == 0) ≡ true = (==_iff (p * 0) 0).1 (omega arith) in
    rw no_bit (r_eq ∙ ap (λ n. u16 (n * b)) (sym none_added))
more r b p (suc zero) res arg positive below r_eq a_eq =
    let one_added : (r + p * 1) * b ≡ r * b + b * p =
      ap (λ n. (r + n) * b) {x = p * 1} {y = p} (omega arith)
      ∙ add-mul r p b
      ∙ ap (λ n. r * b + n) (mul_comm p b) in
    let some_bit : (p * 1 == 0) ≡ false = ==_ne (p * 1) 0 (omega (arith, positive)) in
    rw some_bit omega (arith, r_eq, a_eq, one_added)
more r b p (suc (suc bit)) res arg positive below r_eq a_eq = absurd (omega arith)

Shifted-mul_round :
    (a b n : ℕ) (p : Product) → n < 16 → Shifted a b n p → Shifted a b (suc n) (mul_round a n p)
Shifted-mul_round a b n p below s =
    let double : 2 ^ suc n ≡ 2 ^ n * 2 = pow-suc 2 n in
    let small = passes_below-entry 16 _ n small_powers below in
    let mask : p.mask ≡ 2 ^ n = ground (arith, s.mask) in
    let bit : bit_and p.mask a ≡ 2 ^ n * (a / 2 ^ n % 2) =
      ap (λ m. bit_and m a) mask ∙ bit_and-power n a in
    let shifted : b * 2 ^ suc n ≡ b * 2 ^ n * 2 =
      ap (λ d. b * d) double ∙ sym (mul_assoc b (2 ^ n) 2) in
    record {
      mask = omega (arith, s.mask, double);
      arg = omega (arith, s.arg, shifted);
      sum =
          ap (λ t. if t == 0 then p.res else u16 (p.res + p.b)) bit
          ∙ more (a % 2 ^ n) b (2 ^ n) (a / 2 ^ n % 2) p.res p.b (power_positive n) (omega arith)
              s.sum s.arg
          ∙ ap (λ m. u16 (m * b)) (sym (mod-power n a));
    }

Shifted-rounds :
    (a b n : ℕ)
    → b < 65536
    → n ≤ 16
    → Shifted a b n (for_up n (mul_round a) (record { res = 0; b = b; mask = 1 }))
Shifted-rounds a b zero word below =
    let nothing : 0 ≡ u16 (0 * b) = omega arith in
    record {
      mask = refl;
      arg = omega arith;
      sum = nothing ∙ ap (λ r. u16 (r * b)) {x = 0} {y = a % 1} (omega arith);
    }
Shifted-rounds a b (suc n) word below =
    Shifted-mul_round a b n _ (omega arith) (Shifted-rounds a b n word (omega arith))

-- `fxnMul` is the product of its arguments of 16 bits, modulo 2 ^ 16.
pub fxn_mul_lem : (a b : ℕ) → a < 65536 → b < 65536 → fxn_mul a b ≡ u16 (a * b)
unfolding fxn_mul
fxn_mul_lem a b below word =
    (Shifted-rounds a b 16 word (omega arith)).sum ∙ ap (λ m. u16 (m * b)) (mod-eq_of_lt below)
