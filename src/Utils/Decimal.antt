-- ===== src/Utils/Decimal.antt =====
-- `%d` of printf and `atoi` of the C library, on the numbers that the program hands them.
use ccips_cfgipsec.Base.{
  ℕ, zero, suc, ◌+◌, ◌-◌, ◌*◌, ◌/◌, ◌%◌, ◌^◌, ◌<◌, ◌≡◌, Bool, true, false, ◌&&◌, ◌||◌, [], ◌∷◌,
  arith, ltb, leb, ◌==◌, if◌then◌else◌, Bool-cases, inl, inr, ◌∙◌, ap, ◌≤◌, ◌≢◌,
}
use ccips_cfgipsec.Text.{Text}
use native.Mathlib.Numerals.{unary_clauses}
use ccips_cfgipsec.Base.Lists.{length, All}

-- The digits of `n` in front of `acc`. A number below the fuel has no more digits than that.
digits_onto : ℕ → ℕ → Text → Text
digits_onto zero n acc = acc
digits_onto (suc fuel) n acc =
    let more = digits_onto fuel (n / 10) ((48 + n % 10) ∷ acc) in
    if ltb n 10 then (48 + n) ∷ acc else more

-- `%d` at a number that is not negative
unfoldable pub decimal : ℕ → Text
unfolding digits_onto
decimal n = digits_onto (suc n) n []

unfoldable pub is_digit : ℕ → Bool
is_digit c = leb b'0' c && leb c b'9'

-- The value of the leading digits, behind a value that is read already.
unfoldable pub read_digits : ℕ → Text → ℕ
unfolding is_digit
read_digits acc [] = acc
read_digits acc (c ∷ s) =
    let more = read_digits (10 * acc + (c - 48)) s in if is_digit c then more else acc

-- `isspace` in the C locale
unfoldable pub is_space : ℕ → Bool
is_space c = (c == 32) || (leb 9 c && leb c 13)

-- An `int` is its 32 bits: `-n` is `2 ^ 32 - n`.
unfoldable pub signed_digits : Text → ℕ
unfolding read_digits
signed_digits [] = 0
signed_digits (c ∷ s) =
    if c == b'-'
    then (2 ^ 32 - read_digits 0 s % 2 ^ 32) % 2 ^ 32
    else (if c == b'+' then read_digits 0 s % 2 ^ 32 else read_digits 0 (c ∷ s) % 2 ^ 32)

unfoldable pub atoi : Text → ℕ
unfolding is_space signed_digits
atoi [] = 0
atoi (c ∷ s) = let skipped = atoi s in if is_space c then skipped else signed_digits (c ∷ s)

-- One printed digit is read.
read_digits-digit :
    (a d : ℕ) (rest : Text)
    → d < 10
    → read_digits a ((48 + d) ∷ rest) ≡ read_digits (10 * a + d) rest
unfolding read_digits
read_digits-digit a d rest h =
    let e : 10 * a + (48 + d - 48) ≡ 10 * a + d = omega arith in
    let t : is_digit (48 + d) ≡ true = ground arith in rw (t, e)

-- A tenfold power above `n`, by the recursion of `digits_onto`.
power_of : ℕ → ℕ → ℕ
power_of zero n = 1
power_of (suc fuel) n = let more = 10 * power_of fuel (n / 10) in if ltb n 10 then 10 else more

-- The printed digits of `n` are read as `n` behind whatever the digits before them stand for.
read_digits-onto :
    (fuel n acc : ℕ) (rest : Text)
    → n < fuel
    → read_digits acc (digits_onto fuel n rest) ≡ read_digits (acc * power_of fuel n + n) rest
unfolding digits_onto power_of
read_digits-onto zero n acc rest h = absurd (omega arith)
read_digits-onto (suc fuel) n acc rest h = elim (Bool-cases (ltb n 10)) [
  | inl small ↦ rw small (
      read_digits-digit acc n rest (ground arith)
      ∙ ap (λ (t : ℕ). read_digits t rest) (omega arith))
  | inr big ↦ rw big (
      read_digits-onto fuel (n / 10) acc _ (ground arith)
      ∙ read_digits-digit (acc * power_of fuel (n / 10) + n / 10) (n % 10) rest (omega arith)
      ∙ ap (λ (t : ℕ). read_digits t rest) (omega arith))
]

-- A printed number begins with a digit.
digits_onto-cons :
    (fuel n : ℕ) (acc : Text)
    → n < fuel
    → (c : ℕ) × (r : Text) × (digits_onto fuel n acc ≡ c ∷ r) × (48 ≤ c) × (c ≤ 57)
unfolding digits_onto
digits_onto-cons zero n acc h = absurd (omega arith)
digits_onto-cons (suc fuel) n acc h = elim (Bool-cases (ltb n 10)) [
  | inl small ↦ (48 + n, acc, rw small, omega arith, ground arith)
  | inr big ↦ rw big (digits_onto-cons fuel (n / 10) ((48 + n % 10) ∷ acc) (ground arith))
]

-- Text that begins with a digit is read from there.
atoi-digit : (c : ℕ) (r : Text) → 48 ≤ c → c ≤ 57 → atoi (c ∷ r) ≡ read_digits 0 (c ∷ r) % 2 ^ 32
unfolding atoi signed_digits is_space
atoi-digit c r lo hi =
    let a : is_space c ≡ false = ground arith in
    let b : (c == b'-') ≡ false = ground arith in
    let d : (c == b'+') ≡ false = ground arith in rw (a, b, d)

-- `atoi` reads back a number that `%d` printed.
pub atoi-decimal : (n : ℕ) → n < 2 ^ 32 → atoi (decimal n) ≡ n
unfolding decimal
atoi-decimal n h =
    let (c, r, e, lo, hi) = digits_onto-cons (suc n) n [] (omega arith) in
    let digits : read_digits 0 (digits_onto (suc n) n []) ≡ n =
      read_digits-onto (suc n) n 0 [] (omega arith) ∙ unfold read_digits in omega arith in
    rw e (atoi-digit c r lo hi ∙ rw (← e, digits) (omega arith))

-- A printed number has no `/` in it.
digits_onto-NoSlash :
    (fuel n : ℕ) (acc : Text)
    → All (λ c. c ≢ b'/') acc
    → All (λ c. c ≢ b'/') (digits_onto fuel n acc)
unfolding digits_onto
digits_onto-NoSlash zero n acc h = h
digits_onto-NoSlash (suc fuel) n acc h = elim (Bool-cases (ltb n 10)) [
  | inl small ↦ rw small (omega arith, h)
  | inr big ↦ rw big (digits_onto-NoSlash fuel (n / 10) _ (omega arith, h))
]

pub decimal-NoSlash : (n : ℕ) → All (λ c. c ≢ b'/') (decimal n)
unfolding decimal
decimal-NoSlash n = digits_onto-NoSlash (suc n) n [] tt

pub decimal-cons : (n : ℕ) → (c : ℕ) × (r : Text) × (decimal n ≡ c ∷ r)
unfolding decimal
decimal-cons n = let (c, r, e, _, _) = digits_onto-cons (suc n) n [] (omega arith) in (c, r, e)

-- A number below 10 ^ k has at most k digits.
length-digits_onto :
    (k fuel n : ℕ) (acc : Text)
    → n < 10 ^ suc k
    → n < fuel
    → length (digits_onto fuel n acc) ≤ suc k + length acc
unfolding digits_onto
length-digits_onto k zero n acc small enough = absurd (omega arith)
length-digits_onto zero (suc fuel) n acc small enough =
    let one : ltb n 10 ≡ true = ground (arith, small) in rw one (omega arith)
length-digits_onto (suc k) (suc fuel) n acc small enough = elim (Bool-cases (ltb n 10)) [
  | inl one ↦ rw one (omega arith)
  | inr more ↦
      let low : n < 10 ^ k * 10 * 10 = simp unary_clauses at small in
      let shorter : n / 10 < 10 ^ suc k = simp unary_clauses (omega (arith, low)) in
      rw more (
        omega
          (arith, length-digits_onto k fuel (n / 10) ((48 + n % 10) ∷ acc) shorter (ground arith)))
]

pub length-decimal : (k n : ℕ) → n < 10 ^ suc k → length (decimal n) ≤ suc k
unfolding decimal
length-decimal k n small = omega (arith, length-digits_onto k (suc n) n [] small (omega arith))
