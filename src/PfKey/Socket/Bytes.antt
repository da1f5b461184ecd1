-- ===== src/PfKey/Socket/Bytes.antt =====
-- Fields of bytes are small.
use ccips_cfgipsec.Base.{
  ℕ, zero, suc, ◌+◌, ◌*◌, ◌^◌, ◌≤◌, ◌<◌, ◌≡◌, sym, ◌∙◌, arith, false, List, [], ◌∷◌, ltb, Run, ok,
  fault, bad_pointer, >>=-eq-ok,
}
use ccips_cfgipsec.Base.Lists.{length, take, All}
use ccips_cfgipsec.PfKey.Lifetime.{read_byte, read_field}
use ccips_cfgipsec.PfKey.Lifetime.Fields.{byte_head}
use native.Mathlib.Numerals.{unary_clauses}

pub length-take : (n : ℕ) (xs : List ℕ) → length (take n xs) ≤ n
length-take zero xs = omega arith
length-take (suc n) [] = omega arith
length-take (suc n) (x ∷ xs) = omega (arith, length-take n xs)

pub take-All : (n : ℕ) (xs : List ℕ) → All (λ b. b < 256) xs → All (λ b. b < 256) (take n xs)
take-All zero xs h = tt
take-All (suc n) [] h = tt
take-All (suc n) (x ∷ xs) (hx, h) = (hx, take-All n xs h)

read_byte-small :
    (buffer : List ℕ) (at b : ℕ) → All (λ b. b < 256) buffer → read_byte buffer at ≡ ok b → b < 256
unfolding read_byte
read_byte-small [] at b h run =
    let e : ltb at 0 ≡ false = ground arith in
    absurd (let f : ◌≡◌ {A = Run ℕ} (fault bad_pointer) (ok b) = rw e at run in cc)
read_byte-small (x ∷ xs) zero b (hx, h) run =
    let e : x ≡ b = let f : ok x ≡ ok b = sym (byte_head x xs) ∙ run in cc in rw (← e) hx
read_byte-small (x ∷ xs) (suc at) b (hx, h) run =
    let same : ltb (suc at) (suc (length xs)) ≡ ltb at (length xs) = ground arith in
    read_byte-small xs at b h (rw same at run)

pub read_field-small :
    (n : ℕ) (buffer : List ℕ) (at v : ℕ)
    → All (λ b. b < 256) buffer
    → read_field n buffer at ≡ ok v
    → v < 256 ^ n
unfolding read_field
read_field-small zero buffer at v h run = let e : 0 ≡ v = cc in omega (arith, e)
read_field-small (suc n) buffer at v h run =
    let (b, low, run') = >>=-eq-ok (read_byte buffer at) _ run in
    let (rest, high, run'') = >>=-eq-ok (read_field n buffer (at + 1)) _ run' in
    let e : b + 256 * rest ≡ v = cc in
    let small = read_byte-small buffer at b h low in
    let rest-small = read_field-small n buffer (at + 1) rest h high in
    let bound : v < 256 ^ n * 256 = omega (arith, e, small, rest-small) in simp unary_clauses bound
