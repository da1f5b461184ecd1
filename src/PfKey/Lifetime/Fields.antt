-- ===== src/PfKey/Lifetime/Fields.antt =====
-- The fields of a message: what is read back is what was written.
use ccips_cfgipsec.Base.{
  ℕ, zero, suc, ◌+◌, ◌*◌, ◌/◌, ◌%◌, ◌^◌, ◌<◌, ◌≡◌, refl, ap, ◌∙◌, arith, true, List, [], ◌∷◌, ◌++◌,
  ltb, ok, ◌>>=◌,
}
use ccips_cfgipsec.Base.Lists.{length}
use ccips_cfgipsec.PfKey.Lifetime.{read_byte, read_field, read_network}
use native.Mathlib.Numerals.{unary_clauses}

pub read_byte-shift :
    (front s : List ℕ) (k : ℕ) → read_byte (front ++ s) (length front + k) ≡ read_byte s k
unfolding read_byte
read_byte-shift [] s k = let e : 0 + k ≡ k = omega arith in rw e refl
read_byte-shift (x ∷ front) s k =
    let e : suc (length front) + k ≡ suc (length front + k) = omega arith in
    let test : ltb (suc (length front + k)) (suc (length (front ++ s)))
        ≡ ltb (length front + k) (length (front ++ s)) =
      ground arith in
    rw (e, test) (read_byte-shift front s k)

pub read_field-shift :
    (n : ℕ) (front s : List ℕ) (k : ℕ)
    → read_field n (front ++ s) (length front + k) ≡ read_field n s k
unfolding read_field
read_field-shift zero front s k = refl
read_field-shift (suc n) front s k =
    let e : length front + k + 1 ≡ length front + (k + 1) = omega arith in
    rw (read_byte-shift front s k, e, read_field-shift n front s (k + 1)) refl

pub byte_head : (b : ℕ) (s : List ℕ) → read_byte (b ∷ s) 0 ≡ ok b
unfolding read_byte
byte_head b s = let e : ltb 0 (suc (length s)) ≡ true = ground arith in rw e refl

-- The bytes of a number, least first.
abbrev pub field : ℕ → ℕ → List ℕ
field zero v = []
field (suc n) v = (v % 256) ∷ field n (v / 256)

pub read_field-field : (n v : ℕ) (s : List ℕ) → v < 256 ^ n → read_field n (field n v ++ s) 0 ≡ ok v
unfolding read_field
read_field-field zero v s h = let e : 0 ≡ v = omega arith in ap (λ n. ok n) e
read_field-field (suc n) v s h =
    let h' : v < 256 ^ n * 256 = simp unary_clauses at h in
    let low : v / 256 < 256 ^ n = omega (arith, h') in
    let whole : v % 256 + 256 * (v / 256) ≡ v = omega arith in
    let rest : read_field n ((v % 256 ∷ []) ++ (field n (v / 256) ++ s)) 1 ≡ ok (v / 256) =
      read_field-shift n (v % 256 ∷ []) (field n (v / 256) ++ s) 0
      ∙ read_field-field n (v / 256) s low in
    rw (byte_head (v % 256) _, ◌>>=◌) (rw (rest, ◌>>=◌) (rw whole refl))

pub read_network-shift :
    (front s : List ℕ) (k : ℕ) → read_network (front ++ s) (length front + k) ≡ read_network s k
unfolding read_network
read_network-shift front s k =
    let e1 : length front + k + 1 ≡ length front + (k + 1) = omega arith in
    let e2 : length front + k + 2 ≡ length front + (k + 2) = omega arith in
    let e3 : length front + k + 3 ≡ length front + (k + 3) = omega arith in
    rw
      (
        e1,
        e2,
        e3,
        read_byte-shift front s k,
        read_byte-shift front s (k + 1),
        read_byte-shift front s (k + 2),
        read_byte-shift front s (k + 3),
      )
      refl

-- The bytes of a number of 32 bits, most significant first.
abbrev pub network : ℕ → List ℕ
network v = (v / 2 ^ 24) ∷ (v / 2 ^ 16 % 256) ∷ (v / 2 ^ 8 % 256) ∷ (v % 256) ∷ []

pub read_network-network : (v : ℕ) (s : List ℕ) → read_network (network v ++ s) 0 ≡ ok v
unfolding read_network read_byte
read_network-network v s =
    let e1 : ltb 0 (length (network v ++ s)) ≡ true = ground arith in
    let e2 : ltb 1 (length (network v ++ s)) ≡ true = ground arith in
    let e3 : ltb 2 (length (network v ++ s)) ≡ true = ground arith in
    let e4 : ltb 3 (length (network v ++ s)) ≡ true = ground arith in
    let whole : 2 ^ 24 * (v / 2 ^ 24)
          + 2 ^ 16 * (v / 2 ^ 16 % 256)
          + 2 ^ 8 * (v / 2 ^ 8 % 256)
          + v % 256
        ≡ v =
      omega arith in
    rw (e1, e2, e3, e4) (rw whole refl)
