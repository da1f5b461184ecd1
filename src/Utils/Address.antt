-- ===== src/Utils/Address.antt =====
-- `get_ip` and `get_mask` of src/utils/utils.c: the two halves of "address/length".
use ccips_cfgipsec.Base.{
  ℕ, ◌^◌, ◌<◌, ◌≡◌, ◌≢◌, refl, ap, false, Option, none, some, [], ◌∷◌, ◌++◌, arith, ◌==◌,
  if◌then◌else◌, Run, ok, fault, null_deref,
}
use ccips_cfgipsec.Base.Lists.{All}
use ccips_cfgipsec.Text.{Text}
use ccips_cfgipsec.Utils.Decimal.{decimal, atoi, atoi-decimal, decimal-NoSlash, decimal-cons}

-- `s + strspn(s, d)` for a set of one character
unfoldable pub skip_delims : ℕ → Text → Text
skip_delims d [] = []
skip_delims d (c ∷ s) = let rest = skip_delims d s in if c == d then rest else c ∷ s

-- The characters before the next `d`, and what follows that `d`.
unfoldable pub split_at : ℕ → Text → Text × Text
split_at d [] = ([], [])
split_at d (c ∷ s) =
    let (front, rest) = split_at d s in if c == d then ([], s) else (c ∷ front, rest)

-- `strtok`: NULL if only delimiters are left, else the token and where the next call goes on.
token_of : ℕ → Text → Option (Text × Text)
unfolding split_at
token_of d [] = none
token_of d (c ∷ s) = some (split_at d (c ∷ s))

unfoldable pub strtok : ℕ → Text → Option (Text × Text)
unfolding skip_delims token_of
strtok d s = token_of d (skip_delims d s)

-- `none` is NULL.
unfoldable pub get_ip : Text → Option Text
get_ip ip_mask = elim (strtok b'/' ip_mask) [ none ↦ none | some (ip, rest) ↦ some ip ]

-- The result is the 32 bits of the `int`. `atoi(NULL)` is a fault, and so is the second `strtok`
-- after a first one that found no token.
unfoldable pub get_mask : Text → Run ℕ
get_mask ip_mask = elim (strtok b'/' ip_mask) [
  | none ↦ fault null_deref
  | some (ip, rest) ↦ elim (strtok b'/' rest) [
    | none ↦ fault null_deref
    | some (mask, rest') ↦ ok (atoi mask)
  ]
]

abbrev pub NoSlash : Text → Type 0
NoSlash s = All (λ c. c ≢ b'/') s

split_at-slash : (s t : Text) → NoSlash s → split_at b'/' (s ++ (b'/' ∷ t)) ≡ (s, t)
unfolding split_at
split_at-slash [] t h = refl
split_at-slash (c ∷ s) t (hc, hs) =
    let e : (c == b'/') ≡ false = ground arith in rw (e, split_at-slash s t hs)

split_at-end : (s : Text) → NoSlash s → split_at b'/' s ≡ (s, [])
unfolding split_at
split_at-end [] h = refl
split_at-end (c ∷ s) (hc, hs) =
    let e : (c == b'/') ≡ false = ground arith in rw (e, split_at-end s hs)

skip_delims-cons : (c : ℕ) (s : Text) → c ≢ b'/' → skip_delims b'/' (c ∷ s) ≡ c ∷ s
unfolding skip_delims
skip_delims-cons c s h = let e : (c == b'/') ≡ false = ground arith in rw e

module _ (c : ℕ) (s : Text) (no_slash : NoSlash (c ∷ s)) where
  strtok-slash : (t : Text) → strtok b'/' (c ∷ (s ++ (b'/' ∷ t))) ≡ some (c ∷ s, t)
  unfolding strtok
  strtok-slash t =
      rw (skip_delims-cons c (s ++ (b'/' ∷ t)) (no_slash.0), split_at-slash (c ∷ s) t no_slash)

  strtok-end : strtok b'/' (c ∷ s) ≡ some (c ∷ s, [])
  unfolding strtok
  strtok-end = rw (skip_delims-cons c s (no_slash.0), split_at-end (c ∷ s) no_slash)

  -- An address with no `/` has no prefix length: `get_mask` hands NULL to `atoi`.
  pub get_mask-fault : get_mask (c ∷ s) ≡ fault null_deref
  unfolding get_mask
  get_mask-fault = rw (strtok-end, get_mask) (unfold strtok skip_delims token_of in refl)

-- A prefix `ip/n` whose address is not empty and has no `/` is taken apart into `ip` and `n`, for
-- every n that 32 bits hold.
pub get_ip-get_mask :
    (c : ℕ) (s : Text) (n : ℕ)
    → NoSlash (c ∷ s)
    → n < 2 ^ 32
    → (get_ip (c ∷ (s ++ (b'/' ∷ decimal n))) ≡ some (c ∷ s))
      × (get_mask (c ∷ (s ++ (b'/' ∷ decimal n))) ≡ ok n)
unfolding get_ip get_mask
get_ip-get_mask c s n no_slash h =
    let (d, r, e) = decimal-cons n in
    let digits : NoSlash (d ∷ r) = rw e at (decimal-NoSlash n) in
    (
      rw (strtok-slash c s no_slash (decimal n), get_ip),
      rw (strtok-slash c s no_slash (decimal n), get_mask)
          (rw (e, strtok-end d r digits) (rw (← e) (ap ok (atoi-decimal n h)))),
    )
