-- ===== src/Text.antt =====
-- C strings as the program uses them: a text is the list of its bytes before the terminating NUL.
use Prim.Native.Char.{code}
use Prim.Native.String.{String}
use ccips_cfgipsec.Base.{
  ℕ, ◌+◌, ◌≡◌, refl, Bool, true, false, ◌&&◌, ◌||◌, Option, none, some, List, [], ◌∷◌, ◌++◌, map,
  arith, ltb, leb, ◌==◌, ==_refl, if◌then◌else◌, Run, ok, fault, buffer_overflow, ◌≢◌, Bool-cases,
  inl, inr,
}
use ccips_cfgipsec.Base.Lists.{length, All}

abbrev pub Text : Type 0
Text = List ℕ

-- The bytes of a literal of the source.
abbrev pub codes : String → Text
codes String.[] = []
codes (String.◌∷◌ c s) = code c ∷ codes s

-- `strcmp(a, b) == 0`
unfoldable pub str_eq : Text → Text → Bool
str_eq [] [] = true
str_eq [] (b ∷ t) = false
str_eq (a ∷ s) [] = false
str_eq (a ∷ s) (b ∷ t) = (a == b) && str_eq s t

-- `strncmp(p, s, strlen(p)) == 0`
unfoldable pub starts_with : Text → Text → Bool
starts_with [] s = true
starts_with (a ∷ p) [] = false
starts_with (a ∷ p) (b ∷ s) = (a == b) && starts_with p s

-- `strrchr(s, c)`: the text from the last `c` on.
unfoldable pub strrchr : Text → ℕ → Option Text
strrchr [] c = none
strrchr (a ∷ s) c = elim (strrchr s c) [
  | some t ↦ some t
  | none ↦ if a == c then some (a ∷ s) else none
]

-- `strstr(s, needle) != NULL`
unfoldable pub strstr : Text → Text → Bool
unfolding starts_with
strstr [] needle = starts_with needle []
strstr (a ∷ s) needle = starts_with needle (a ∷ s) || strstr s needle

unfoldable pub to_lower : ℕ → ℕ
to_lower c = if leb b'A' c && leb c b'Z' then c + 32 else c

-- `strcasecmp(a, b) == 0` in the C locale
unfoldable pub str_case_eq : Text → Text → Bool
unfolding str_eq to_lower
str_case_eq a b = str_eq (map to_lower a) (map to_lower b)

-- The text that a byte array holds: it ends at the first NUL.
unfoldable pub c_string : List ℕ → Text
c_string [] = []
c_string (b ∷ bs) = if b == 0 then [] else b ∷ c_string bs

-- `strcpy` into a buffer of `size` bytes, of which the terminating NUL takes one.
unfoldable pub strcpy : ℕ → Text → Run Text
strcpy size s = if ltb (length s) size then ok s else fault buffer_overflow

pub str_eq_refl : (s : Text) → str_eq s s ≡ true
unfolding str_eq
str_eq_refl [] = refl
str_eq_refl (a ∷ s) = ground (arith, str_eq_refl s)

pub str_eq→eq : (s t : Text) → str_eq s t ≡ true → s ≡ t
unfolding str_eq
str_eq→eq [] [] h = refl
str_eq→eq [] (b ∷ t) h = cc
str_eq→eq (a ∷ s) [] h = cc
str_eq→eq (a ∷ s) (b ∷ t) h = ground (arith, str_eq→eq s t)

pub starts_with-append : (p s : Text) → starts_with p (p ++ s) ≡ true
unfolding starts_with
starts_with-append [] s = refl
starts_with-append (a ∷ p) s = ground (arith, starts_with-append p s)

pub strrchr-none : (s : Text) (c : ℕ) → All (λ x. x ≢ c) s → strrchr s c ≡ none
unfolding strrchr
strrchr-none [] c h = refl
strrchr-none (x ∷ s) c (hx, hs) =
    let e : (x == c) ≡ false = ground arith in rw (strrchr-none s c hs) (rw e)

-- The last step of a path is what follows its last separator.
pub strrchr-last :
    (p s : Text) (c : ℕ) → All (λ x. x ≢ c) s → strrchr (p ++ (c ∷ s)) c ≡ some (c ∷ s)
unfolding strrchr
strrchr-last [] s c h = rw (strrchr-none s c h) (rw (==_refl c))
strrchr-last (x ∷ p) s c h = rw (strrchr-last p s c h)

pub strstr-infix : (p needle s : Text) → strstr (p ++ (needle ++ s)) needle ≡ true
unfolding strstr
strstr-infix [] [] [] = unfold starts_with in refl
strstr-infix [] [] (x ∷ s) = unfold starts_with in refl
strstr-infix [] (a ∷ needle) s = rw (starts_with-append (a ∷ needle) s)
strstr-infix (x ∷ p) needle s =
    rw (strstr-infix p needle s) (or-true (starts_with needle (x ∷ (p ++ (needle ++ s)))))
  where
    or-true : (b : Bool) → (b || true) ≡ true
    or-true true = refl
    or-true false = refl

-- A copy that fits is the text itself.
pub strcpy-eq-ok : (size : ℕ) (s t : Text) → strcpy size s ≡ ok t → t ≡ s
unfolding strcpy
strcpy-eq-ok size s t run = elim (Bool-cases (ltb (length s) size)) [
  | inl fits ↦ let e : ok s ≡ ok t = rw fits at run in cc
  | inr long ↦ let e : ◌≡◌ {A = Run Text} (fault buffer_overflow) (ok t) = rw long at run in cc
]
