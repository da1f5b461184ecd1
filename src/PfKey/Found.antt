-- ===== src/PfKey/Found.antt =====
-- Parsing finds every extension that was put into a message.
use ccips_cfgipsec.Base.{
  ℕ, zero, suc, ◌+◌, ◌-◌, ◌*◌, ◌≤◌, ◌<◌, ◌≡◌, refl, ap, sym, ◌∙◌, arith, true, false, ◌||◌,
  Bool-cases, inl, inr, none, List, [], ◌∷◌, ◌++◌, ltb, ◌==◌, ok, ◌>>=◌,
}
use ccips_cfgipsec.Base.Lists.{length, get_or, All, All-zip, length-append}
use ccips_cfgipsec.PfKey.{
  pfkey_len, pfkey_align, pfkey_user_len, read_u16, found_ext, parse_loop, parse_pfkey_message,
}
use ccips_cfgipsec.PfKey.Parse.{parse_pfkey_message-run}
use ccips_cfgipsec.PfKey.Lifetime.{read_byte, read_field}
use ccips_cfgipsec.PfKey.Lifetime.Fields.{read_field-shift}
use ccips_cfgipsec.PfKey.Lifetime.Spec.{
  Extension, association, lifetime, other_type, Fits, words, type_of, extension_bytes, total,
  all_bytes, read_words, read_type, length-extension_bytes, words-pos,
}
use ccips_cfgipsec.PfKey.Lifetime.Dump.{Message, Sound, header, buffer_of, read_header}
use mathlib.Core.List.{append_assoc}

pub read_u16-field : (buffer : List ℕ) (at : ℕ) → read_u16 buffer at ≡ read_field 2 buffer at
unfolding read_u16 read_field read_byte
read_u16-field buffer at = elim (Bool-cases (ltb (at + 1) (length buffer))) [
  | inl both ↦
      let one : ltb at (length buffer) ≡ true = ground arith in
      let e : 256 * (get_or buffer (at + 1) 0 + 0) ≡ 256 * get_or buffer (at + 1) 0 = omega arith in
      rw (both, one) (rw e refl)
  | inr short ↦ elim (Bool-cases (ltb at (length buffer))) [
    | inl one ↦ rw (short, one) refl
    | inr none' ↦ rw (short, none') refl
  ]
]

-- The places of extensions that stand one behind the other.
abbrev pub places : ℕ → List Extension → List (ℕ × ℕ) → List (ℕ × ℕ)
places at [] exts = exts
places at (e ∷ es) exts = places (at + 8 * words e) es ((type_of e, at) ∷ exts)

-- No two extensions have the same type.
abbrev pub Distinct : List Extension → Type 0
Distinct [] = Unit
Distinct (e ∷ es) = All (λ f. (type_of e == type_of f) ≡ false) es × Distinct es

abbrev pub Known : Extension → Type 0
Known e = type_of e ≤ 26

All-none : (es : List Extension) → All (λ f. found_ext [] (type_of f) ≡ none) es
unfolding found_ext
All-none [] = tt
All-none (e ∷ es) = (refl, All-none es)

type-pos : (e : Extension) → Fits e → 0 < type_of e
type-pos (association spi body) fit = omega arith
type-pos (lifetime a b c d) fit = omega arith
type-pos (other_type type n body) (_, h, _, _) = omega arith

parse_loop-places :
    (fuel : ℕ) (front : List ℕ) (es : List Extension) (s : List ℕ) (exts : List (ℕ × ℕ))
    → total es < fuel
    → All Fits es
    → All Known es
    → Distinct es
    → All (λ f. found_ext exts (type_of f) ≡ none) es
    → parse_loop fuel (front ++ (all_bytes es ++ s)) exts (length front) (total es)
      ≡ ok (places (length front) es exts, 0)
unfolding parse_loop pfkey_len pfkey_align pfkey_user_len found_ext
parse_loop-places zero front es s exts lt fits known apart new = absurd (omega arith)
parse_loop-places (suc fuel) front [] s exts lt fits known apart new = refl
parse_loop-places (suc fuel) front (e ∷ es) s exts lt (fit, fits) (known, knowns) (apart, aparts)
      (new, news) =
    let whole : List ℕ = extension_bytes e ++ (all_bytes es ++ s) in
    let pos : 0 < words e = words-pos e fit in
    let typed : 0 < type_of e = type-pos e fit in
    let more : ltb (words e + total es) 1 ≡ false = ground arith in
    let split : front ++ ((extension_bytes e ++ all_bytes es) ++ s) ≡ front ++ whole =
      ap (λ t. front ++ t) (append_assoc (extension_bytes e) (all_bytes es) s) in
    let next : front ++ whole ≡ (front ++ extension_bytes e) ++ (all_bytes es ++ s) =
      sym (append_assoc front (extension_bytes e) (all_bytes es ++ s)) in
    let zero_at : length front + 0 ≡ length front = omega arith in
    let sized : read_u16 (front ++ whole) (length front) ≡ ok (words e) =
      read_u16-field (front ++ whole) (length front)
      ∙ ap (read_field 2 (front ++ whole)) (sym zero_at)
      ∙ read_field-shift 2 front whole 0
      ∙ read_words e _ fit in
    let kind : read_u16 (front ++ whole) (length front + 2) ≡ ok (type_of e) =
      read_u16-field (front ++ whole) (length front + 2)
      ∙ read_field-shift 2 front whole 2
      ∙ read_type e _ fit in
    let size_ok : (ltb (words e) 1 || ltb (words e + total es) (words e)) ≡ false = ground arith in
    let kind_ok : (ltb 26 (type_of e) || type_of e == 0) ≡ false = ground arith in
    let left : words e + total es - words e ≡ total es = omega arith in
    let user : length front + words e * 8 ≡ length front + 8 * words e = omega arith in
    let at : length front + 8 * words e ≡ length (front ++ extension_bytes e) =
      omega (arith, length-append front (extension_bytes e), length-extension_bytes e fit) in
    let news' : All (λ f. found_ext ((type_of e, length front) ∷ exts) (type_of f) ≡ none) es =
      All-zip es (λ f a n. rw a n) apart news in
    let ih =
      parse_loop-places fuel (front ++ extension_bytes e) es s ((type_of e, length front) ∷ exts)
        (omega (arith, pos)) fits knowns aparts news' in
    rw split (
      rw (more, parse_loop)
        (rw (sized, ◌>>=◌)
          (rw size_ok (rw (kind, ◌>>=◌) (rw kind_ok (rw new (rw (left, user, at, next) ih)))))))

-- Parsing a message of extensions of known types, of which no two have the same type, accepts it and finds each
-- extension at its place in the buffer, the last one first.
pub parse_pfkey_message-places :
    (m : Message)
    → Sound m
    → All Known (m.extensions)
    → Distinct (m.extensions)
    → parse_pfkey_message (buffer_of m) ≡ ok (0, places 16 (m.extensions) [])
parse_pfkey_message-places m sound known apart =
    let t : ℕ = total (m.extensions) in
    let sized : read_u16 (buffer_of m) 4 ≡ ok (2 + t) =
      read_u16-field (buffer_of m) 4 ∙ (read_header m sound).0 in
    let e : 2 + t - 2 ≡ t = omega arith in
    let walked : parse_loop (suc t) (buffer_of m) [] 16 t ≡ ok (places 16 (m.extensions) [], 0) =
      parse_loop-places (suc t) (header m) (m.extensions) (m.stale) [] (omega arith)
        (sound.extensions_fit) known apart (All-none (m.extensions)) in
    parse_pfkey_message-run (buffer_of m) (2 + t) (places 16 (m.extensions) []) 0 sized
      (omega arith) (omega (arith, sound.length_fits)) (rw e walked)
