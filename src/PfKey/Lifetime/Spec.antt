-- ===== src/PfKey/Lifetime/Spec.antt =====
-- A dump as the messages that the kernel means, their bytes, and what the node gets of them.
use ccips_cfgipsec.Base.{
  ℕ, zero, suc, ◌+◌, ◌-◌, ◌*◌, ◌^◌, ◌<◌, ◌≡◌, refl, ap, sym, ◌∙◌, arith, Bool, false, ◌||◌, List,
  [], ◌∷◌, ◌++◌, ◌==◌, if◌then◌else◌, ok, ◌>>=◌,
}
use ccips_cfgipsec.Base.Lists.{length, All, length-append}
use ccips_cfgipsec.Sad.{SadEntry}
use ccips_cfgipsec.PfKey.Lifetime.{read_field, read_network, take_extension, extension_loop}
use mathlib.Core.List.{append_assoc}
use ccips_cfgipsec.PfKey.Lifetime.Fields.{
  field, network, read_field-shift, read_field-field, read_network-shift, read_network-network,
}

-- An extension of a message: an association with its SPI, the current lifetimes, or one of another type.
pub data Extension : Type 0 where
  association : ℕ → List ℕ → Extension
  lifetime : ℕ → ℕ → ℕ → ℕ → Extension
  other_type : ℕ → ℕ → List ℕ → Extension

abbrev pub words : Extension → ℕ
words (association spi body) = 2
words (lifetime allocations bytes addtime usetime) = 4
words (other_type type n body) = n

abbrev pub type_of : Extension → ℕ
type_of (association spi body) = 1
type_of (lifetime allocations bytes addtime usetime) = 2
type_of (other_type type n body) = type

abbrev pub extension_bytes : Extension → List ℕ
extension_bytes (association spi body) = field 2 2 ++ (field 2 1 ++ (network spi ++ body))
extension_bytes (lifetime allocations bytes addtime usetime) =
    field 2 4
    ++ (field 2 2
        ++ (field 4 allocations ++ (field 8 bytes ++ (field 8 addtime ++ field 8 usetime))))
extension_bytes (other_type type n body) = field 2 n ++ (field 2 type ++ body)

abbrev pub Fits : Extension → Type 0
Fits (association spi body) = length body ≡ 8
Fits (lifetime allocations bytes addtime usetime) =
    (allocations < 2 ^ 32) × (bytes < 2 ^ 64) × (addtime < 2 ^ 64) × (usetime < 2 ^ 64)
Fits (other_type type n body) =
    (length body + 4 ≡ 8 * n) × (2 < type) × (type < 2 ^ 16) × (n < 2 ^ 16)

-- What an extension makes of whether the SPI was met, and of the node.
abbrev pub effect : Extension → Bool × SadEntry → Bool × SadEntry
effect (association spi body) (found, node) = ((spi == node.spi) || found, node)
effect (lifetime allocations bytes addtime usetime) (found, node) = (
  found,
  record node {
    lft_packets_current = allocations;
    lft_bytes_current = bytes;
    lft_time_current = addtime;
    lft_idle_current = usetime;
  },
)
effect (other_type type n body) r = r

pub length-extension_bytes : (e : Extension) → Fits e → length (extension_bytes e) ≡ 8 * words e
length-extension_bytes (association spi body) fits = omega arith
length-extension_bytes (lifetime a b c d) fits = omega arith
length-extension_bytes (other_type type n body) fits = omega arith

pub read_words :
    (e : Extension) (s : List ℕ) → Fits e → read_field 2 (extension_bytes e ++ s) 0 ≡ ok (words e)
read_words (association spi body) s fits = read_field-field 2 2 _ (omega arith)
read_words (lifetime a b c d) s fits = read_field-field 2 4 _ (omega arith)
read_words (other_type type n body) s (_, _, _, h) = read_field-field 2 n _ (omega arith)

pub read_type :
    (e : Extension) (s : List ℕ) → Fits e → read_field 2 (extension_bytes e ++ s) 2 ≡ ok (type_of e)
read_type (association spi body) s fits =
    read_field-shift 2 (field 2 2) _ 0 ∙ read_field-field 2 1 _ (omega arith)
read_type (lifetime a b c d) s fits =
    read_field-shift 2 (field 2 4) _ 0 ∙ read_field-field 2 2 _ (omega arith)
read_type (other_type type n body) s (_, _, h, _) =
    read_field-shift 2 (field 2 n) _ 0 ∙ read_field-field 2 type _ (omega arith)

take_extension-effect :
    (e : Extension) (front s : List ℕ) (found : Bool) (node : SadEntry)
    → Fits e
    → take_extension (type_of e) (front ++ (extension_bytes e ++ s)) (length front) found node
      ≡ ok (effect e (found, node))
unfolding take_extension
take_extension-effect (association spi body) front s found node fits =
    let got : read_network (front ++ (extension_bytes (association spi body) ++ s))
          (length front + 4)
        ≡ ok spi =
      read_network-shift front _ 4
      ∙ read_network-shift (field 2 2 ++ field 2 1) (network spi ++ (body ++ s)) 0
      ∙ read_network-network spi (body ++ s) in
    rw (got, ◌>>=◌) refl
take_extension-effect (lifetime a b c d) front s found node (ha, hb, hc, hd) =
    let s4 : List ℕ = field 2 4 ++ field 2 2 in
    let s8 : List ℕ = s4 ++ field 4 a in
    let s16 : List ℕ = s8 ++ field 8 b in
    let s24 : List ℕ = s16 ++ field 8 c in
    let whole : List ℕ = extension_bytes (lifetime a b c d) ++ s in
    let got_a : read_field 4 (front ++ whole) (length front + 4) ≡ ok a =
      read_field-shift 4 front whole 4
      ∙ read_field-shift 4 s4 (field 4 a ++ (field 8 b ++ (field 8 c ++ (field 8 d ++ s)))) 0
      ∙ read_field-field 4 a _ (omega arith) in
    let got_b : read_field 8 (front ++ whole) (length front + 8) ≡ ok b =
      read_field-shift 8 front whole 8
      ∙ read_field-shift 8 s8 (field 8 b ++ (field 8 c ++ (field 8 d ++ s))) 0
      ∙ read_field-field 8 b _ (omega arith) in
    let got_c : read_field 8 (front ++ whole) (length front + 16) ≡ ok c =
      read_field-shift 8 front whole 16
      ∙ read_field-shift 8 s16 (field 8 c ++ (field 8 d ++ s)) 0
      ∙ read_field-field 8 c _ (omega arith) in
    let got_d : read_field 8 (front ++ whole) (length front + 24) ≡ ok d =
      read_field-shift 8 front whole 24
      ∙ read_field-shift 8 s24 (field 8 d ++ s) 0
      ∙ read_field-field 8 d _ (omega arith) in
    let idle : (if d == 0 then 0 else d) ≡ d = ground arith in
    rw (got_a, ◌>>=◌) (rw (got_b, ◌>>=◌) (rw (got_c, ◌>>=◌) (rw (got_d, ◌>>=◌) (rw idle refl))))
take_extension-effect (other_type type n body) front s found node (_, h, _, _) =
    let e1 : (type == 1) ≡ false = ground arith in
    let e2 : (type == 2) ≡ false = ground arith in rw (e1, take_extension) (rw e2 refl)

abbrev pub total : List Extension → ℕ
total [] = 0
total (e ∷ es) = words e + total es

abbrev pub all_bytes : List Extension → List ℕ
all_bytes [] = []
all_bytes (e ∷ es) = extension_bytes e ++ all_bytes es

abbrev pub effects : List Extension → Bool × SadEntry → Bool × SadEntry
effects [] r = r
effects (e ∷ es) r = effects es (effect e r)

pub words-pos : (e : Extension) → Fits e → 0 < words e
words-pos (association spi body) fits = omega arith
words-pos (lifetime a b c d) fits = omega arith
words-pos (other_type type n body) fits = omega arith

pub extension_loop-effects :
    (fuel : ℕ) (front : List ℕ) (es : List Extension) (s : List ℕ) (found : Bool) (node : SadEntry)
    → total es < fuel
    → All Fits es
    → extension_loop fuel (front ++ (all_bytes es ++ s)) (length front) (8 * total es) found node
      ≡ ok (effects es (found, node))
unfolding extension_loop
extension_loop-effects zero front es s found node lt fits = absurd (omega arith)
extension_loop-effects (suc fuel) front [] s found node lt fits = refl
extension_loop-effects (suc fuel) front (e ∷ es) s found node lt (fit, fits) =
    let pos : 0 < words e = words-pos e fit in
    let more : (8 * (words e + total es) == 0) ≡ false = ground (arith, pos) in
    let split : front ++ ((extension_bytes e ++ all_bytes es) ++ s)
        ≡ front ++ (extension_bytes e ++ (all_bytes es ++ s)) =
      ap (λ t. front ++ t) (append_assoc (extension_bytes e) (all_bytes es) s) in
    let next : front ++ (extension_bytes e ++ (all_bytes es ++ s))
        ≡ (front ++ extension_bytes e) ++ (all_bytes es ++ s) =
      sym (append_assoc front (extension_bytes e) (all_bytes es ++ s)) in
    let left : 8 * (words e + total es) - 8 * words e ≡ 8 * total es = omega arith in
    let at : length front + 8 * words e ≡ length (front ++ extension_bytes e) =
      omega (arith, length-append front (extension_bytes e), length-extension_bytes e fit) in
    let typed : read_field 2 (front ++ (extension_bytes e ++ (all_bytes es ++ s)))
          (length front + 2)
        ≡ ok (type_of e) =
      read_field-shift 2 front _ 2 ∙ read_type e _ fit in
    let zero_at : length front + 0 ≡ length front = omega arith in
    let sized : read_field 2 (front ++ (extension_bytes e ++ (all_bytes es ++ s))) (length front)
        ≡ ok (words e) =
      ap (read_field 2 (front ++ (extension_bytes e ++ (all_bytes es ++ s)))) (sym zero_at)
      ∙ read_field-shift 2 front _ 0
      ∙ read_words e _ fit in
    let taken = take_extension-effect e front (all_bytes es ++ s) found node fit in
    let r : Bool × SadEntry = effect e (found, node) in
    rw split (
      rw (more, extension_loop)
        (rw (typed, ◌>>=◌)
          (rw (taken, ◌>>=◌)
            (rw (sized, ◌>>=◌)
              (rw (left, at, next)
                (extension_loop-effects fuel (front ++ extension_bytes e) es s (r.0) (r.1)
                  (omega (arith, pos)) fits))))))
