-- ===== src/PfKey/Walk/Effects.antt =====
-- The loop over extensions that fit their fields: the switch is taken once for each.
use ccips_cfgipsec.Base.{
  ℕ, zero, suc, ◌+◌, ◌-◌, ◌*◌, ◌<◌, ◌≡◌, refl, ap, sym, ◌∙◌, arith, false, List, [], ◌∷◌, ◌++◌, map,
  ◌==◌, Run, ok, >>=-ok,
}
use ccips_cfgipsec.Base.Lists.{length, All, length-append}
use ccips_cfgipsec.PfKey.Lifetime.{read_field}
use ccips_cfgipsec.PfKey.Lifetime.Fields.{read_field-shift}
use ccips_cfgipsec.PfKey.Lifetime.Spec.{
  Extension, Fits, words, type_of, extension_bytes, total, all_bytes, read_words, read_type,
  words-pos, length-extension_bytes,
}
use ccips_cfgipsec.PfKey.Walk.{extension_walk}
use mathlib.Core.List.{append_assoc}

abbrev pub effects {ℓ} : {S : Type ℓ} {I : Type 0} → (I → S → S) → List I → S → S
effects effect [] r = r
effects effect (i ∷ is) r = effects effect is (effect i r)

-- What a message holds is given by items, each of which stands for an extension and has an effect.
module _ {ℓ κ} {S : Type ℓ} {I : Type 0} (take : ℕ → List ℕ → ℕ → S → Run S)
    (extension_of : I → Extension) (ItemFits : I → Type κ) (effect : I → S → S)
    (item-Fits : (i : I) → ItemFits i → Fits (extension_of i))
    (take-effect : (i : I) (front s : List ℕ) (r : S)
      → ItemFits i
      → take
          (type_of (extension_of i))
          (front ++ (extension_bytes (extension_of i) ++ s))
          (length front)
          r
        ≡ ok (effect i r)) where
  pub extension_walk-effects :
      (fuel : ℕ) (front : List ℕ) (is : List I) (s : List ℕ) (r : S)
      → total (map extension_of is) < fuel
      → All ItemFits is
      → extension_walk take fuel
          (front ++ (all_bytes (map extension_of is) ++ s))
          (length front)
          (8 * total (map extension_of is))
          r
        ≡ ok (effects effect is r)
  unfolding extension_walk
  extension_walk-effects zero front is s r lt fits = absurd (omega arith)
  extension_walk-effects (suc fuel) front [] s r lt fits = refl
  extension_walk-effects (suc fuel) front (i ∷ is) s r lt (item_fit, fits) =
      let e : Extension = extension_of i in
      let es : List Extension = map extension_of is in
      let fit : Fits e = item-Fits i item_fit in
      let pos : 0 < words e = words-pos e fit in
      let more : (8 * (words e + total es) == 0) ≡ false = ground (arith, pos) in
      let behind : List ℕ = all_bytes es ++ s in
      let buffer : List ℕ = front ++ (extension_bytes e ++ behind) in
      let split : front ++ ((extension_bytes e ++ all_bytes es) ++ s) ≡ buffer =
        ap (λ t. front ++ t) (append_assoc (extension_bytes e) (all_bytes es) s) in
      let next : buffer ≡ (front ++ extension_bytes e) ++ behind =
        sym (append_assoc front (extension_bytes e) behind) in
      let left : 8 * (words e + total es) - 8 * words e ≡ 8 * total es = omega arith in
      let at : length front + 8 * words e ≡ length (front ++ extension_bytes e) =
        omega (arith, length-append front (extension_bytes e), length-extension_bytes e fit) in
      let typed : read_field 2 buffer (length front + 2) ≡ ok (type_of e) =
        read_field-shift 2 front _ 2 ∙ read_type e behind fit in
      let start : length front ≡ length front + 0 = omega arith in
      let sized : read_field 2 buffer (length front) ≡ ok (words e) =
        ap (read_field 2 buffer) start ∙ read_field-shift 2 front _ 0 ∙ read_words e behind fit in
      rw split (
        rw (more, extension_walk)
          (>>=-ok _ typed (
            >>=-ok _ (take-effect i front behind r item_fit) (
              >>=-ok _ sized (
                rw (left, at, next)
                  (extension_walk-effects fuel (front ++ extension_bytes e) is s (effect i r)
                    (omega (arith, pos)) fits))))))
