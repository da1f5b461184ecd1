-- ===== src/PfKey/Send/Key.antt =====
-- A key in the buffer: where the stated words hold it, it is one more extension.
use ccips_cfgipsec.Base.{
  ℕ, zero, suc, ◌+◌, ◌-◌, ◌*◌, ◌^◌, ◌≤◌, ◌<◌, ◌≡◌, refl, ap, sym, ◌∙◌, arith, List, [], ◌∷◌, ◌++◌,
  ok, ◌>>=◌, >>=-ok,
}
use ccips_cfgipsec.Base.Lists.{length, All, length-append}
use ccips_cfgipsec.PfKey.Lifetime.Fields.{field}
use ccips_cfgipsec.PfKey.Lifetime.Spec.{Extension, other_type, Fits, total, all_bytes}
use ccips_cfgipsec.PfKey.Send.{zeros, poke, msg_header}
use ccips_cfgipsec.PfKey.Send.Sad.{emit_key}
use ccips_cfgipsec.PfKey.Send.Buffer.{
  written, holding, poke-written, length-zeros, length-all_bytes, all_bytes-snoc,
}
use mathlib.Core.List.{append_assoc}

zeros-add : (k n : ℕ) → zeros (k + n) ≡ zeros k ++ zeros n
unfolding zeros
zeros-add zero n = let e : 0 + n ≡ n = omega arith in rw e refl
zeros-add (suc k) n =
    let e : suc k + n ≡ suc (k + n) = omega arith in rw e (ap (λ t. 0 ∷ t) (zeros-add k n))

-- A key that the stated words hold is followed by zeros up to their end.
abbrev pub key_extension : ℕ → ℕ → ℕ → List ℕ → Extension
key_extension exttype n bits key =
    other_type exttype n (field 2 bits ++ (field 2 0 ++ (key ++ zeros (8 * n - (8 + length key)))))

abbrev pub KeyFits : ℕ → List ℕ → Type 0
KeyFits n key = 8 + length key ≤ 8 * n

pub key_extension-Fits :
    (exttype n bits : ℕ) (key : List ℕ)
    → KeyFits n key
    → 2 < exttype
    → exttype < 2 ^ 16
    → n < 2 ^ 16
    → Fits (key_extension exttype n bits key)
key_extension-Fits exttype n bits key fit low high small =
    let pad : ℕ = 8 * n - (8 + length key) in
    let size : length (key ++ zeros pad) ≡ 8 * n - 8 =
      omega (arith, length-append key (zeros pad), length-zeros pad, fit) in
    omega (arith, size, low, high, small, fit)

append_four : (a b c d e : List ℕ) → ((a ++ b) ++ c) ++ (d ++ e) ≡ (a ++ (b ++ (c ++ d))) ++ e
append_four a b c d e =
    append_assoc (a ++ b) c (d ++ e)
    ∙ append_assoc a b (c ++ (d ++ e))
    ∙ ap (λ t. a ++ (b ++ t)) (sym (append_assoc c d e))
    ∙ ap (λ t. a ++ t) (sym (append_assoc b (c ++ d) e))
    ∙ sym (append_assoc a (b ++ (c ++ d)) e)

-- A header of eight bytes, a key behind it, and zeros up to the end of the words.
key-written :
    (w h key : List ℕ) (pad : ℕ)
    → length h ≡ 8
    → length w + (8 + length key + pad) ≤ 4096
    → (do
      buffer1 ← poke (w ++ zeros (4096 - length w)) (length w) h
      buffer2 ← poke buffer1 (length w + 8) key
      ok (length w + (8 + length key + pad), buffer2))
      ≡ ok (written (w ++ (h ++ (key ++ zeros pad))))
key-written w h key pad eight room =
    let left : ℕ = 4096 - length w in
    let left8 : ℕ = left - length h in
    let done : List ℕ = w ++ (h ++ (key ++ zeros pad)) in
    let size : length done ≡ length w + (8 + length key + pad) = omega (
      arith,
      eight,
      length-append w (h ++ (key ++ zeros pad)),
      length-append h (key ++ zeros pad),
      length-append key (zeros pad),
      length-zeros pad,
    ) in
    let at : length w + 8 ≡ length (w ++ h) = omega (arith, eight, length-append w h) in
    let rest : left8 - length key ≡ pad + (4096 - length done) = omega (arith, eight, size, room) in
    let second : poke ((w ++ h) ++ zeros left8) (length w + 8) key
        ≡ ok (((w ++ h) ++ key) ++ zeros (left8 - length key)) =
      ap (λ k. poke ((w ++ h) ++ zeros left8) k key) at
      ∙ poke-written (w ++ h) key left8 (omega (arith, eight, room)) in
    let flat : ((w ++ h) ++ key) ++ zeros (left8 - length key)
        ≡ done ++ zeros (4096 - length done) =
      ap (λ k. ((w ++ h) ++ key) ++ zeros k) rest
      ∙ ap (λ t. ((w ++ h) ++ key) ++ t) (zeros-add pad (4096 - length done))
      ∙ append_four w h key (zeros pad) (zeros (4096 - length done)) in
    >>=-ok _ (poke-written w h left (omega (arith, eight, room)))
      (>>=-ok _ second (rw (flat, ← size) refl))

module _ (kind satype pid : ℕ) where
  pub emit_key-holding :
      (es : List Extension) (exttype n bits : ℕ) (key : List ℕ)
      → All Fits es
      → KeyFits n key
      → total es + n ≤ 510
      → emit_key exttype n bits key (holding kind satype pid es)
        ≡ ok (holding kind satype pid (es ++ (key_extension exttype n bits key ∷ [])))
  unfolding emit_key
  emit_key-holding es exttype n bits key fits fit room =
      let head : List ℕ = msg_header kind satype pid in
      let w : List ℕ = head ++ all_bytes es in
      let h : List ℕ = field 2 n ++ (field 2 exttype ++ (field 2 bits ++ field 2 0)) in
      let pad : ℕ = 8 * n - (8 + length key) in
      let words' : 8 * n ≡ 8 + length key + pad = omega (arith, fit) in
      ap
        (λ k. do
          buffer1 ← poke (w ++ zeros (4096 - length w)) (length w) h
          buffer2 ← poke buffer1 (length w + 8) key
          ok (length w + k, buffer2))
        words'
      ∙ key-written w h key pad refl (omega (arith, length-all_bytes es fits, fit, room))
      ∙ ap (λ t. ok (written t))
          (append_assoc head (all_bytes es) (h ++ (key ++ zeros pad))
            ∙ ap (λ t. head ++ t) (all_bytes-snoc es (key_extension exttype n bits key)))
