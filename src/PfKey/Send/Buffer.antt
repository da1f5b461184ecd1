-- ===== src/PfKey/Send/Buffer.antt =====
-- A buffer as what was written into it: writing appends, and filling in a field replaces it.
use ccips_cfgipsec.Base.{
  ℕ, zero, suc, ◌+◌, ◌-◌, ◌*◌, ◌/◌, ◌≤◌, ◌≡◌, refl, ap, sym, ◌∙◌, arith, true, List, [], ◌∷◌, ◌++◌,
  leb, ok, ◌>>=◌,
}
use ccips_cfgipsec.Base.Lists.{length, drop, All, length-append, take-append, drop-append}
use ccips_cfgipsec.PfKey.Lifetime.Fields.{field}
use ccips_cfgipsec.PfKey.Lifetime.Spec.{
  Extension, Fits, words, total, extension_bytes, all_bytes, length-extension_bytes,
}
use ccips_cfgipsec.PfKey.Lifetime.Dump.{Message, buffer_of}
use ccips_cfgipsec.PfKey.Send.{zeros, Out, poke, emit, patch, send_bytes, msg_header}
use mathlib.Core.List.{append_assoc, append-nil}

-- The first bytes are written, and the rest of the 4096 is zero.
abbrev pub written : List ℕ → Out
written w = (length w, w ++ zeros (4096 - length w))

pub length-zeros : (n : ℕ) → length (zeros n) ≡ n
unfolding zeros
length-zeros zero = refl
length-zeros (suc n) = ap (λ k. suc k) (length-zeros n)

drop-zeros : (k n : ℕ) → drop k (zeros n) ≡ zeros (n - k)
unfolding zeros
drop-zeros zero n = let e : n - 0 ≡ n = omega arith in rw e refl
drop-zeros (suc k) zero = let e : 0 - suc k ≡ 0 = omega arith in rw e refl
drop-zeros (suc k) (suc n) = let e : suc n - suc k ≡ n - k = omega arith in rw e (drop-zeros k n)

drop-behind : (front s : List ℕ) (k : ℕ) → drop (length front + k) (front ++ s) ≡ drop k s
drop-behind [] s k = let e : 0 + k ≡ k = omega arith in rw e refl
drop-behind (x ∷ front) s k =
    let e : suc (length front) + k ≡ suc (length front + k) = omega arith in
    rw e (drop-behind front s k)

pub poke-ok :
    (front s bytes : List ℕ)
    → length bytes ≤ length s
    → poke (front ++ s) (length front) bytes ≡ ok (front ++ (bytes ++ drop (length bytes) s))
unfolding poke
poke-ok front s bytes room =
    let fits : leb (length front + length bytes) (length (front ++ s)) ≡ true =
      ground (arith, length-append front s, room) in
    rw fits (rw (take-append front s, drop-behind front s (length bytes)) refl)

pub emit-written :
    (w bytes : List ℕ)
    → length w + length bytes ≤ 4096
    → emit bytes (written w) ≡ ok (written (w ++ bytes))
unfolding emit
emit-written w bytes room =
    let n : ℕ = 4096 - length w in
    let poked : poke (w ++ zeros n) (length w) bytes
        ≡ ok (w ++ (bytes ++ zeros (n - length bytes))) =
      poke-ok w (zeros n) bytes (omega (arith, length-zeros n, room))
      ∙ ap (λ t. ok (w ++ (bytes ++ t))) (drop-zeros (length bytes) n) in
    let len : length w + length bytes ≡ length (w ++ bytes) = sym (length-append w bytes) in
    let left : n - length bytes ≡ 4096 - length (w ++ bytes) =
      omega (arith, length-append w bytes) in
    let flat : w ++ (bytes ++ zeros (n - length bytes))
        ≡ (w ++ bytes) ++ zeros (4096 - length (w ++ bytes)) =
      sym (append_assoc w bytes (zeros (n - length bytes)))
      ∙ ap (λ k. (w ++ bytes) ++ zeros k) left in
    rw (poked, ◌>>=◌) (rw (len, flat) refl)

pub poke-written :
    (w bytes : List ℕ) (n : ℕ)
    → length bytes ≤ n
    → poke (w ++ zeros n) (length w) bytes ≡ ok ((w ++ bytes) ++ zeros (n - length bytes))
poke-written w bytes n room =
    poke-ok w (zeros n) bytes (omega (arith, length-zeros n, room))
    ∙ ap (λ t. ok (w ++ (bytes ++ t))) (drop-zeros (length bytes) n)
    ∙ ap (λ t. ok t) (sym (append_assoc w bytes (zeros (n - length bytes))))

-- A field that stands behind `front` takes a new value of the same size.
pub patch-written :
    (front old new rest : List ℕ)
    → length old ≡ length new
    → patch (length front) new (written (front ++ (old ++ rest)))
      ≡ ok (written (front ++ (new ++ rest)))
unfolding patch
patch-written front old new rest same =
    let n : ℕ = 4096 - length (front ++ (old ++ rest)) in
    let split : (front ++ (old ++ rest)) ++ zeros n ≡ front ++ (old ++ (rest ++ zeros n)) =
      append_assoc front (old ++ rest) (zeros n)
      ∙ ap (λ t. front ++ t) (append_assoc old rest (zeros n)) in
    let poked : poke (front ++ (old ++ (rest ++ zeros n))) (length front) new
        ≡ ok (front ++ (new ++ (rest ++ zeros n))) =
      poke-ok front (old ++ (rest ++ zeros n)) new
        (omega (arith, same, length-append old (rest ++ zeros n)))
      ∙ ap (λ t. ok (front ++ (new ++ t)))
          (ap (λ k. drop k (old ++ (rest ++ zeros n))) (sym same)
            ∙ drop-append old (rest ++ zeros n)) in
    let flat : front ++ (new ++ (rest ++ zeros n)) ≡ (front ++ (new ++ rest)) ++ zeros n =
      ap (λ t. front ++ t) (sym (append_assoc new rest (zeros n)))
      ∙ sym (append_assoc front (new ++ rest) (zeros n)) in
    let len : length (front ++ (old ++ rest)) ≡ length (front ++ (new ++ rest)) = omega (
      arith,
      same,
      length-append front (old ++ rest),
      length-append front (new ++ rest),
      length-append old rest,
      length-append new rest,
    ) in
    rw (split, poked, ◌>>=◌) (rw (flat, len) refl)

-- What is sent is what was written, with its length in 64-bit words in the header.
pub send_bytes-written :
    (front rest : List ℕ)
    → length front ≡ 4
    → send_bytes (written (front ++ (field 2 0 ++ rest)))
      ≡ ok (front ++ (field 2 ((6 + length rest) / 8) ++ rest))
unfolding send_bytes
send_bytes-written front rest four =
    let w : List ℕ = front ++ (field 2 0 ++ rest) in
    let len : length w ≡ 6 + length rest =
      omega (arith, four, length-append front (field 2 0 ++ rest)) in
    let words : List ℕ = field 2 (length w / 8) in
    let patched : patch 4 words (written w) ≡ ok (written (front ++ (words ++ rest))) =
      ap (λ k. patch k words (written w)) (sym four)
      ∙ patch-written front (field 2 0) words rest refl in
    rw (patched, ◌>>=◌) (rw (take-append (front ++ (words ++ rest)) _) (rw len refl))

-- A message that this program sends: the kernel's number and reports are 0.
abbrev pub request : ℕ → ℕ → ℕ → List Extension → Message
request kind satype pid extensions = record {
  kind = kind;
  error = 0;
  satype = satype;
  reserved = 0;
  seq = 0;
  pid = pid;
  extensions = extensions;
  stale = [];
}

-- The buffer behind the extensions that were written already.
abbrev pub holding : ℕ → ℕ → ℕ → List Extension → Out
holding kind satype pid es = written (msg_header kind satype pid ++ all_bytes es)

pub length-all_bytes : (es : List Extension) → All Fits es → length (all_bytes es) ≡ 8 * total es
length-all_bytes [] fits = refl
length-all_bytes (e ∷ es) (fit, fits) = omega (
  arith,
  length-append (extension_bytes e) (all_bytes es),
  length-extension_bytes e fit,
  length-all_bytes es fits,
)

pub all_bytes-snoc :
    (es : List Extension) (e : Extension)
    → all_bytes es ++ extension_bytes e ≡ all_bytes (es ++ (e ∷ []))
all_bytes-snoc [] e = sym (append-nil (extension_bytes e))
all_bytes-snoc (f ∷ es) e =
    append_assoc (extension_bytes f) (all_bytes es) (extension_bytes e)
    ∙ ap (λ t. extension_bytes f ++ t) (all_bytes-snoc es e)

module _ (kind satype pid : ℕ) where
  pub emit-header :
      emit (msg_header kind satype pid) (0, zeros 4096) ≡ ok (holding kind satype pid [])
  emit-header = emit-written [] (msg_header kind satype pid) (omega arith)

  pub emit-extension :
      (es : List Extension) (e : Extension)
      → All Fits es
      → Fits e
      → total es + words e ≤ 510
      → emit (extension_bytes e) (holding kind satype pid es)
        ≡ ok (holding kind satype pid (es ++ (e ∷ [])))
  emit-extension es e fits fit room =
      emit-written (msg_header kind satype pid ++ all_bytes es) (extension_bytes e)
        (omega (arith, length-all_bytes es fits, length-extension_bytes e fit, room))
      ∙ ap (λ t. ok (written t))
          (append_assoc (msg_header kind satype pid) (all_bytes es) (extension_bytes e)
            ∙ ap (λ t. msg_header kind satype pid ++ t) (all_bytes-snoc es e))

  pub send_bytes-request :
      (es : List Extension)
      → All Fits es
      → send_bytes (holding kind satype pid es) ≡ ok (buffer_of (request kind satype pid es))
  send_bytes-request es fits =
      let front : List ℕ = 2 ∷ kind ∷ 0 ∷ satype ∷ [] in
      let rest : List ℕ = field 2 0 ++ (field 4 0 ++ (field 4 pid ++ all_bytes es)) in
      let words' : (6 + length rest) / 8 ≡ 2 + total es = omega (arith, length-all_bytes es fits) in
      send_bytes-written front rest refl
      ∙ ap (λ n. ok (front ++ (field 2 n ++ rest))) words'
      ∙ ap
          (λ t.
            ok (
              front
              ++ (field 2 (2 + total es) ++ (field 2 0 ++ (field 4 0 ++ (field 4 pid ++ t))))))
          (sym (append-nil (all_bytes es)))
