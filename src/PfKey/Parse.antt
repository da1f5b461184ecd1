-- ===== src/PfKey/Parse.antt =====
-- Parsing stays inside the buffer, and finds what was put into it.
use ccips_cfgipsec.Base.{
  ℕ, zero, suc, ◌+◌, ◌-◌, ◌*◌, ◌%◌, ◌^◌, ◌≤◌, ◌<◌, ◌≡◌, refl, true, ◌||◌, List, [], ◌∷◌, ltb, ◌==◌,
  arith, Bool-cases, Option-cases, inl, inr, if◌then◌else◌, ok, ◌>>=◌,
}
use ccips_cfgipsec.Base.Lists.{length, get_or, All}
use ccips_cfgipsec.PfKey.{
  sadb_ext_max, pfkey_align, pfkey_len, pfkey_user_len, read_u16, found_ext, parse_loop,
  parse_pfkey_message,
}

-- An extension whose words the buffer holds, of a type that has a place in `out->ext`.
pub record Inside (buffer : List ℕ) (e : ℕ × ℕ) : Type 0 where
  pub type_pos : 0 < e.0
  pub type_max : e.0 ≤ sadb_ext_max
  pub ext_len : ℕ
  pub reads : read_u16 buffer e.1 ≡ ok ext_len
  pub ext_len_pos : 0 < ext_len
  pub holds : e.1 + 8 * ext_len ≤ length buffer

read_u16-ok :
    (buffer : List ℕ) (at : ℕ) → at + 1 < length buffer → (n : ℕ) × (read_u16 buffer at ≡ ok n)
unfolding read_u16
read_u16-ok buffer at lt =
    let e : ltb (at + 1) (length buffer) ≡ true = ground arith in
    (get_or buffer at 0 + 256 * get_or buffer (at + 1) 0, rw e refl)

parse_loop-Inside :
    (fuel : ℕ) (buffer : List ℕ) (exts : List (ℕ × ℕ)) (at len : ℕ)
    → len < fuel
    → at + 8 * len ≤ length buffer
    → All (Inside buffer) exts
    → (exts' : List (ℕ × ℕ)) × (left : ℕ) × (parse_loop fuel buffer exts at len ≡ ok (exts', left))
      × All (Inside buffer) exts'
unfolding parse_loop pfkey_len pfkey_align pfkey_user_len
parse_loop-Inside zero buffer exts at len lt room inside = absurd (omega arith)
parse_loop-Inside (suc fuel) buffer exts at len lt room inside = elim (Bool-cases (ltb len 1)) [
  | inl done ↦ (exts, len, rw (done, parse_loop) refl, inside)
  | inr more ↦
      let pos : 0 < len = ground arith in
      let (ext_len, reads) = read_u16-ok buffer at (omega arith) in
      elim (Bool-cases (ltb ext_len 1 || ltb len ext_len)) [
        | inl bad ↦ (exts, len, rw (more, parse_loop) (rw (reads, ◌>>=◌) (rw bad refl)), inside)
        | inr fine ↦
            let (type, reads') = read_u16-ok buffer (at + 2) (omega arith) in
            elim (Bool-cases (ltb 26 type || type == 0)) [
              | inl bad ↦ (
                exts,
                len,
                rw (more, parse_loop)
                    (rw (reads, ◌>>=◌) (rw fine (rw (reads', ◌>>=◌) (rw bad refl)))),
                inside,
              )
              | inr known ↦ elim (Option-cases (found_ext exts type)) [
                | inr (p, twice) ↦ (
                  exts,
                  len,
                  rw (more, parse_loop)
                      (rw (reads, ◌>>=◌) (rw fine (rw (reads', ◌>>=◌) (rw known (rw twice refl))))),
                  inside,
                )
                | inl new ↦
                    let within : (0 < ext_len) × (ext_len ≤ len) = ground arith in
                    let typed : (0 < type) × (type ≤ 26) = ground arith in
                    let this : Inside buffer (type, at) = record {
                      type_pos = typed.0;
                      type_max = typed.1;
                      ext_len = ext_len;
                      reads = reads;
                      ext_len_pos = within.0;
                      holds = omega (arith, within.1);
                    } in
                    let (exts', left, ran, inside') =
                      parse_loop-Inside fuel buffer ((type, at) ∷ exts) (at + ext_len * 8)
                        (len - ext_len) (omega (arith, within.0)) (omega (arith, within.1))
                        (this, inside) in
                    (
                      exts',
                      left,
                      rw (more, parse_loop)
                          (rw (reads, ◌>>=◌)
                            (rw fine (rw (reads', ◌>>=◌) (rw known (rw new ran))))),
                      inside',
                    )
              ]
            ]
      ]
]

pub parse_pfkey_message-run :
    (buffer : List ℕ) (msg_len : ℕ) (exts : List (ℕ × ℕ)) (left : ℕ)
    → read_u16 buffer 4 ≡ ok msg_len
    → 2 ≤ msg_len
    → msg_len < 2 ^ 16
    → parse_loop (suc (msg_len - 2)) buffer [] 16 (msg_len - 2) ≡ ok (exts, left)
    → parse_pfkey_message buffer ≡ ok (if left == 0 then 0 else 1, exts)
unfolding parse_pfkey_message pfkey_len pfkey_align
parse_pfkey_message-run buffer msg_len exts left reads two small ran =
    let e : (msg_len + 2 ^ 64 - 2) % 2 ^ 64 ≡ msg_len - 2 = omega arith in
    rw (reads, ◌>>=◌) (rw e (rw (ran, ◌>>=◌) refl))

-- Parsing a message whose buffer holds the words that it states, which are two at least, ends without a
-- read outside the buffer; each extension that it finds is of a known type and stands, with its whole
-- stated length, inside the buffer.
pub parse_pfkey_message-Inside :
    (buffer : List ℕ) (msg_len : ℕ)
    → read_u16 buffer 4 ≡ ok msg_len
    → 2 ≤ msg_len
    → msg_len < 2 ^ 16
    → 8 * msg_len ≤ length buffer
    → (rc : ℕ) × (exts : List (ℕ × ℕ)) × (parse_pfkey_message buffer ≡ ok (rc, exts))
      × All (Inside buffer) exts
parse_pfkey_message-Inside buffer msg_len reads two small room =
    let (exts, left, ran, inside) =
      parse_loop-Inside (suc (msg_len - 2)) buffer [] 16 (msg_len - 2) (omega arith) (omega arith)
        tt in
    (_, exts, parse_pfkey_message-run buffer msg_len exts left reads two small ran, inside)
