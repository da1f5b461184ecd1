-- ===== src/PfKey/Lifetime/Dump.antt =====
-- A dump as the messages that the kernel means, and what the node gets of it.
use ccips_cfgipsec.Base.{
  ℕ, suc, ◌+◌, ◌-◌, ◌*◌, ◌^◌, ◌<◌, ◌≡◌, ◌≢◌, refl, ◌∙◌, arith, true, false, Bool-cases, inl, inr,
  List, [], ◌∷◌, ◌++◌, map, ◌==◌, ==_refl, Run, ok, fault, blocked, ◌>>=◌, if◌then◌else◌,
}
use ccips_cfgipsec.Base.Lists.{All}
use ccips_cfgipsec.Sysrepo.{Rc, err_ok, not_found}
use ccips_cfgipsec.Sad.{SadEntry}
use ccips_cfgipsec.PfKey.Lifetime.{
  read_byte, read_field, extension_loop, dump_loop, pf_get_sad_lifetime_current_by_spi,
}
use ccips_cfgipsec.PfKey.Lifetime.Fields.{field, read_field-shift, byte_head, read_field-field}
use ccips_cfgipsec.PfKey.Lifetime.Spec.{
  Extension, association, lifetime, Fits, total, all_bytes, effects, extension_loop-effects,
}

-- A message of the dump, and what the buffer holds behind it.
pub record Message : Type 0 where
  pub kind : ℕ
  pub error : ℕ
  pub satype : ℕ
  pub reserved : ℕ
  pub seq : ℕ
  pub pid : ℕ
  pub extensions : List Extension
  pub stale : List ℕ

abbrev pub header : Message → List ℕ
header m =
    2
    ∷ m.kind
    ∷ m.error
    ∷ m.satype
    ∷ (field 2 (2 + total (m.extensions))
        ++ (field 2 (m.reserved) ++ (field 4 (m.seq) ++ field 4 (m.pid))))

abbrev pub buffer_of : Message → List ℕ
buffer_of m = header m ++ (all_bytes (m.extensions) ++ m.stale)

-- What `Read` gives for a message.
abbrev pub answer : Message → ℕ × List ℕ
answer m = (8 * (2 + total (m.extensions)), buffer_of m)

pub record Sound (m : Message) : Type 0 where
  pub some_words : 0 < total (m.extensions)
  pub length_fits : 2 + total (m.extensions) < 2 ^ 16
  pub seq_fits : m.seq < 2 ^ 32
  pub extensions_fit : All Fits (m.extensions)

-- What the messages make of the node: it takes the lifetimes of each, up to the one that has its SPI, or
-- up to the last, whose number is 0.
unfoldable pub dump : List Message → SadEntry → Run (Rc × SadEntry)
dump [] node = fault blocked
dump (m ∷ ms) node =
    let r = effects (m.extensions) (false, node) in
    let rest = dump ms (r.1) in
    if r.0 then ok (err_ok, r.1) else (if m.seq == 0 then ok (not_found, r.1) else rest)

pub read_header :
    (m : Message)
    → Sound m
    → (read_field 2 (buffer_of m) 4 ≡ ok (2 + total (m.extensions)))
      × (read_field 4 (buffer_of m) 8 ≡ ok (m.seq))
read_header m sound =
    let n : ℕ = 2 + total (m.extensions) in
    let behind : List ℕ = all_bytes (m.extensions) ++ m.stale in
    let h4 : List ℕ = 2 ∷ m.kind ∷ m.error ∷ m.satype ∷ [] in
    let h8 : List ℕ = h4 ++ (field 2 n ++ field 2 (m.reserved)) in
    (
      read_field-shift 2 h4
            (field 2 n
              ++ (field 2 (m.reserved) ++ (field 4 (m.seq) ++ (field 4 (m.pid) ++ behind))))
            0
          ∙ read_field-field 2 n _ (omega (arith, sound.length_fits)),
      read_field-shift 4 h8 (field 4 (m.seq) ++ (field 4 (m.pid) ++ behind)) 0
          ∙ read_field-field 4 (m.seq) _ (omega (arith, sound.seq_fits)),
    )

-- Over the dump of any messages that are well formed, the function comes to what the messages mean for the node: no
-- read goes outside a buffer, and no byte of a field is misplaced.
pub pf_get_sad_lifetime_current_by_spi-dump :
    (ms : List Message) (node : SadEntry)
    → All Sound ms
    → pf_get_sad_lifetime_current_by_spi (map answer ms) node ≡ dump ms node
unfolding pf_get_sad_lifetime_current_by_spi dump_loop dump
pf_get_sad_lifetime_current_by_spi-dump [] node sound = refl
pf_get_sad_lifetime_current_by_spi-dump (m ∷ ms) node (sound, sounds) =
    let t : ℕ = total (m.extensions) in
    let (sized, numbered) = read_header m sound in
    let version : read_byte (buffer_of m) 0 ≡ ok 2 = byte_head 2 _ in
    let e : 8 * (2 + t) - 16 ≡ 8 * t = omega arith in
    let same : (8 * (2 + t) == 8 * (2 + t)) ≡ true = ==_refl _ in
    let some_ext : (8 * (2 + t) == 16) ≡ false = ground (arith, sound.some_words) in
    let looped : extension_loop (suc (8 * (2 + t))) (buffer_of m) 16 (8 * t) false node
        ≡ ok (effects (m.extensions) (false, node)) =
      extension_loop-effects (suc (8 * (2 + t))) (header m) (m.extensions) (m.stale) false node
        (omega arith) (sound.extensions_fit) in
    rw (sized, ◌>>=◌)
      (rw (version, ◌>>=◌)
        (rw same (
          rw some_ext (
            rw e (
              rw (looped, ◌>>=◌)
                (rw (numbered, ◌>>=◌)
                  (elim (Bool-cases (effects (m.extensions) (false, node)).0) [
                    | inl met ↦ rw met refl
                    | inr unmet ↦ rw unmet (elim (Bool-cases (m.seq == 0)) [
                      | inl last ↦ rw last refl
                      | inr more ↦ rw more (
                          pf_get_sad_lifetime_current_by_spi-dump ms
                            (effects (m.extensions) (false, node)).1 sounds)
                    ])
                  ])))))))

-- One association of a dump.
pub record Row : Type 0 where
  pub spi : ℕ
  pub body : List ℕ
  pub allocations : ℕ
  pub bytes : ℕ
  pub addtime : ℕ
  pub usetime : ℕ

-- The message for an association: its number, and what the buffer holds behind it.
abbrev pub row_message : ℕ → List ℕ → Row → Message
row_message seq stale r = record {
  kind = 10;
  error = 0;
  satype = 3;
  reserved = 0;
  seq = seq;
  pid = 0;
  extensions =
      association (r.spi) (r.body)
      ∷ lifetime (r.allocations) (r.bytes) (r.addtime) (r.usetime)
      ∷ [];
  stale = stale;
}

abbrev pub with_lifetimes : Row → SadEntry → SadEntry
with_lifetimes r node = record node {
  lft_packets_current = r.allocations;
  lft_bytes_current = r.bytes;
  lft_time_current = r.addtime;
  lft_idle_current = r.usetime;
}

dump-first :
    (before : List Row) (row : Row) (seq : ℕ) (stale : List ℕ) (after : List Message)
    (node : SadEntry)
    → All (λ r. r.spi ≢ node.spi) before
    → row.spi ≡ node.spi
    → dump (map (row_message 1 stale) before ++ (row_message seq stale row ∷ after)) node
      ≡ ok (err_ok, with_lifetimes row node)
unfolding dump
dump-first [] row seq stale after node others same =
    let e : (row.spi == node.spi) ≡ true = ground arith in rw (e, dump) refl
dump-first (r ∷ before) row seq stale after node (other, others) same =
    let e : (r.spi == node.spi) ≡ false = ground arith in
    rw (e, dump) (dump-first before row seq stale after (with_lifetimes r node) others same)

-- Where the kernel dumps its associations, each with its lifetimes, the node gets the current lifetimes of the
-- first association that has its SPI, whatever stands before and after that one, keeps all its other fields, and the result is SR_ERR_OK.
pub pf_get_sad_lifetime_current_by_spi-first :
    (before : List Row) (row : Row) (seq : ℕ) (stale : List ℕ) (after : List Message)
    (node : SadEntry)
    → All Sound (map (row_message 1 stale) before ++ (row_message seq stale row ∷ after))
    → All (λ r. r.spi ≢ node.spi) before
    → row.spi ≡ node.spi
    → pf_get_sad_lifetime_current_by_spi
        (map answer (map (row_message 1 stale) before ++ (row_message seq stale row ∷ after)))
        node
      ≡ ok (err_ok, with_lifetimes row node)
pf_get_sad_lifetime_current_by_spi-first before row seq stale after node sound others same =
    pf_get_sad_lifetime_current_by_spi-dump _ node sound
    ∙ dump-first before row seq stale after node others same
