-- ===== src/PfKey/Send/Accepted.antt =====
-- What is sent is a whole message: the length in its header is that of its bytes, it fits the buffer, and
-- `parse_pfkey_message` finds every extension of it.
use ccips_cfgipsec.Base.{
  ℕ, ◌+◌, ◌*◌, ◌≤◌, ◌<◌, ◌≡◌, ◌≢◌, refl, ap, ◌∙◌, arith, Bool, true, false, ◌&&◌, not, List, [],
  ◌∷◌, ◌++◌, map, leb, ◌==◌, if◌then◌else◌, ok,
}
use ccips_cfgipsec.Base.Lists.{length, All, length-append}
use ccips_cfgipsec.PfKey.{parse_pfkey_message}
use ccips_cfgipsec.PfKey.Found.{Known, Distinct, places, parse_pfkey_message-places}
use ccips_cfgipsec.PfKey.Lifetime.Spec.{Extension, Fits, total, type_of, all_bytes}
use ccips_cfgipsec.PfKey.Lifetime.Dump.{Message, Sound, buffer_of}
use ccips_cfgipsec.Spd.{SpdEntry}
use ccips_cfgipsec.Sad.{SadEntry}
use ccips_cfgipsec.PfKey.Send.{Heap, satype_of, addpolicy_request}
use ccips_cfgipsec.PfKey.Send.Sad.{addsad_request, delsad_request}
use ccips_cfgipsec.PfKey.Send.Buffer.{request, length-all_bytes}
use ccips_cfgipsec.PfKey.Send.Addresses.{Prefix, Sized, selectors, total-append}
use ccips_cfgipsec.PfKey.Send.Policy.{
  addpolicy_message, addpolicy_message-Fits, addpolicy_request-message,
}
use ccips_cfgipsec.PfKey.Send.SadParts.{
  KeysFit, parameters_of, key_extensions, optional_key, encryption_extension, integrity_extension,
  tunnel_addresses, key_extensions-total,
}
use ccips_cfgipsec.PfKey.Send.SadLaws.{
  association_addresses, addsad_message, addsad_message-Fits, addsad_request-message,
  naming_message, naming_message-Fits, naming_request-message, association_addresses-total,
}

-- No type twice, and none above 26.
is_new : ℕ → List ℕ → Bool
is_new t [] = true
is_new t (u ∷ us) = not (t == u) && is_new t us

well_typed : List ℕ → Bool
well_typed [] = true
well_typed (t ∷ ts) = leb t 26 && (is_new t ts && well_typed ts)

is_new-All :
    (t : ℕ) (es : List Extension)
    → is_new t (map type_of es) ≡ true
    → All (λ f. (t == type_of f) ≡ false) es
unfolding is_new
is_new-All t [] h = tt
is_new-All t (e ∷ es) h = (ground arith, is_new-All t es (ground arith))

well_typed-Known : (es : List Extension) → well_typed (map type_of es) ≡ true → All Known es
unfolding well_typed
well_typed-Known [] h = tt
well_typed-Known (e ∷ es) h = (ground arith, well_typed-Known es (ground arith))

well_typed-Distinct : (es : List Extension) → well_typed (map type_of es) ≡ true → Distinct es
unfolding well_typed
well_typed-Distinct [] h = tt
well_typed-Distinct (e ∷ es) h =
    (is_new-All (type_of e) es (ground arith), well_typed-Distinct es (ground arith))

-- A message of this program that its own parser accepts.
pub record Accepted (m : Message) : Type 0 where
  pub bytes_stated : length (buffer_of m) ≡ 8 * (2 + total (m.extensions))
  pub fits_buffer : length (buffer_of m) ≤ 4096
  pub parsed : parse_pfkey_message (buffer_of m) ≡ ok (0, places 16 (m.extensions) [])

request-Accepted :
    (kind satype pid : ℕ) (es : List Extension)
    → All Fits es
    → 0 < total es
    → total es ≤ 510
    → well_typed (map type_of es) ≡ true
    → Accepted (request kind satype pid es)
request-Accepted kind satype pid es fits some_words small typed =
    let m : Message = request kind satype pid es in
    let size : length (buffer_of m) ≡ 8 * (2 + total es) =
      omega (arith, length-append (all_bytes es) [], length-all_bytes es fits) in
    let sound : Sound m = record {
      some_words = some_words;
      length_fits = omega (arith, small);
      seq_fits = omega arith;
      extensions_fit = fits;
    } in
    record {
      bytes_stated = size;
      fits_buffer = omega (arith, size, small);
      parsed =
          parse_pfkey_message-places m sound (well_typed-Known es typed)
            (well_typed-Distinct es typed);
    }

module _ (heap : Heap) (node : SpdEntry) (local : Prefix (node.local_subnet))
    (remote : Prefix (node.remote_subnet)) (sized : Sized heap) (pid : ℕ) where
  policy-total :
      (0 < total (addpolicy_message heap node local remote pid).extensions)
      × (total (addpolicy_message heap node local remote pid).extensions ≤ 510)
  policy-total = ground arith

  -- For a policy whose two prefixes can be taken apart, the message that `pf_addpolicy` sends holds the policy with
  -- its request (and the ends of the tunnel in tunnel mode) and the two addresses; the length in its header is that of its
  -- bytes, it fits the buffer, and the parser accepts it and finds each extension.
  pub addpolicy_request-Accepted :
      (addpolicy_request pid heap node
        ≡ ok (buffer_of (addpolicy_message heap node local remote pid)))
      × Accepted (addpolicy_message heap node local remote pid)
  addpolicy_request-Accepted = (
    addpolicy_request-message heap node local remote sized pid,
    request-Accepted 14 (satype_of (node.protocol_parameters)) pid _
        (addpolicy_message-Fits heap node local remote sized pid) (policy-total.0) (policy-total.1)
        (unfold well_typed is_new in refl),
  )

module _ (heap : Heap) (node : SadEntry) (local : Prefix (node.local_subnet))
    (remote : Prefix (node.remote_subnet)) where
  -- The types of the extensions of SADB_ADD, in either mode, with and without keys.
  sad_well_typed :
      (tunnel no_encryption no_integrity : Bool)
      → well_typed (
          map type_of (
            parameters_of node
            ++ ((if tunnel
                  then tunnel_addresses heap node
                  else selectors
                      (node.inner_protocol)
                      (node.srcport)
                      (node.dstport)
                      heap
                      local
                      remote)
                ++ (optional_key no_encryption (encryption_extension node)
                    ++ optional_key no_integrity (integrity_extension node)))))
        ≡ true
  unfolding well_typed is_new
  sad_well_typed true true true = refl
  sad_well_typed true true false = refl
  sad_well_typed true false true = refl
  sad_well_typed true false false = refl
  sad_well_typed false true true = refl
  sad_well_typed false true false = refl
  sad_well_typed false false true = refl
  sad_well_typed false false false = refl

  module _ (sized : Sized heap) (pid : ℕ) where
    -- For an association whose two prefixes can be taken apart and whose keys fit the words that are stated for
    -- them, the message that `pf_addsad` sends holds the association, its mode, its hard and soft lifetimes, two addresses
    -- and the keys of its algorithms; the length in its header is that of its bytes, it fits the buffer, and the parser
    -- accepts it and finds each extension.
    pub addsad_request-Accepted :
        KeysFit node
        → (addsad_request pid heap node
            ≡ ok (buffer_of (addsad_message heap node local remote pid)))
          × Accepted (addsad_message heap node local remote pid)
    addsad_request-Accepted keys =
        let es : List Extension = (addsad_message heap node local remote pid).extensions in
        let addresses : List Extension = association_addresses heap node local remote in
        let size : total es ≡ 12 + (6 + total (key_extensions node)) = omega (
          arith,
          total-append addresses (key_extensions node),
          association_addresses-total heap node local remote,
        ) in
        (
          addsad_request-message heap node local remote sized keys pid,
          request-Accepted 3 (satype_of (node.protocol_parameters)) pid es
              (addsad_message-Fits heap node local remote sized keys pid) (omega (arith, size))
              (omega (arith, size, key_extensions-total node keys))
              (sad_well_typed (node.ipsec_mode == 2) (node.encryption_alg == 0)
                (node.integrity_alg == 0)),
        )

    -- For an association in transport mode whose two prefixes can be taken apart and whose keys fit the words that are
    -- stated for them: `pf_addsad` and `pf_delsad` send the same SPI and the same two address extensions, those of the
    -- prefixes; the message of `pf_delsad` holds nothing else, and the parser accepts it.
    pub delsad_request-same :
        KeysFit node
        → node.ipsec_mode ≢ 2
        → (addsad_request pid heap node
            ≡ ok (
                buffer_of (
                  request 3 (satype_of (node.protocol_parameters)) pid (
                    parameters_of node
                    ++ (selectors
                          (node.inner_protocol)
                          (node.srcport)
                          (node.dstport)
                          heap
                          local
                          remote
                        ++ key_extensions node)))))
          × (delsad_request pid heap node
              ≡ ok (buffer_of (naming_message heap node local remote 4 pid)))
          × Accepted (naming_message heap node local remote 4 pid)
    unfolding delsad_request
    delsad_request-same keys transport =
        let e : (node.ipsec_mode == 2) ≡ false = ground arith in
        let same : association_addresses heap node local remote
            ≡ selectors (node.inner_protocol) (node.srcport) (node.dstport) heap local remote =
          rw e refl in
        (
          addsad_request-message heap node local remote sized keys pid
              ∙ ap
                  (λ a. ok (
                    buffer_of (
                      request 3 (satype_of (node.protocol_parameters)) pid
                        (parameters_of node ++ (a ++ key_extensions node)))))
                  same,
          naming_request-message heap node local remote sized 4 pid,
          request-Accepted 4 (satype_of (node.protocol_parameters)) pid
              ((naming_message heap node local remote 4 pid).extensions)
              (naming_message-Fits heap node local remote sized 4 pid) (omega arith) (omega arith)
              (unfold well_typed is_new in refl),
        )
