-- ===== src/PfKey/Send/SadLaws.antt =====
-- The messages about associations as the extensions they hold.
use ccips_cfgipsec.Base.{
  ℕ, ◌%◌, ◌^◌, ◌≤◌, ◌≡◌, refl, arith, Bool-cases, inl, inr, List, [], ◌∷◌, ◌++◌, ◌==◌,
  if◌then◌else◌, ok, >>=-ok,
}
use ccips_cfgipsec.Base.Lists.{All, All-append}
use ccips_cfgipsec.PfKey.Lifetime.Fields.{field}
use ccips_cfgipsec.PfKey.Lifetime.Spec.{Extension, association, other_type, Fits, total}
use ccips_cfgipsec.PfKey.Lifetime.Dump.{Message, buffer_of}
use ccips_cfgipsec.Sad.{SadEntry}
use ccips_cfgipsec.PfKey.Send.{Heap, satype_of, pf_setsadbaddr}
use ccips_cfgipsec.PfKey.Send.Sad.{sa_addresses, addsad_request, naming_request}
use ccips_cfgipsec.PfKey.Send.Addresses.{
  Prefix, Sized, address_extension, selectors, selectors-Fits, selector_addresses-holding,
}
use ccips_cfgipsec.PfKey.Send.Buffer.{
  request, holding, emit-header, emit-extension, send_bytes-request,
}
use ccips_cfgipsec.PfKey.Send.SadParts.{
  lifetime_extension, association_of, parameters_of, key_extensions, tunnel_addresses, KeysFit,
  key_extensions-Fits, sa_keys-holding,
}

module _ (heap : Heap) (node : SadEntry) (local : Prefix (node.local_subnet))
    (remote : Prefix (node.remote_subnet)) where
  abbrev pub association_addresses : List Extension
  association_addresses =
      if node.ipsec_mode == 2
      then tunnel_addresses heap node
      else selectors (node.inner_protocol) (node.srcport) (node.dstport) heap local remote

  abbrev pub addsad_message : ℕ → Message
  addsad_message pid =
      request 3 (satype_of (node.protocol_parameters)) pid
        (parameters_of node ++ (association_addresses ++ key_extensions node))

  abbrev pub naming_message : ℕ → ℕ → Message
  naming_message kind pid = request kind (satype_of (node.protocol_parameters)) pid (
      association (node.spi % 2 ^ 32) (field 4 0 ++ field 4 0)
      ∷ selectors (node.inner_protocol) (node.srcport) (node.dstport) heap local remote)

  pub association_addresses-total : total association_addresses ≡ 6
  association_addresses-total = ground arith

  module _ (sized : Sized heap) where
    pub association_addresses-Fits : All Fits association_addresses
    association_addresses-Fits = elim (Bool-cases (node.ipsec_mode == 2)) [
      | inl tunnel ↦ rw tunnel (omega (arith, sized.src_size, sized.dst_size))
      | inr transport ↦ rw transport (
          selectors-Fits (node.inner_protocol) (node.srcport) (node.dstport) heap local remote
            sized)
    ]

    pub naming_message-Fits : (kind pid : ℕ) → All Fits ((naming_message kind pid).extensions)
    naming_message-Fits kind pid = (
      refl,
      selectors-Fits (node.inner_protocol) (node.srcport) (node.dstport) heap local remote sized,
    )

    pub naming_request-message :
        (kind pid : ℕ)
        → naming_request kind pid heap node ≡ ok (buffer_of (naming_message kind pid))
    unfolding naming_request
    naming_request-message kind pid =
        let satype : ℕ = satype_of (node.protocol_parameters) in
        let named : Extension = association (node.spi % 2 ^ 32) (field 4 0 ++ field 4 0) in
        >>=-ok _ (emit-header kind satype pid) (
          >>=-ok _ (emit-extension kind satype pid [] named tt refl (omega arith)) (
            >>=-ok _
              (selector_addresses-holding kind satype pid (node.inner_protocol) (node.srcport)
                (node.dstport) heap local remote sized (named ∷ []) (refl, tt) (omega arith))
              (send_bytes-request kind satype pid ((naming_message kind pid).extensions)
                (naming_message-Fits kind pid))))

    sa_addresses-holding :
        (kind satype pid : ℕ)
        → sa_addresses heap node (holding kind satype pid (parameters_of node))
          ≡ ok (holding kind satype pid (parameters_of node ++ association_addresses))
    unfolding sa_addresses pf_setsadbaddr
    sa_addresses-holding kind satype pid = elim (Bool-cases (node.ipsec_mode == 2)) [
      | inl tunnel ↦
          rw (tunnel, sa_addresses)
            (>>=-ok _
              (emit-extension kind satype pid (parameters_of node)
                (address_extension 5 (node.inner_protocol) 32 (node.srcport) (node.tunnel_local)
                  (heap.src))
                (omega arith) (omega (arith, sized.src_size)) (omega arith))
              (emit-extension kind satype pid
                (parameters_of node
                  ++ (address_extension 5 (node.inner_protocol) 32 (node.srcport)
                        (node.tunnel_local) (heap.src)
                      ∷ []))
                (address_extension 6 (node.inner_protocol) 32 (node.dstport) (node.tunnel_remote)
                  (heap.dst))
                (omega (arith, sized.src_size)) (omega (arith, sized.dst_size)) (omega arith)))
      | inr transport ↦
          rw (transport, sa_addresses)
            (selector_addresses-holding kind satype pid (node.inner_protocol) (node.srcport)
              (node.dstport) heap local remote sized (parameters_of node) (omega arith)
              (omega arith))
    ]

    module _ (keys : KeysFit node) (pid : ℕ) where
      pub addsad_message-Fits : All Fits ((addsad_message pid).extensions)
      addsad_message-Fits =
          let fit : All Fits (parameters_of node) = omega arith in
          All-append Fits (parameters_of node) (association_addresses ++ key_extensions node) fit (
            All-append Fits association_addresses (key_extensions node) association_addresses-Fits
              (key_extensions-Fits node keys))

      pub addsad_request-message :
          addsad_request pid heap node ≡ ok (buffer_of (addsad_message pid))
      unfolding addsad_request
      addsad_request-message =
          let satype : ℕ = satype_of (node.protocol_parameters) in
          let sa : Extension = association_of node in
          let sa2 : Extension =
            other_type 19 2
              ((node.ipsec_mode % 256) ∷ 0 ∷ (field 2 0 ++ (field 4 0 ++ field 4 (node.req_id)))) in
          let hard : Extension =
            lifetime_extension 3 (node.lft_packets_hard) (node.lft_bytes_hard) (node.lft_time_hard)
              (node.lft_idle_hard) in
          let soft : Extension =
            lifetime_extension 4 (node.lft_packets_soft) (node.lft_bytes_soft) (node.lft_time_soft)
              (node.lft_idle_soft) in
          let base : List Extension = parameters_of node ++ association_addresses in
          let base-Fits : All Fits base =
            All-append Fits (parameters_of node) association_addresses (omega arith)
              association_addresses-Fits in
          let small : total base ≤ 400 = omega (arith, association_addresses-total) in
          >>=-ok _ (emit-header 3 satype pid) (
            >>=-ok _ (emit-extension 3 satype pid [] sa tt refl (omega arith)) (
              >>=-ok _
                (emit-extension 3 satype pid (sa ∷ []) sa2 (refl, tt) (omega arith) (omega arith))
                (>>=-ok _
                  (emit-extension 3 satype pid (sa ∷ sa2 ∷ []) hard (omega arith) (omega arith)
                    (omega arith))
                  (>>=-ok _
                    (emit-extension 3 satype pid (sa ∷ sa2 ∷ hard ∷ []) soft (omega arith)
                      (omega arith) (omega arith))
                    (>>=-ok _ (sa_addresses-holding 3 satype pid) (
                      >>=-ok _ (sa_keys-holding node keys 3 satype pid base base-Fits small) (
                        send_bytes-request 3 satype pid ((addsad_message pid).extensions)
                          addsad_message-Fits)))))))
