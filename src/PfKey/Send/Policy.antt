-- ===== src/PfKey/Send/Policy.antt =====
-- The messages of `pf_addpolicy` and `pf_delpolicy` as the extensions they hold.
use ccips_cfgipsec.Base.{
  ℕ, ◌%◌, ◌≤◌, ◌≡◌, refl, ap, sym, ◌∙◌, arith, Bool-cases, inl, inr, List, [], ◌∷◌, ◌++◌, ◌==◌,
  if◌then◌else◌, ok, >>=-ok,
}
use ccips_cfgipsec.Base.Lists.{length, All, length-append}
use ccips_cfgipsec.PfKey.Lifetime.Fields.{field}
use ccips_cfgipsec.PfKey.Lifetime.Spec.{Extension, other_type, Fits, words}
use ccips_cfgipsec.PfKey.Lifetime.Dump.{Message, buffer_of}
use mathlib.Core.List.{append-nil}
use ccips_cfgipsec.Spd.{SpdEntry}
use ccips_cfgipsec.PfKey.Send.{
  Heap, msg_header, satype_of, sockaddr_in, policy_ext, ipsecrequest, policy_requests,
  addpolicy_request, delpolicy_request,
}
use ccips_cfgipsec.PfKey.Send.Addresses.{
  Prefix, Sized, selectors, selectors-Fits, selector_addresses-holding,
}
use ccips_cfgipsec.PfKey.Send.Buffer.{
  written, emit-written, patch-written, request, holding, emit-header, emit-extension,
  send_bytes-request,
}

-- Policies have type 18.
abbrev pub policy_extension : ℕ → ℕ → ℕ → ℕ → List ℕ → Extension
policy_extension n action dir id requests =
    other_type 18 n (field 2 action ++ ((dir % 256) ∷ 0 ∷ (field 4 id ++ (field 4 0 ++ requests))))

-- What stands behind the policy: the request, and the ends of the tunnel in tunnel mode.
abbrev pub requests : Heap → SpdEntry → List ℕ
requests heap node =
    if node.ipsec_mode == 2
    then ipsecrequest 48 (node.protocol_parameters) (node.ipsec_mode) (node.req_id)
      ++ (sockaddr_in 0 (node.tunnel_local) (heap.tunnel_src)
          ++ sockaddr_in 0 (node.tunnel_remote) (heap.tunnel_dst))
    else ipsecrequest 16 (node.protocol_parameters) (node.ipsec_mode) (node.req_id)

abbrev pub policy_of : Heap → SpdEntry → Extension
policy_of heap node =
    policy_extension (if node.ipsec_mode == 2 then 8 else 4) (node.action) (node.policy_dir)
      (node.index) (requests heap node)

policy_requests-holding :
    (kind satype pid : ℕ) (heap : Heap) (node : SpdEntry)
    → Sized heap
    → policy_requests heap node (
        holding kind satype pid
          (policy_extension 2 (node.action) (node.policy_dir) (node.index) [] ∷ []))
      ≡ ok (holding kind satype pid (policy_of heap node ∷ []))
unfolding policy_requests
policy_requests-holding kind satype pid heap node sized =
    let h : List ℕ = msg_header kind satype pid in
    let before : List ℕ = h ++ policy_ext 2 (node.action) (node.policy_dir) (node.index) in
    let body : List ℕ =
      field 2 18
      ++ (field 2 (node.action)
          ++ ((node.policy_dir % 256) ∷ 0 ∷ (field 4 (node.index) ++ field 4 0))) in
    let r : ℕ → List ℕ =
      λ n. ipsecrequest n (node.protocol_parameters) (node.ipsec_mode) (node.req_id) in
    let tail : List ℕ =
      field 2 (node.protocol_parameters)
      ++ ((node.ipsec_mode % 256)
          ∷ (if node.req_id == 0 then 2 else 3)
          ∷ (field 2 0 ++ (field 4 (node.req_id) ++ field 4 0))) in
    let s : List ℕ = sockaddr_in 0 (node.tunnel_local) (heap.tunnel_src) in
    let d : List ℕ = sockaddr_in 0 (node.tunnel_remote) (heap.tunnel_dst) in
    >>=-ok _ (emit-written before (r 16) (omega arith)) (elim (Bool-cases (node.ipsec_mode == 2)) [
      | inl tunnel ↦ rw tunnel (
          >>=-ok _ (emit-written (before ++ r 16) s (omega (arith, sized.tunnel_src_size))) (
            >>=-ok _
              (emit-written ((before ++ r 16) ++ s) d
                (omega (arith, sized.tunnel_src_size, sized.tunnel_dst_size)))
              (>>=-ok _ (patch-written before (field 2 16) (field 2 48) (tail ++ (s ++ d)) refl) (
                patch-written h (field 2 2) (field 2 8) (body ++ (r 48 ++ (s ++ d))) refl
                ∙ ap (λ t. ok (written (h ++ t)))
                    (sym (append-nil (field 2 8 ++ (body ++ (r 48 ++ (s ++ d))))))))))
      | inr transport ↦ rw transport (patch-written h (field 2 2) (field 2 4) (body ++ r 16) refl)
    ])

policy_of-Fits : (heap : Heap) (node : SpdEntry) → Sized heap → Fits (policy_of heap node)
policy_of-Fits heap node sized = elim (Bool-cases (node.ipsec_mode == 2)) [
  | inl tunnel ↦
      let s : List ℕ = sockaddr_in 0 (node.tunnel_local) (heap.tunnel_src) in
      let d : List ℕ = sockaddr_in 0 (node.tunnel_remote) (heap.tunnel_dst) in
      let ends : length (s ++ d) ≡ 32 =
        omega (arith, length-append s d, sized.tunnel_src_size, sized.tunnel_dst_size) in
      rw tunnel (omega (arith, ends))
  | inr transport ↦ rw transport (omega arith)
]

module _ (heap : Heap) (node : SpdEntry) (local : Prefix (node.local_subnet))
    (remote : Prefix (node.remote_subnet)) where
  abbrev pub policy_selectors : List Extension
  policy_selectors = selectors (node.inner_protocol) (node.srcport) (node.dstport) heap local remote

  abbrev pub addpolicy_message : ℕ → Message
  addpolicy_message pid =
      request 14 (satype_of (node.protocol_parameters)) pid (policy_of heap node ∷ policy_selectors)

  abbrev pub delpolicy_message : Message
  delpolicy_message =
      request 15 (satype_of (node.protocol_parameters)) 0
        (policy_extension 2 (node.action) (node.policy_dir) 0 [] ∷ policy_selectors)

  policy-small : words (policy_of heap node) ≤ 8
  policy-small = ground arith

  module _ (sized : Sized heap) where
    pub addpolicy_message-Fits : (pid : ℕ) → All Fits ((addpolicy_message pid).extensions)
    addpolicy_message-Fits pid = (
      policy_of-Fits heap node sized,
      selectors-Fits (node.inner_protocol) (node.srcport) (node.dstport) heap local remote sized,
    )

    pub delpolicy_message-Fits : All Fits (delpolicy_message.extensions)
    delpolicy_message-Fits = (
      omega arith,
      selectors-Fits (node.inner_protocol) (node.srcport) (node.dstport) heap local remote sized,
    )

    pub addpolicy_request-message :
        (pid : ℕ) → addpolicy_request pid heap node ≡ ok (buffer_of (addpolicy_message pid))
    unfolding addpolicy_request
    addpolicy_request-message pid =
        let satype : ℕ = satype_of (node.protocol_parameters) in
        >>=-ok _ (emit-header 14 satype pid) (
          >>=-ok _
            (emit-extension 14 satype pid []
              (policy_extension 2 (node.action) (node.policy_dir) (node.index) []) tt (omega arith)
              (omega arith))
            (>>=-ok _ (policy_requests-holding 14 satype pid heap node sized) (
              >>=-ok _
                (selector_addresses-holding 14 satype pid (node.inner_protocol) (node.srcport)
                  (node.dstport) heap local remote sized (policy_of heap node ∷ [])
                  (policy_of-Fits heap node sized, tt) (omega (arith, policy-small)))
                (send_bytes-request 14 satype pid ((addpolicy_message pid).extensions)
                  (addpolicy_message-Fits pid)))))

    pub delpolicy_request-message : delpolicy_request heap node ≡ ok (buffer_of delpolicy_message)
    unfolding delpolicy_request
    delpolicy_request-message =
        let satype : ℕ = satype_of (node.protocol_parameters) in
        let policy : Extension = policy_extension 2 (node.action) (node.policy_dir) 0 [] in
        >>=-ok _ (emit-header 15 satype 0) (
          >>=-ok _ (emit-extension 15 satype 0 [] policy tt (omega arith) (omega arith)) (
            >>=-ok _
              (selector_addresses-holding 15 satype 0 (node.inner_protocol) (node.srcport)
                (node.dstport) heap local remote sized (policy ∷ []) (omega arith, tt)
                (omega arith))
              (send_bytes-request 15 satype 0 (delpolicy_message.extensions)
                delpolicy_message-Fits)))
