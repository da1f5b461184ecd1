-- ===== src/PfKey/Send/Addresses.antt =====
-- The addresses of a message: the prefixes of the two ends, or the ends of a tunnel.
use ccips_cfgipsec.Base.{
  ℕ, ◌+◌, ◌%◌, ◌≤◌, ◌≡◌, ap, ◌∙◌, arith, some, List, [], ◌∷◌, ◌++◌, ok, >>=-ok,
}
use ccips_cfgipsec.Base.Lists.{length, All, All-snoc}
use ccips_cfgipsec.Text.{Text}
use ccips_cfgipsec.Utils.Address.{get_ip, get_mask}
use ccips_cfgipsec.PfKey.Lifetime.Fields.{field}
use ccips_cfgipsec.PfKey.Lifetime.Spec.{Extension, other_type, Fits, total, words}
use ccips_cfgipsec.PfKey.Send.{
  Heap, sockaddr_in, pf_setsadbaddr, subnet_address, selector_addresses,
}
use mathlib.Core.List.{append_assoc}
use ccips_cfgipsec.PfKey.Send.Buffer.{holding, emit-extension}

-- Source addresses have type 5 and destination addresses 6.
abbrev pub address_extension : ℕ → ℕ → ℕ → ℕ → Text → List ℕ → Extension
address_extension exttype protocol prefixlen port ip sin_zero =
    other_type exttype 3
      ((protocol % 256) ∷ (prefixlen % 256) ∷ (field 2 0 ++ sockaddr_in port ip sin_zero))

-- A prefix that can be taken apart.
pub record Prefix (subnet : Text) : Type 0 where
  pub ip : Text
  pub mask : ℕ
  pub has_ip : get_ip subnet ≡ some ip
  pub has_mask : get_mask subnet ≡ ok mask

-- `malloc` gave each address the eight bytes that are not set.
pub record Sized (heap : Heap) : Type 0 where
  pub src_size : length (heap.src) ≡ 8
  pub dst_size : length (heap.dst) ≡ 8
  pub tunnel_src_size : length (heap.tunnel_src) ≡ 8
  pub tunnel_dst_size : length (heap.tunnel_dst) ≡ 8

module _ (kind satype pid : ℕ) where
  pub subnet_address-holding :
      (exttype protocol port : ℕ) (subnet : Text) (sin_zero : List ℕ) (p : Prefix subnet)
      (es : List Extension)
      → All Fits es
      → Fits (address_extension exttype protocol (p.mask) port (p.ip) sin_zero)
      → total es + 3 ≤ 510
      → subnet_address exttype protocol port subnet sin_zero (holding kind satype pid es)
        ≡ ok (
            holding kind satype pid
              (es ++ (address_extension exttype protocol (p.mask) port (p.ip) sin_zero ∷ [])))
  unfolding subnet_address pf_setsadbaddr
  subnet_address-holding exttype protocol port subnet sin_zero p es fits fit room =
      >>=-ok _ (p.has_mask) (
        rw (p.has_ip) (
          emit-extension kind satype pid es
            (address_extension exttype protocol (p.mask) port (p.ip) sin_zero) fits fit room))

-- The prefixes of the two ends, with their ports
module _ (protocol srcport dstport : ℕ) (heap : Heap) {local remote : Text} (l : Prefix local)
    (r : Prefix remote) where
  abbrev pub selectors : List Extension
  selectors =
      address_extension 5 protocol (l.mask) srcport (l.ip) (heap.src)
      ∷ address_extension 6 protocol (r.mask) dstport (r.ip) (heap.dst)
      ∷ []

  pub selectors-Fits : Sized heap → All Fits selectors
  selectors-Fits sized = omega (arith, sized.src_size, sized.dst_size)

pub total-append : (es fs : List Extension) → total (es ++ fs) ≡ total es + total fs
total-append [] fs = omega arith
total-append (e ∷ es) fs = omega (arith, total-append es fs)

total-snoc : (es : List Extension) (e : Extension) → total (es ++ (e ∷ [])) ≡ total es + words e
total-snoc [] e = omega arith
total-snoc (f ∷ es) e = omega (arith, total-snoc es e)

module _ (kind satype pid : ℕ) (protocol srcport dstport : ℕ) (heap : Heap) {local remote : Text}
    (l : Prefix local) (r : Prefix remote) (sized : Sized heap) where
  pub selector_addresses-holding :
      (es : List Extension)
      → All Fits es
      → total es ≤ 400
      → selector_addresses protocol srcport local dstport remote heap (holding kind satype pid es)
        ≡ ok (holding kind satype pid (es ++ selectors protocol srcport dstport heap l r))
  unfolding selector_addresses
  selector_addresses-holding es fits small =
      let (fit, (fit', _)) = selectors-Fits protocol srcport dstport heap l r sized in
      let src : Extension = address_extension 5 protocol (l.mask) srcport (l.ip) (heap.src) in
      >>=-ok _
        (subnet_address-holding kind satype pid 5 protocol srcport local (heap.src) l es fits fit
          (omega (arith, small)))
        (subnet_address-holding kind satype pid 6 protocol dstport remote (heap.dst) r
            (es ++ (src ∷ [])) (All-snoc Fits es fits fit) fit'
            (omega (arith, total-snoc es src, small))
          ∙ ap (λ t. ok (holding kind satype pid t)) (append_assoc es (src ∷ []) _))
