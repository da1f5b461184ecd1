-- ===== src/PfKey/Send/SadParts.antt =====
-- The extensions of an association: its parameters, its lifetimes and its keys.
use ccips_cfgipsec.Base.{
  ℕ, ◌%◌, ◌^◌, ◌≤◌, ◌≡◌, refl, ap, ◌∙◌, arith, Bool, true, false, Bool-cases, inl, inr, List, [],
  ◌∷◌, ◌++◌, ◌==◌, if◌then◌else◌, Run, ok, >>=-ok,
}
use ccips_cfgipsec.Base.Lists.{All, All-append}
use ccips_cfgipsec.Utils.Constants.{sadb_ealg_none, sadb_aalg_none}
use ccips_cfgipsec.PfKey.Lifetime.Fields.{field}
use ccips_cfgipsec.PfKey.Lifetime.Spec.{Extension, association, other_type, Fits, total, words}
use ccips_cfgipsec.Sad.{SadEntry}
use mathlib.Core.List.{append_assoc, append-nil}
use ccips_cfgipsec.PfKey.Send.{Out, Heap}
use ccips_cfgipsec.PfKey.Send.Sad.{encrypt_key_size, auth_key_size, emit_key, sa_keys}
use ccips_cfgipsec.PfKey.Send.Key.{KeyFits, key_extension, key_extension-Fits, emit_key-holding}
use ccips_cfgipsec.PfKey.Send.Addresses.{address_extension, total-append}
use ccips_cfgipsec.PfKey.Send.Buffer.{holding}

-- The lifetimes of one kind
abbrev pub lifetime_extension : ℕ → ℕ → ℕ → ℕ → ℕ → Extension
lifetime_extension exttype allocations bytes addtime usetime =
    other_type exttype 4
      (field 4 allocations ++ (field 8 bytes ++ (field 8 addtime ++ field 8 usetime)))

abbrev pub association_of : SadEntry → Extension
association_of node = association (node.spi % 2 ^ 32) (
    (node.anti_replay_window % 256)
    ∷ 1
    ∷ (node.integrity_alg % 256)
    ∷ (node.encryption_alg % 256)
    ∷ field 4 0)

abbrev pub parameters_of : SadEntry → List Extension
parameters_of node =
    association_of node
    ∷ other_type 19 2
        ((node.ipsec_mode % 256) ∷ 0 ∷ (field 2 0 ++ (field 4 0 ++ field 4 (node.req_id))))
    ∷ lifetime_extension 3 (node.lft_packets_hard) (node.lft_bytes_hard) (node.lft_time_hard)
        (node.lft_idle_hard)
    ∷ lifetime_extension 4 (node.lft_packets_soft) (node.lft_bytes_soft) (node.lft_time_soft)
        (node.lft_idle_soft)
    ∷ []

-- The key of an algorithm, unless that is none
abbrev pub optional_key : Bool → Extension → List Extension
optional_key absent key = if absent then [] else key ∷ []

abbrev pub encryption_extension : SadEntry → Extension
encryption_extension node =
    key_extension 9 (encrypt_key_size (node.encryption_alg)).0
      (encrypt_key_size (node.encryption_alg)).1 (node.encryption_key)

abbrev pub integrity_extension : SadEntry → Extension
integrity_extension node =
    key_extension 8 (auth_key_size (node.integrity_alg)).0 (auth_key_size (node.integrity_alg)).1
      (node.integrity_key)

abbrev pub key_extensions : SadEntry → List Extension
key_extensions node =
    optional_key (node.encryption_alg == sadb_ealg_none) (encryption_extension node)
    ++ optional_key (node.integrity_alg == sadb_aalg_none) (integrity_extension node)

-- The ends of the tunnel, as addresses of 32 bits
abbrev pub tunnel_addresses : Heap → SadEntry → List Extension
tunnel_addresses heap node =
    address_extension 5 (node.inner_protocol) 32 (node.srcport) (node.tunnel_local) (heap.src)
    ∷ address_extension 6 (node.inner_protocol) 32 (node.dstport) (node.tunnel_remote) (heap.dst)
    ∷ []

-- The words that are stated for each key hold it.
pub record KeysFit (node : SadEntry) : Type 0 where
  pub encryption_fits : KeyFits (encrypt_key_size (node.encryption_alg)).0 (node.encryption_key)
  pub integrity_fits : KeyFits (auth_key_size (node.integrity_alg)).0 (node.integrity_key)

pub encrypt_key_size-small : (alg : ℕ) → (encrypt_key_size alg).0 ≤ 4
unfolding encrypt_key_size
encrypt_key_size-small alg = ground arith

pub auth_key_size-four : (alg : ℕ) → (auth_key_size alg).0 ≡ 4
unfolding auth_key_size
auth_key_size-four alg = ground arith

optional_key-Fits :
    (absent : Bool) (key : Extension) → Fits key → All Fits (optional_key absent key)
optional_key-Fits true key fit = tt
optional_key-Fits false key fit = (fit, tt)

optional_key-total : (absent : Bool) (key : Extension) → total (optional_key absent key) ≤ words key
optional_key-total true key = omega arith
optional_key-total false key = omega arith

module _ (node : SadEntry) (keys : KeysFit node) where
  pub encryption_key-Fits :
      All Fits (optional_key (node.encryption_alg == 0) (encryption_extension node))
  encryption_key-Fits = optional_key-Fits _ (encryption_extension node) (
      key_extension-Fits 9 _ (encrypt_key_size (node.encryption_alg)).1 (node.encryption_key)
        (keys.encryption_fits) (omega arith) (omega arith)
        (omega (arith, encrypt_key_size-small (node.encryption_alg))))

  integrity_key-Fits : All Fits (optional_key (node.integrity_alg == 0) (integrity_extension node))
  integrity_key-Fits = optional_key-Fits _ (integrity_extension node) (
      key_extension-Fits 8 _ (auth_key_size (node.integrity_alg)).1 (node.integrity_key)
        (keys.integrity_fits) (omega arith) (omega arith)
        (omega (arith, auth_key_size-four (node.integrity_alg))))

  pub key_extensions-Fits : All Fits (key_extensions node)
  key_extensions-Fits = All-append Fits _ _ encryption_key-Fits integrity_key-Fits

  pub key_extensions-total : total (key_extensions node) ≤ 8
  key_extensions-total = omega (
    arith,
    total-append (optional_key (node.encryption_alg == 0) (encryption_extension node))
        (optional_key (node.integrity_alg == 0) (integrity_extension node)),
    optional_key-total (node.encryption_alg == 0) (encryption_extension node),
    optional_key-total (node.integrity_alg == 0) (integrity_extension node),
    encrypt_key_size-small (node.encryption_alg),
    auth_key_size-four (node.integrity_alg),
  )

  module _ (kind satype pid : ℕ) (es : List Extension) (fits : All Fits es)
      (room : total es ≤ 400) where
    encryption_key-holding :
        (elim (node.encryption_alg == 0) as (λ x. Run Out) [
          | true ↦ ok (holding kind satype pid es)
          | false ↦
              emit_key 9
                (encrypt_key_size (node.encryption_alg)).0
                (encrypt_key_size (node.encryption_alg)).1
                (node.encryption_key)
                (holding kind satype pid es)
        ])
        ≡ ok (
            holding kind satype pid
              (es ++ optional_key (node.encryption_alg == 0) (encryption_extension node)))
    encryption_key-holding = elim (Bool-cases (node.encryption_alg == 0)) [
      | inl absent ↦ rw absent (rw (append-nil es) refl)
      | inr present ↦ rw present (
          emit_key-holding kind satype pid es 9 _ _ (node.encryption_key) fits
            (keys.encryption_fits) (omega (arith, encrypt_key_size-small (node.encryption_alg))))
    ]

    pub sa_keys-holding :
        sa_keys node (holding kind satype pid es)
        ≡ ok (holding kind satype pid (es ++ key_extensions node))
    unfolding sa_keys
    sa_keys-holding =
        let first : List Extension =
          optional_key (node.encryption_alg == 0) (encryption_extension node) in
        let small : total (es ++ first) ≤ 404 = omega (
          arith,
          total-append es first,
          optional_key-total (node.encryption_alg == 0) (encryption_extension node),
          encrypt_key_size-small (node.encryption_alg),
        ) in
        >>=-ok _ encryption_key-holding (elim (Bool-cases (node.integrity_alg == 0)) [
          | inl absent ↦ rw absent (rw (append-nil first) refl)
          | inr present ↦ rw present (
              emit_key-holding kind satype pid (es ++ first) 8 _ _ (node.integrity_key)
                (All-append Fits es first fits encryption_key-Fits) (keys.integrity_fits)
                (omega (arith, small, auth_key_size-four (node.integrity_alg)))
              ∙ ap (λ t. ok (holding kind satype pid t)) (append_assoc es first _))
        ])
