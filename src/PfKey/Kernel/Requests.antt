-- ===== src/PfKey/Kernel/Requests.antt =====
-- The loop over the requests of a policy: what it leaves in the variables.
use ccips_cfgipsec.Base.{
  ℕ, zero, suc, ◌+◌, ◌^◌, ◌<◌, ◌≡◌, refl, ap, sym, ◌∙◌, arith, true, false, List, [], ◌∷◌, ◌++◌,
  ltb, ok, >>=-ok,
}
use ccips_cfgipsec.Base.Lists.{length, All, length-append}
use ccips_cfgipsec.PfKey.Lifetime.{read_byte, read_field}
use ccips_cfgipsec.PfKey.Lifetime.Fields.{
  field, read_byte-shift, read_field-shift, byte_head, read_field-field,
}
use ccips_cfgipsec.PfKey.Kernel.{Tmp, request_loop}
use mathlib.Core.List.{append_assoc}

-- A request: its protocol, its mode, and the rest of its bytes.
pub record IpsecRequest : Type 0 where
  pub proto : ℕ
  pub mode : ℕ
  pub tail : List ℕ

abbrev pub request_bytes : IpsecRequest → List ℕ
request_bytes r = field 2 (5 + length (r.tail)) ++ (field 2 (r.proto) ++ (r.mode ∷ r.tail))

abbrev pub requests_bytes : List IpsecRequest → List ℕ
requests_bytes [] = []
requests_bytes (r ∷ rs) = request_bytes r ++ requests_bytes rs

abbrev pub RequestFits : IpsecRequest → Type 0
RequestFits r = (5 + length (r.tail) < 2 ^ 16) × (r.proto < 2 ^ 16)

abbrev pub requests_effect : List IpsecRequest → Tmp → Tmp
requests_effect [] tmp = tmp
requests_effect (r ∷ rs) tmp =
    requests_effect rs (record tmp { ipsec_mode = r.mode; protocol_parameters = r.proto })

pub request_loop-effect :
    (fuel : ℕ) (front pre : List ℕ) (rs : List IpsecRequest) (s : List ℕ) (tmp : Tmp)
    → length (requests_bytes rs) < fuel
    → All RequestFits rs
    → request_loop fuel
        (front ++ (pre ++ (requests_bytes rs ++ s)))
        (length front)
        (length pre)
        (length pre + length (requests_bytes rs))
        tmp
      ≡ ok (requests_effect rs tmp)
unfolding request_loop
request_loop-effect zero front pre rs s tmp lt fits = absurd (omega arith)
request_loop-effect (suc fuel) front pre [] s tmp lt fits =
    let done : ltb (length pre) (length pre + 0) ≡ false = ground arith in
    rw (done, request_loop) refl
request_loop-effect (suc fuel) front pre (r ∷ rs) s tmp lt ((size, proto), fits) =
    let n : ℕ = 5 + length (r.tail) in
    let rest : List ℕ = requests_bytes rs in
    let behind : List ℕ = rest ++ s in
    let whole : List ℕ = request_bytes r ++ behind in
    let long : length (request_bytes r) ≡ n = omega arith in
    let both : length (request_bytes r ++ rest) ≡ n + length rest =
      omega (arith, length-append (request_bytes r) rest) in
    let more : ltb (length pre) (length pre + length (request_bytes r ++ rest)) ≡ true =
      ground (arith, both) in
    let split : front ++ (pre ++ ((request_bytes r ++ rest) ++ s)) ≡ front ++ (pre ++ whole) =
      ap (λ t. front ++ (pre ++ t)) (append_assoc (request_bytes r) rest s) in
    let at_mode : read_byte (front ++ (pre ++ whole)) (length front + (length pre + 4))
        ≡ ok (r.mode) =
      read_byte-shift front (pre ++ whole) (length pre + 4)
      ∙ read_byte-shift pre whole 4
      ∙ read_byte-shift (field 2 n ++ field 2 (r.proto)) (r.mode ∷ (r.tail ++ behind)) 0
      ∙ byte_head (r.mode) _ in
    let at_proto : read_field 2 (front ++ (pre ++ whole)) (length front + (length pre + 2))
        ≡ ok (r.proto) =
      read_field-shift 2 front (pre ++ whole) (length pre + 2)
      ∙ read_field-shift 2 pre whole 2
      ∙ read_field-shift 2 (field 2 n) (field 2 (r.proto) ++ (r.mode ∷ (r.tail ++ behind))) 0
      ∙ read_field-field 2 (r.proto) _ (omega (arith, proto)) in
    let zero_off : length pre ≡ length pre + 0 = omega arith in
    let at_len : read_field 2 (front ++ (pre ++ whole)) (length front + length pre) ≡ ok n =
      read_field-shift 2 front (pre ++ whole) (length pre)
      ∙ ap (read_field 2 (pre ++ whole)) zero_off
      ∙ read_field-shift 2 pre whole 0
      ∙ read_field-field 2 n (field 2 (r.proto) ++ (r.mode ∷ (r.tail ++ behind)))
          (omega (arith, size)) in
    let next : front ++ (pre ++ whole) ≡ front ++ ((pre ++ request_bytes r) ++ behind) =
      ap (λ t. front ++ t) (sym (append_assoc pre (request_bytes r) behind)) in
    let off : length pre + n ≡ length (pre ++ request_bytes r) =
      omega (arith, length-append pre (request_bytes r)) in
    let end : length pre + length (request_bytes r ++ rest)
        ≡ length (pre ++ request_bytes r) + length rest =
      omega (arith, both, off) in
    rw split (
      rw (more, request_loop)
        (>>=-ok _ at_mode (
          >>=-ok _ at_proto (
            >>=-ok _ at_len (
              rw (next, off, end)
                (request_loop-effect fuel front (pre ++ request_bytes r) rs s
                  (record tmp { ipsec_mode = r.mode; protocol_parameters = r.proto })
                  (omega (arith, both, lt)) fits))))))

-- The requests leave the other variables alone.
pub requests_effect-keeps :
    (rs : List IpsecRequest) (tmp : Tmp)
    → ((requests_effect rs tmp).index ≡ tmp.index)
      × ((requests_effect rs tmp).policy_dir ≡ tmp.policy_dir)
      × ((requests_effect rs tmp).local_subnet ≡ tmp.local_subnet)
      × ((requests_effect rs tmp).remote_subnet ≡ tmp.remote_subnet)
requests_effect-keeps [] tmp = (refl, refl, refl, refl)
requests_effect-keeps (r ∷ rs) tmp =
    requests_effect-keeps rs (record tmp { ipsec_mode = r.mode; protocol_parameters = r.proto })
