-- ===== src/PfKey/Kernel/Index.antt =====
-- Reading the items of a message: the variables get what the items mean.
use ccips_cfgipsec.Base.{
  ℕ, suc, ◌+◌, ◌*◌, ◌/◌, ◌%◌, ◌≤◌, ◌<◌, ◌≡◌, refl, ap, sym, ◌∙◌, arith, true, Bool-cases, inl, inr,
  List, [], ◌∷◌, ◌++◌, map, ltb, ◌==◌, ok, >>=-ok,
}
use ccips_cfgipsec.Base.Lists.{length, All, length-append}
use ccips_cfgipsec.Text.{strcpy}
use ccips_cfgipsec.Utils.Decimal.{decimal, length-decimal}
use ccips_cfgipsec.Utils.Inet.{dotted, sock_ntop}
use ccips_cfgipsec.PfKey.Lifetime.{read_byte, read_field}
use ccips_cfgipsec.PfKey.Lifetime.Fields.{
  field, read_byte-shift, read_field-shift, byte_head, read_field-field,
}
use ccips_cfgipsec.PfKey.Lifetime.Spec.{type_of, extension_bytes, total, all_bytes}
use ccips_cfgipsec.PfKey.Kernel.{Tmp, take_address, take_policy, policy_loop}
use ccips_cfgipsec.PfKey.Kernel.Requests.{requests_bytes, request_loop-effect}
use ccips_cfgipsec.PfKey.Walk.Effects.{extension_walk-effects}
use mathlib.Core.List.{append_assoc}
use ccips_cfgipsec.PfKey.Kernel.Items.{
  Host, shown, HostFits, host_bytes, Item, policy, source, destination, usage, unread, extension_of,
  ItemFits, item_effect, items_effect, extension_of-Fits,
}

length-shown : (h : Host) → HostFits h → length (shown h) < 40
unfolding dotted
length-shown h (ha, hb, hc, hd, hp) =
    let quad : length (dotted (h.a) (h.b) (h.c) (h.d)) ≤ 15 = omega (
      arith,
      length-decimal 2 (h.a) (omega (arith, ha)),
      length-decimal 2 (h.b) (omega (arith, hb)),
      length-decimal 2 (h.c) (omega (arith, hc)),
      length-decimal 2 (h.d) (omega (arith, hd)),
      length-append (decimal (h.a))
          (b'.' ∷ (decimal (h.b) ++ (b'.' ∷ (decimal (h.c) ++ (b'.' ∷ decimal (h.d)))))),
      length-append (decimal (h.b)) (b'.' ∷ (decimal (h.c) ++ (b'.' ∷ decimal (h.d)))),
      length-append (decimal (h.c)) (b'.' ∷ decimal (h.d)),
    ) in
    elim (Bool-cases (h.port == 0)) [
      | inl none' ↦ rw none' (omega (arith, quad))
      | inr some' ↦ rw some' (
          omega (
            arith,
            quad,
            length-decimal 4 (h.port) (omega (arith, hp)),
            length-append (dotted (h.a) (h.b) (h.c) (h.d)) (b'.' ∷ decimal (h.port)),
          ))
    ]

sock_ntop-shown :
    (front : List ℕ) (h : Host) (s : List ℕ)
    → HostFits h
    → sock_ntop (front ++ (host_bytes h ++ s)) (length front) ≡ ok (shown h)
unfolding sock_ntop
sock_ntop-shown front h s fits =
    let buffer : List ℕ = host_bytes h ++ s in
    let start : length front ≡ length front + 0 = omega arith in
    let family : read_field 2 (front ++ buffer) (length front) ≡ ok 2 =
      ap (read_field 2 (front ++ buffer)) start
      ∙ read_field-shift 2 front buffer 0
      ∙ read_field-field 2 2 _ (omega arith) in
    let byte : (k b : ℕ) (t : List ℕ)
        → read_byte buffer k ≡ read_byte (b ∷ t) 0
        → read_byte (front ++ buffer) (length front + k) ≡ ok b =
      λ k b t e. read_byte-shift front buffer k ∙ e ∙ byte_head b t in
    let two : List ℕ = field 2 2 in
    let four : List ℕ = 2 ∷ 0 ∷ (h.port / 256) ∷ (h.port % 256) ∷ [] in
    let port : 256 * (h.port / 256) + h.port % 256 ≡ h.port = omega arith in
    >>=-ok _ family (
      >>=-ok _ (byte 4 (h.a) _ (read_byte-shift four _ 0)) (
        >>=-ok _
          (byte 5 (h.b) _
            (read_byte-shift (2 ∷ 0 ∷ (h.port / 256) ∷ (h.port % 256) ∷ h.a ∷ []) _ 0))
          (>>=-ok _
            (byte 6 (h.c) _
              (read_byte-shift (2 ∷ 0 ∷ (h.port / 256) ∷ (h.port % 256) ∷ h.a ∷ h.b ∷ []) _ 0))
            (>>=-ok _
              (byte 7 (h.d) _ (
                read_byte-shift (2 ∷ 0 ∷ (h.port / 256) ∷ (h.port % 256) ∷ h.a ∷ h.b ∷ h.c ∷ []) _
                  0))
              (>>=-ok _ (byte 2 (h.port / 256) _ (read_byte-shift two _ 0)) (
                >>=-ok _
                  (byte 3 (h.port % 256) _ (read_byte-shift (2 ∷ 0 ∷ (h.port / 256) ∷ []) _ 0))
                  (rw port refl)))))))

take_address-shown :
    (front first : List ℕ) (h : Host) (s : List ℕ)
    → length first ≡ 8
    → HostFits h
    → take_address (front ++ (first ++ (host_bytes h ++ s))) (length front) ≡ ok (shown h)
unfolding take_address strcpy
take_address-shown front first h s eight fits =
    let at : length front + 8 ≡ length (front ++ first) =
      omega (arith, eight, length-append front first) in
    let flat : front ++ (first ++ (host_bytes h ++ s)) ≡ (front ++ first) ++ (host_bytes h ++ s) =
      sym (append_assoc front first (host_bytes h ++ s)) in
    let short : ltb (length (shown h)) 40 ≡ true = ground (arith, length-shown h fits) in
    rw (at, flat) (>>=-ok _ (sock_ntop-shown (front ++ first) h s fits) (rw short refl))

take_policy-effect :
    (i : Item) (front s : List ℕ) (tmp : Tmp)
    → ItemFits i
    → take_policy
        (type_of (extension_of i))
        (front ++ (extension_bytes (extension_of i) ++ s))
        (length front)
        tmp
      ≡ ok (item_effect i tmp)
unfolding take_policy
take_policy-effect (source proto prefix host) front s tmp fits =
    >>=-ok _
      (take_address-shown front (field 2 3 ++ (field 2 5 ++ (proto ∷ prefix ∷ 0 ∷ 0 ∷ []))) host s
        refl fits)
      refl
take_policy-effect (destination proto prefix host) front s tmp fits =
    >>=-ok _
      (take_address-shown front (field 2 3 ++ (field 2 6 ++ (proto ∷ prefix ∷ 0 ∷ 0 ∷ []))) host s
        refl fits)
      refl
take_policy-effect (usage a b c d) front s tmp fits = refl
take_policy-effect (unread type n body) front s tmp (_, _, _, _, e1, e2, e3) =
    rw (e1, take_policy) (rw e2 (rw e3 refl))
take_policy-effect (policy index action dir requests) front s tmp (hi, ha, hr, hm, hl) =
    let rs : List ℕ = requests_bytes requests in
    let n : ℕ = (16 + length rs) / 8 in
    let h4 : List ℕ = field 2 n ++ field 2 18 in
    let h6 : List ℕ = h4 ++ field 2 action in
    let h8 : List ℕ = h6 ++ (dir ∷ 0 ∷ []) in
    let pre : List ℕ = h8 ++ (field 4 index ++ field 4 0) in
    let whole : List ℕ = pre ++ (rs ++ s) in
    let at_index : read_field 4 (front ++ whole) (length front + 8) ≡ ok index =
      read_field-shift 4 front whole 8
      ∙ read_field-shift 4 h8 (field 4 index ++ (field 4 0 ++ (rs ++ s))) 0
      ∙ read_field-field 4 index _ (omega (arith, hi)) in
    let at_action : read_field 2 (front ++ whole) (length front + 4) ≡ ok action =
      read_field-shift 2 front whole 4
      ∙ read_field-shift 2 h4
          (field 2 action ++ (dir ∷ 0 ∷ (field 4 index ++ (field 4 0 ++ (rs ++ s))))) 0
      ∙ read_field-field 2 action _ (omega (arith, ha)) in
    let at_dir : read_byte (front ++ whole) (length front + 6) ≡ ok dir =
      read_byte-shift front whole 6
      ∙ read_byte-shift h6 (dir ∷ 0 ∷ (field 4 index ++ (field 4 0 ++ (rs ++ s)))) 0
      ∙ byte_head dir _ in
    let start : length front ≡ length front + 0 = omega arith in
    let at_len : read_field 2 (front ++ whole) (length front) ≡ ok n =
      ap (read_field 2 (front ++ whole)) start
      ∙ read_field-shift 2 front whole 0
      ∙ read_field-field 2 n _ (omega (arith, hl)) in
    let size : 8 * n ≡ 16 + length rs = omega (arith, hm) in
    >>=-ok _ at_index (
      >>=-ok _ at_action (
        >>=-ok _ at_dir (
          >>=-ok _ at_len (
            rw size (
              request_loop-effect (suc (16 + length rs)) front pre requests s
                (record tmp { index = index; action = action; policy_dir = dir }) (omega arith)
                hr)))))

pub policy_loop-effects :
    (fuel : ℕ) (front : List ℕ) (is : List Item) (s : List ℕ) (tmp : Tmp)
    → total (map extension_of is) < fuel
    → All ItemFits is
    → policy_loop fuel
        (front ++ (all_bytes (map extension_of is) ++ s))
        (length front)
        (8 * total (map extension_of is))
        tmp
      ≡ ok (items_effect is tmp)
unfolding policy_loop
policy_loop-effects =
    extension_walk-effects take_policy extension_of ItemFits item_effect extension_of-Fits
      take_policy-effect
