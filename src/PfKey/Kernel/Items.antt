-- ===== src/PfKey/Kernel/Items.antt =====
-- The dump of the policies as the items that the kernel means, and what each leaves in the variables.
use ccips_cfgipsec.Base.{
  ℕ, ◌+◌, ◌*◌, ◌/◌, ◌%◌, ◌^◌, ◌<◌, ◌≡◌, arith, false, List, [], ◌∷◌, ◌++◌, ◌==◌, if◌then◌else◌,
}
use ccips_cfgipsec.Base.Lists.{length, All}
use ccips_cfgipsec.Text.{Text}
use ccips_cfgipsec.Utils.Decimal.{decimal}
use ccips_cfgipsec.Utils.Inet.{dotted}
use ccips_cfgipsec.PfKey.Lifetime.Fields.{field}
use ccips_cfgipsec.PfKey.Lifetime.Spec.{Extension, lifetime, other_type, Fits}
use ccips_cfgipsec.PfKey.Kernel.{Tmp}
use ccips_cfgipsec.PfKey.Kernel.Requests.{
  IpsecRequest, RequestFits, requests_bytes, requests_effect,
}
use ccips_cfgipsec.PfKey.Walk.Effects.{effects}

-- An address of the dump: four bytes, and a port.
pub record Host : Type 0 where
  pub a : ℕ
  pub b : ℕ
  pub c : ℕ
  pub d : ℕ
  pub port : ℕ

-- What `sock_ntop` makes of it.
abbrev pub shown : Host → Text
shown h =
    if h.port == 0
    then dotted (h.a) (h.b) (h.c) (h.d)
    else dotted (h.a) (h.b) (h.c) (h.d) ++ (b'.' ∷ decimal (h.port))

abbrev pub HostFits : Host → Type 0
HostFits h = (h.a < 256) × (h.b < 256) × (h.c < 256) × (h.d < 256) × (h.port < 2 ^ 16)

abbrev pub host_bytes : Host → List ℕ
host_bytes h =
    field 2 2
    ++ ((h.port / 256)
        ∷ (h.port % 256)
        ∷ h.a
        ∷ h.b
        ∷ h.c
        ∷ h.d
        ∷ 0
        ∷ 0
        ∷ 0
        ∷ 0
        ∷ 0
        ∷ 0
        ∷ 0
        ∷ 0
        ∷ [])

-- What a message of the dump may hold: a policy with its requests, an address, the current lifetimes, or something else.
pub data Item : Type 0 where
  policy : ℕ → ℕ → ℕ → List IpsecRequest → Item
  source : ℕ → ℕ → Host → Item
  destination : ℕ → ℕ → Host → Item
  usage : ℕ → ℕ → ℕ → ℕ → Item
  unread : ℕ → ℕ → List ℕ → Item

abbrev pub extension_of : Item → Extension
extension_of (policy index action dir requests) =
    other_type 18 ((16 + length (requests_bytes requests)) / 8)
      (field 2 action ++ (dir ∷ 0 ∷ (field 4 index ++ (field 4 0 ++ requests_bytes requests))))
extension_of (source proto prefix host) = other_type 5 3 (proto ∷ prefix ∷ 0 ∷ 0 ∷ host_bytes host)
extension_of (destination proto prefix host) =
    other_type 6 3 (proto ∷ prefix ∷ 0 ∷ 0 ∷ host_bytes host)
extension_of (usage allocations bytes addtime usetime) = lifetime allocations bytes addtime usetime
extension_of (unread type n body) = other_type type n body

-- Requests are whole words; another extension has another type.
abbrev pub ItemFits : Item → Type 0
ItemFits (policy index action dir requests) =
    (index < 2 ^ 32)
    × (action < 2 ^ 16)
    × All RequestFits requests
    × (length (requests_bytes requests) % 8 ≡ 0)
    × (length (requests_bytes requests) < 2 ^ 16)
ItemFits (source proto prefix host) = HostFits host
ItemFits (destination proto prefix host) = HostFits host
ItemFits (usage a b c d) = (a < 2 ^ 32) × (b < 2 ^ 64) × (c < 2 ^ 64) × (d < 2 ^ 64)
ItemFits (unread type n body) =
    (length body + 4 ≡ 8 * n)
    × (2 < type)
    × (type < 2 ^ 16)
    × (n < 2 ^ 16)
    × ((type == 18) ≡ false)
    × ((type == 5) ≡ false)
    × ((type == 6) ≡ false)

abbrev pub item_effect : Item → Tmp → Tmp
item_effect (policy index action dir requests) tmp =
    requests_effect requests (record tmp { index = index; action = action; policy_dir = dir })
item_effect (source proto prefix host) tmp = record tmp { local_subnet = shown host }
item_effect (destination proto prefix host) tmp = record tmp { remote_subnet = shown host }
item_effect (usage a b c d) tmp = tmp
item_effect (unread type n body) tmp = tmp

abbrev pub items_effect : List Item → Tmp → Tmp
items_effect = effects item_effect

pub extension_of-Fits : (i : Item) → ItemFits i → Fits (extension_of i)
extension_of-Fits (policy index action dir requests) (hi, ha, hr, hm, hl) = omega (arith, hm, hl)
extension_of-Fits (source proto prefix host) fits = omega arith
extension_of-Fits (destination proto prefix host) fits = omega arith
extension_of-Fits (usage a b c d) fits = fits
extension_of-Fits (unread type n body) (h, low, high, small, _, _, _) = (h, low, high, small)
