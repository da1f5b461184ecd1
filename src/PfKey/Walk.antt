-- ===== src/PfKey/Walk.antt =====
-- The while loop over the extensions of a message, which src/pfkeyv2_utils/pfkeyv2_entry.c writes again for each
-- message: a switch on the type of the extension, and a step by its length.
pub mod Effects
use ccips_cfgipsec.Base.{
  ℕ, zero, suc, ◌+◌, ◌-◌, ◌*◌, true, false, List, ◌==◌, Run, ok, fault, out_of_fuel, ◌>>=◌,
}
use ccips_cfgipsec.PfKey.Lifetime.{read_field}

-- `take` is the switch: it gets the type, the buffer and the place of the extension. `msglen` bytes are left; one
-- that falls below zero ends the loop like zero, and an extension of length zero is read for ever.
unfoldable pub extension_walk {ℓ} :
    {S : Type ℓ} (take : ℕ → List ℕ → ℕ → S → Run S) → ℕ → List ℕ → ℕ → ℕ → S → Run S
extension_walk take zero buffer at msglen r = fault out_of_fuel
extension_walk take (suc fuel) buffer at msglen r = elim (msglen == 0) [
  | true ↦ ok r
  | false ↦ do
    type ← read_field 2 buffer (at + 2)
    r' ← take type buffer at r
    len ← read_field 2 buffer at
    extension_walk take fuel buffer (at + 8 * len) (msglen - 8 * len) r'
]
