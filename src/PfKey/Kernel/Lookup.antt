-- ===== src/PfKey/Kernel/Lookup.antt =====
-- `pf_addpolicy` takes the index of the first policy of the dump with the addresses and the direction of its node.
use ccips_cfgipsec.Base.{
  ℕ, suc, ◌+◌, ◌-◌, ◌*◌, ◌^◌, ◌<◌, ◌≡◌, refl, arith, Bool, ◌&&◌, Bool-cases, inl, inr, some, List,
  [], ◌∷◌, map, ◌==◌, if◌then◌else◌, Run, ok, fault, blocked, ◌>>=◌, >>=-ok,
}
use ccips_cfgipsec.Base.Lists.{All}
use ccips_cfgipsec.Text.{Text, str_eq}
use ccips_cfgipsec.Utils.Address.{get_ip}
use ccips_cfgipsec.Sysrepo.{err_ok}
use ccips_cfgipsec.Spd.{SpdEntry}
use ccips_cfgipsec.PfKey.Lifetime.{read_field}
use ccips_cfgipsec.PfKey.Lifetime.Spec.{Fits, total}
use ccips_cfgipsec.PfKey.Lifetime.Dump.{Message, Sound, header, buffer_of, answer, read_header}
use ccips_cfgipsec.PfKey.Kernel.{
  Tmp, policy_loop, is_ip_of, is_policy_of, index_loop, Machine, spddump_request, pf_addpolicy,
}
use ccips_cfgipsec.PfKey.Kernel.Items.{
  Item, extension_of, ItemFits, items_effect, extension_of-Fits,
}
use ccips_cfgipsec.PfKey.Kernel.Index.{policy_loop-effects}
use ccips_cfgipsec.PfKey.Send.Addresses.{Prefix, Sized}
use ccips_cfgipsec.PfKey.Send.Policy.{addpolicy_message, addpolicy_request-message}

-- A message of a dump: its number, the id of a process, and what it holds, in any order.
pub record Row : Type 0 where
  pub error : ℕ
  pub satype : ℕ
  pub reserved : ℕ
  pub seq : ℕ
  pub pid : ℕ
  pub items : List Item
  pub stale : List ℕ

abbrev pub row_message : Row → Message
row_message r = record {
  kind = 18;
  error = r.error;
  satype = r.satype;
  reserved = r.reserved;
  seq = r.seq;
  pid = r.pid;
  extensions = map extension_of (r.items);
  stale = r.stale;
}

-- The texts of the addresses, and the direction, are those of the node.
abbrev pub matches : Text → Text → ℕ → Tmp → Bool
matches local remote dir tmp =
    str_eq local (tmp.local_subnet)
    && (str_eq remote (tmp.remote_subnet) && (dir == tmp.policy_dir))

-- The index of the first message up to which the dump has the addresses and the direction; where there is none up to the
-- message with the number 0, a default. What an earlier message held stays where a later one does not hold it.
unfoldable pub lookup_index : Text → Text → ℕ → ℕ → List Row → Tmp → Run ℕ
lookup_index local remote dir default [] tmp = fault blocked
lookup_index local remote dir default (r ∷ rs) tmp =
    let tmp' = items_effect (r.items) tmp in
    let later = lookup_index local remote dir default rs tmp' in
    if matches local remote dir tmp'
    then ok (tmp'.index)
    else (if r.seq == 0 then ok default else later)

extensions-Fit : (is : List Item) → All ItemFits is → All Fits (map extension_of is)
extensions-Fit [] fits = tt
extensions-Fit (i ∷ is) (fit, fits) = (extension_of-Fits i fit, extensions-Fit is fits)

-- A message with its words in the 16 bits of its length.
pub record RowSound (r : Row) : Type 0 where
  pub items_fit : All ItemFits (r.items)
  pub some_words : 0 < total (map extension_of (r.items))
  pub length_fits : 2 + total (map extension_of (r.items)) < 2 ^ 16
  pub seq_fits : r.seq < 2 ^ 32

row_message-Sound : (r : Row) → RowSound r → Sound (row_message r)
row_message-Sound r sound = record {
  some_words = sound.some_words;
  length_fits = sound.length_fits;
  seq_fits = sound.seq_fits;
  extensions_fit = extensions-Fit (r.items) (sound.items_fit);
}

>>=-map :
    {A B C : Type 0} (m : Run A) (f : A → B) (next : B → Run C)
    → ((m >>= λ a. ok (f a)) >>= next) ≡ (m >>= λ a. next (f a))
>>=-map (ok a) f next = refl
>>=-map (fault e) f next = refl

is_ip_of-str_eq :
    (subnet ip' ip : Text) → get_ip subnet ≡ some ip' → is_ip_of subnet ip ≡ ok (str_eq ip' ip)
unfolding is_ip_of
is_ip_of-str_eq subnet ip' ip has_ip = rw (has_ip, is_ip_of) refl

module _ (node : SpdEntry) (local remote : Text)
    (has_local : get_ip (node.local_subnet) ≡ some local)
    (has_remote : get_ip (node.remote_subnet) ≡ some remote) where
  is_policy_of-matches :
      (tmp : Tmp) → is_policy_of node tmp ≡ ok (matches local remote (node.policy_dir) tmp)
  unfolding is_policy_of
  is_policy_of-matches tmp =
      >>=-ok _ (is_ip_of-str_eq (node.local_subnet) local (tmp.local_subnet) has_local)
        (elim (Bool-cases (str_eq local (tmp.local_subnet))) [
          | inl same ↦ rw same (
              >>=-ok _ (is_ip_of-str_eq (node.remote_subnet) remote (tmp.remote_subnet) has_remote)
                refl)
          | inr apart ↦ rw apart refl
        ])

  abbrev indexed : Run ℕ → Run SpdEntry
  indexed found = found >>= λ i. ok (record node { index = i })

  pub index_loop-lookup :
      (rs : List Row) (tmp : Tmp)
      → All RowSound rs
      → index_loop (map answer (map row_message rs)) tmp node
        ≡ indexed (lookup_index local remote (node.policy_dir) (node.index) rs tmp)
  unfolding index_loop lookup_index
  index_loop-lookup [] tmp sound = refl
  index_loop-lookup (r ∷ rs) tmp (sound, sounds) =
      let m : Message = row_message r in
      let t : ℕ = total (m.extensions) in
      let tmp' : Tmp = items_effect (r.items) tmp in
      let walked : policy_loop (suc (8 * (2 + t))) (buffer_of m) 16 (8 * (2 + t) - 16) tmp
          ≡ ok tmp' =
        let e : 8 * (2 + t) - 16 ≡ 8 * t = omega arith in
        rw e (
          policy_loop-effects (suc (8 * (2 + t))) (header m) (r.items) (r.stale) tmp (omega arith)
            (sound.items_fit)) in
      let numbered : read_field 4 (buffer_of m) 8 ≡ ok (r.seq) =
        (read_header m (row_message-Sound r sound)).1 in
      >>=-ok _ walked (
        >>=-ok _ (is_policy_of-matches tmp')
          (elim (Bool-cases (matches local remote (node.policy_dir) tmp')) [
            | inl found ↦ rw found refl
            | inr unlike ↦ rw unlike (
                >>=-ok _ numbered (elim (Bool-cases (r.seq == 0)) [
                  | inl last ↦ rw last refl
                  | inr more ↦ rw more (index_loop-lookup rs tmp' sounds)
                ]))
          ]))

-- For a node whose prefixes can be taken apart, and a kernel that answers with a dump of any well-formed messages (whatever
-- their process ids and their numbers, the order of what they hold and what else they hold): `pf_addpolicy` writes the message
-- that adds the policy and the one that asks for the dump, and sets the index of the node to that of the first message up to
-- which the dump has the node's direction and its addresses, printed with a port unless that is 0, whatever else differs; where
-- there is none up to the message with the number 0, the index stays, and a dump without an end blocks. Nothing else of the
-- node changes, and the result is SR_ERR_OK.
pub pf_addpolicy-lookup :
    (machine : Machine) (k : machine.State) (node : SpdEntry) (local : Prefix (node.local_subnet))
    (remote : Prefix (node.remote_subnet)) (rs : List Row)
    → Sized (machine.heap)
    → machine.answers (spddump_request machine node) (
        machine.write
          (buffer_of (addpolicy_message (machine.heap) node local remote (machine.pid)))
          k)
      ≡ map answer (map row_message rs)
    → All RowSound rs
    → pf_addpolicy machine node k ≡ (
        lookup_index (local.ip) (remote.ip) (node.policy_dir) (node.index) rs (machine.stack)
        >>= λ i. ok (
          err_ok,
          record node { index = i },
          machine.write (spddump_request machine node) (
              machine.write
                (buffer_of (addpolicy_message (machine.heap) node local remote (machine.pid)))
                k),
        ))
unfolding pf_addpolicy
pf_addpolicy-lookup machine k node local remote rs sized dumped sounds =
    let found : Run ℕ =
      lookup_index (local.ip) (remote.ip) (node.policy_dir) (node.index) rs (machine.stack) in
    let looped =
      index_loop-lookup node (local.ip) (remote.ip) (local.has_ip) (remote.has_ip) rs
        (machine.stack) sounds in
    >>=-ok _ (addpolicy_request-message (machine.heap) node local remote sized (machine.pid))
      (rw (dumped, looped) (>>=-map found (λ i. record node { index = i }) _))
