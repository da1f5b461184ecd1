-- ===== src/PfKey/Kernel/Fill.antt =====
-- The functions of PfKey/Kernel fill the interface of the functions that add and remove entries.
use ccips_cfgipsec.Base.{
  ℕ, suc, ◌-◌, ◌≡◌, refl, ap, subst, ◌∙◌, Bool, true, false, List, [], ◌∷◌, ◌==◌, Run, ok, fault,
  ◌>>=◌, >>=-eq-ok,
}
use ccips_cfgipsec.Sysrepo.{Rc, err_ok}
use ccips_cfgipsec.Spd.{SpdEntry}
use ccips_cfgipsec.Entries.{Pfkey}
use ccips_cfgipsec.PfKey.Lifetime.{read_field}
use ccips_cfgipsec.PfKey.Kernel.{
  Tmp, policy_loop, is_policy_of, index_loop, Machine, spddump_request, pf_addpolicy, pf_delpolicy,
  pf_addsad, pf_delsad, pf_getsad,
}
use ccips_cfgipsec.PfKey.Send.{addpolicy_request, delpolicy_request}
use ccips_cfgipsec.PfKey.Send.Sad.{addsad_request, delsad_request}
use ccips_cfgipsec.Sad.{SadEntry}

-- At most the index is new.
abbrev pub KeepsRest : SpdEntry → SpdEntry → Type 0
KeepsRest node node' = node' ≡ record node { index = node'.index }

ok-KeepsRest :
    (node : SpdEntry) (i : ℕ) (node' : SpdEntry)
    → ok (record node { index = i }) ≡ ok node'
    → KeepsRest node node'
ok-KeepsRest node i node' run =
    let e : record node { index = i } ≡ node' = cc in subst (λ n. KeepsRest node n) e refl

last-KeepsRest :
    (last : Bool) (rest : Run SpdEntry) (node node' : SpdEntry)
    → (rest ≡ ok node' → KeepsRest node node')
    → (elim last as (λ x. Run SpdEntry) [ true ↦ ok node | false ↦ rest ]) ≡ ok node'
    → KeepsRest node node'
last-KeepsRest true rest node node' more run = ok-KeepsRest node (node.index) node' run
last-KeepsRest false rest node node' more run = more run

-- The end of a round of the loop, in all its cases.
round-KeepsRest :
    (found : Bool) (i : ℕ) (seq : Run ℕ) (rest : Run SpdEntry) (node node' : SpdEntry)
    → (rest ≡ ok node' → KeepsRest node node')
    → (elim found as (λ x. Run SpdEntry) [
      | true ↦ ok (record node { index = i })
      | false ↦ do n ← seq; elim (n == 0) [ true ↦ ok node | false ↦ rest ]
    ])
      ≡ ok node'
    → KeepsRest node node'
round-KeepsRest true i seq rest node node' more run = ok-KeepsRest node i node' run
round-KeepsRest false i (fault e) rest node node' more run = cc
round-KeepsRest false i (ok n) rest node node' more run =
    last-KeepsRest (n == 0) rest node node' more run

index_loop-KeepsRest :
    (answers : List (ℕ × List ℕ)) (tmp : Tmp) (node node' : SpdEntry)
    → index_loop answers tmp node ≡ ok node'
    → KeepsRest node node'
unfolding index_loop
index_loop-KeepsRest [] tmp node node' run = cc
index_loop-KeepsRest ((msglen, buffer) ∷ answers) tmp node node' run =
    let (tmp', _, run') = >>=-eq-ok (policy_loop (suc msglen) buffer 16 (msglen - 16) tmp) _ run in
    let (found, _, run'') = >>=-eq-ok (is_policy_of node tmp') _ run' in
    round-KeepsRest found (tmp'.index) (read_field 4 buffer 8) (index_loop answers tmp' node) node
      node' (index_loop-KeepsRest answers tmp' node node') run''

pub pf_addpolicy-KeepsRest :
    (machine : Machine) (node node' : SpdEntry) (k k' : machine.State) (rc : Rc)
    → pf_addpolicy machine node k ≡ ok (rc, node', k')
    → KeepsRest node node'
unfolding pf_addpolicy
pf_addpolicy-KeepsRest machine node node' k k' rc run =
    let (bytes, _, run') = >>=-eq-ok (addpolicy_request (machine.pid) (machine.heap) node) _ run in
    let dump : List ℕ = spddump_request machine node in
    let (node1, looped, run'') =
      >>=-eq-ok (index_loop (machine.answers dump (machine.write bytes k)) (machine.stack) node) _
        run' in
    let same : node1 ≡ node' = cc in
    index_loop-KeepsRest (machine.answers dump (machine.write bytes k)) (machine.stack) node node'
      (looped ∙ ap (λ n. ok n) same)

-- The interface `Pfkey` of the functions that add and remove entries, filled.
abbrev pub pfkey : Machine → Pfkey
pfkey machine = record {
  Kernel = machine.State;
  pf_addpolicy = pf_addpolicy machine;
  pf_delpolicy = pf_delpolicy machine;
  pf_addsad = pf_addsad machine;
  pf_delsad = pf_delsad machine;
  pf_getsad = pf_getsad machine;
  addpolicy_sets_index =
      λ node node' k k' rc run. pf_addpolicy-KeepsRest machine node node' k k' rc run;
}

-- What the functions report, for every kernel: where one of them returns, its result is SR_ERR_OK, whatever the kernel makes
-- of the message.
pub pfkey-err_ok :
    (machine : Machine) (spd : SpdEntry) (sad : SadEntry) (k : machine.State)
    → ((rc : Rc) (node : SpdEntry) (k' : machine.State)
        → pf_addpolicy machine spd k ≡ ok (rc, node, k')
        → rc ≡ err_ok)
      × ((rc : Rc) (k' : machine.State) → pf_delpolicy machine spd k ≡ ok (rc, k') → rc ≡ err_ok)
      × ((rc : Rc) (k' : machine.State) → pf_addsad machine sad k ≡ ok (rc, k') → rc ≡ err_ok)
      × ((rc : Rc) (k' : machine.State) → pf_delsad machine sad k ≡ ok (rc, k') → rc ≡ err_ok)
unfolding pf_addpolicy pf_delpolicy pf_addsad pf_delsad
pfkey-err_ok machine spd sad k = (
  λ rc node k' run.
      let (bytes, _, run') = >>=-eq-ok (addpolicy_request (machine.pid) (machine.heap) spd) _ run in
      let dump : List ℕ = spddump_request machine spd in
      let (node', _, run'') =
        >>=-eq-ok (index_loop (machine.answers dump (machine.write bytes k)) (machine.stack) spd) _
          run' in
      cc,
  λ rc k' run. let (bytes, _, run') = >>=-eq-ok (delpolicy_request (machine.heap) spd) _ run in cc,
  λ rc k' run.
      let (bytes, _, run') = >>=-eq-ok (addsad_request (machine.pid) (machine.heap) sad) _ run in
      cc,
  λ rc k' run.
      let (bytes, _, run') = >>=-eq-ok (delsad_request (machine.pid) (machine.heap) sad) _ run in
      cc,
)
