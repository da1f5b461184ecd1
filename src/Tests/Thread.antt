-- ===== src/Tests/Thread.antt =====
-- The theorems on the thread that handles expiries, over a datastore that logs what is deleted.
use ccips_cfgipsec.Base.{
  ℕ, ◌≡◌, ◌≤◌, refl, true, false, some, List, [], ◌∷◌, map, arith, ok, fault, null_deref,
}
use ccips_cfgipsec.Base.Lists.{All}
use ccips_cfgipsec.Text.{Text, codes}
use ccips_cfgipsec.Sysrepo.{err_ok}
use ccips_cfgipsec.Store.{Store}
use ccips_cfgipsec.Store.Find.{find}
use ccips_cfgipsec.Sad.{SadEntry}
use ccips_cfgipsec.State.Notify.{Datastore, success, missing, delete_path, send_leaves}
use ccips_cfgipsec.State.NotifyLaws.{Works}
use ccips_cfgipsec.PfKey.Lifetime.Spec.{association, other_type}
use ccips_cfgipsec.PfKey.Lifetime.Dump.{Message, answer}
use ccips_cfgipsec.PfKey.Register.{register_run, sign_extend}
use ccips_cfgipsec.PfKey.Register.Thread.{
  Expiry, register_run-hard, register_run-unlisted, register_run-disabled,
}
use ccips_cfgipsec.PfKey.Register.Lock.{threads, threads-one}
use ccips_cfgipsec.Tests.{blank_sad, two_nodes, two_nodes-IsList}

abbrev db : Datastore
db = record {
  State = List Text;
  Tree = ℕ;
  new_notif = λ path. some 0;
  new_leaf = λ tree path value. some tree;
  event_notif_send_tree = λ tree s. (err_ok, s);
  connect = λ s. (err_ok, s);
  session_start = λ s. (err_ok, s);
  delete_item = λ xpath s. (err_ok, xpath ∷ s);
  apply_changes = λ s. (err_ok, s);
}

db-Works : Works db
db-Works = record {
  makes_notif = λ path. (0, refl);
  makes_leaf = λ tree path value. (tree, refl);
  sends = λ tree s. refl;
  connects = λ s. refl;
  starts = λ s. refl;
  deletes = λ xpath s. refl;
  applies = λ s. refl;
}

abbrev node : ℕ → SadEntry
node spi = record blank_sad { name = codes "sa"; spi = spi }

abbrev nodes : Store SadEntry
nodes = two_nodes (node 300) (node 400)

abbrev zeros8 : List ℕ
zeros8 = 0 ∷ 0 ∷ 0 ∷ 0 ∷ 0 ∷ 0 ∷ 0 ∷ 0 ∷ []

-- SADB_EXPIRE with an association and a hard (3) or a soft (4) lifetime
abbrev expire : ℕ → ℕ → Message
expire spi type = record {
  kind = 8;
  error = 0;
  satype = 3;
  reserved = 0;
  seq = 0;
  pid = 0;
  extensions = association spi zeros8 ∷ other_type type 1 (0 ∷ 0 ∷ 0 ∷ 0 ∷ []) ∷ [];
  stale = [];
}

hard-Expiry : (spi : ℕ) → Expiry spi true (expire spi 3)
hard-Expiry spi = record {
  sound = record {
    some_words = omega arith;
    length_fits = omega arith;
    seq_fits = omega arith;
    extensions_fit = omega arith;
  };
  is_expire = refl;
  says = refl;
}

soft-Expiry : (spi : ℕ) → Expiry spi false (expire spi 4)
soft-Expiry spi = record {
  sound = record {
    some_words = omega arith;
    length_fits = omega arith;
    seq_fits = omega arith;
    extensions_fit = omega arith;
  };
  is_expire = refl;
  says = refl;
}

hard_run :
    register_run db nodes (answer (expire 400 3) ∷ []) (success, [])
    ≡ ok (success, delete_path db (node 400) ∷ [])
unfolding send_leaves
hard_run =
    register_run-hard db db-Works nodes (node 300 ∷ node 400 ∷ [])
      (two_nodes-IsList (node 300) (node 400)) 400 (expire 400 3) (node 400) [] (hard-Expiry 400)
      (omega arith) (unfold find in refl) (omega arith)

register_run-hard_example :
    register_run db nodes (answer (expire 400 3) ∷ []) (success, [])
    ≡ ok (success, delete_path db (node 400) ∷ [])
unfolding send_leaves
register_run-hard_example =
    register_run-hard db db-Works nodes (node 300 ∷ node 400 ∷ [])
      (two_nodes-IsList (node 300) (node 400)) 400 (expire 400 3) (node 400) [] (hard-Expiry 400)
      (omega arith) (unfold find in refl) (omega arith)

register_run-unlisted_example :
    register_run db nodes (answer (expire 500 3) ∷ []) (success, []) ≡ fault null_deref
register_run-unlisted_example =
    register_run-unlisted db db-Works nodes (node 300 ∷ node 400 ∷ [])
      (two_nodes-IsList (node 300) (node 400)) 500 (expire 500 3) [] [] (hard-Expiry 500)
      (unfold find sign_extend in refl)

register_run-disabled_example :
    register_run db nodes (map answer (expire 500 4 ∷ expire 400 3 ∷ [])) (success, [])
    ≡ ok (missing, [])
register_run-disabled_example =
    register_run-disabled db db-Works nodes (node 300 ∷ node 400 ∷ [])
      (two_nodes-IsList (node 300) (node 400)) 500 (expire 500 4) (expire 400 3 ∷ []) success []
      (soft-Expiry 500) (unfold find sign_extend in refl) ((400, hard-Expiry 400), tt)

-- Every path that was deleted is that of an association named "sa".
abbrev OnlySa : List Text → Type 0
OnlySa = All (λ p. p ≡ delete_path db (node 0))

threads-one_example : threads ((3, true) ∷ (2, true) ∷ (3, true) ∷ []) false ≤ 1
threads-one_example = threads-one ((3, true) ∷ (2, true) ∷ (3, true) ∷ [])
