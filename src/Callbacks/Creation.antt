-- ===== src/Callbacks/Creation.antt =====
-- The callback for policies over the program's own `pf_addpolicy`: a transaction that creates policies.
use ccips_cfgipsec.Base.{ℕ, ◌≡◌, true, false, List, [], ◌∷◌, map, ◌==◌}
use ccips_cfgipsec.Base.Lists.{All}
use ccips_cfgipsec.Text.{Text}
use ccips_cfgipsec.Store.{Ptr, Cell, Store}
use ccips_cfgipsec.Spd.{SpdEntry}
use ccips_cfgipsec.PfKey.Lifetime.Dump.{answer}
use ccips_cfgipsec.PfKey.Kernel.{Machine, spddump_request}
use ccips_cfgipsec.PfKey.Kernel.Lookup.{Row, row_message, RowSound}
use ccips_cfgipsec.Callbacks.Policies.{Policy}
use ccips_cfgipsec.Callbacks.Composed.{Named}

-- A message has the number 0.
abbrev pub Ends : List Row → Type 0
Ends [] = ⊥
Ends (r ∷ rs) = elim (r.seq == 0) [ true ↦ Unit | false ↦ Ends rs ]

-- Answers that are a dump of well-formed messages with an end.
pub record Dumped (answers : List (ℕ × List ℕ)) : Type 0 where
  pub rows : List Row
  pub dumped : answers ≡ map answer (map row_message rows)
  pub sound : All RowSound rows
  pub ends : Ends rows

module _ (machine : Machine) (garbage : Ptr → Cell SpdEntry) where
  -- The kernel answers every request for a dump of the policies with such a dump.
  abbrev pub Dumps : Type 0
  Dumps =
      (e : SpdEntry) (k : machine.State) → Dumped (machine.answers (spddump_request machine e) k)

  -- The prefixes of a policy can be taken apart.
  abbrev pub Told : Policy → Type 0
  Told p = Named (p.config.local_subnet) (p.config.remote_subnet)
