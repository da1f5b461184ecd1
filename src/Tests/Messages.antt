-- ===== src/Tests/Messages.antt =====
-- The theorems on PF_KEY messages, at a message with one extension and at a dump of two associations.
use ccips_cfgipsec.Base.{
  ℕ, ◌<◌, ◌≡◌, refl, sym, List, [], ◌∷◌, ◌++◌, map, Option, some, ok, arith, true,
}
use ccips_cfgipsec.Text.{Text, codes, str_eq}
use ccips_cfgipsec.Store.{Store}
use ccips_cfgipsec.Store.Seg.{IsList}
use ccips_cfgipsec.State.{get_sad_state}
use ccips_cfgipsec.State.Walk.{Reportable, leaves, get_sad_state-leaves}
use ccips_cfgipsec.Base.Lists.{All, length, length-append}
use ccips_cfgipsec.PfKey.{read_u16, parse_pfkey_message}
use ccips_cfgipsec.PfKey.Found.{parse_pfkey_message-places}
use ccips_cfgipsec.PfKey.Parse.{Inside, parse_pfkey_message-Inside}
use ccips_cfgipsec.Sysrepo.{err_ok}
use ccips_cfgipsec.Sad.{SadEntry}
use ccips_cfgipsec.PfKey.Lifetime.{pf_get_sad_lifetime_current_by_spi}
use ccips_cfgipsec.PfKey.Lifetime.Dump.{
  buffer_of, Message, Sound, Row, row_message, answer, dump, with_lifetimes,
  pf_get_sad_lifetime_current_by_spi-dump, pf_get_sad_lifetime_current_by_spi-first,
}
use ccips_cfgipsec.Tests.{blank_sad, two_nodes, two_nodes-IsList}

-- A header of two words that states three, and an extension of one word of type 5.
abbrev message : List ℕ
message =
    2 ∷ 5 ∷ 0 ∷ 3 ∷ 3 ∷ 0 ∷ 0 ∷ 0 ∷ 0 ∷ 0 ∷ 0 ∷ 0 ∷ 0 ∷ 0 ∷ 0 ∷ 0 ∷ 1 ∷ 0 ∷ 5 ∷ 0 ∷ 0 ∷ 0 ∷ 0 ∷ 0
    ∷ []

parse_pfkey_message-Inside_example :
    (rc : ℕ) × (exts : List (ℕ × ℕ)) × (parse_pfkey_message message ≡ ok (rc, exts))
    × All (Inside message) exts
parse_pfkey_message-Inside_example =
    parse_pfkey_message-Inside message 3 (unfold read_u16 in refl) (omega arith) (omega arith)
      (omega arith)

abbrev body : List ℕ
body = 4 ∷ 1 ∷ 3 ∷ 12 ∷ 0 ∷ 0 ∷ 0 ∷ 0 ∷ []

abbrev older : Row
older = record { spi = 200; body = body; allocations = 1; bytes = 64; addtime = 1000; usetime = 0 }

abbrev newer : Row
newer = record {
  spi = 300;
  body = body;
  allocations = 70000;
  bytes = 4294967296;
  addtime = 2000;
  usetime = 2100;
}

abbrev node : SadEntry
node = record blank_sad { spi = 300 }

abbrev dumped : List Message
dumped = row_message 1 [] older ∷ row_message 0 [] newer ∷ []

dumped-Sound : All Sound dumped
dumped-Sound = (
  record {
    some_words = omega arith;
    length_fits = omega arith;
    seq_fits = omega arith;
    extensions_fit = omega arith;
  },
  (
    record {
      some_words = omega arith;
      length_fits = omega arith;
      seq_fits = omega arith;
      extensions_fit = omega arith;
    },
    tt,
  ),
)

pf_get_sad_lifetime_current_by_spi-dump_example :
    pf_get_sad_lifetime_current_by_spi (map answer dumped) node ≡ dump dumped node
pf_get_sad_lifetime_current_by_spi-dump_example =
    pf_get_sad_lifetime_current_by_spi-dump dumped node dumped-Sound

abbrev other_node : SadEntry
other_node = record node { name = codes "b" }

abbrev new_tree : Text → Text → Option (List (Text × Text))
new_tree path value = some ((path, value) ∷ [])

abbrev add_leaf : List (Text × Text) → Text → Text → List (Text × Text)
add_leaf leaves' path value = (path, value) ∷ leaves'

-- A tree that the caller gives, and that is replaced
abbrev old_tree : Option (List (Text × Text))
old_tree = some ((codes "/old", codes "1") ∷ [])

abbrev sad_path : Text
sad_path = codes "/ietf-i2nsf-ikeless:ipsec-ikeless/sad/sad-entry"

reportable :
    (e : SadEntry)
    → e.spi ≡ 300
    → length (e.name) < 50
    → Reportable new_tree add_leaf (λ _. map answer dumped) sad_path (with_lifetimes newer) e
reportable e spi short = record {
  found =
      pf_get_sad_lifetime_current_by_spi-first (older ∷ []) newer 0 [] [] e dumped-Sound
        (omega arith) (sym spi);
  path_fits = omega (
    arith,
    length-append sad_path
        (codes "[name='" ++ (e.name ++ codes "']/ipsec-sa-state/sa-lifetime-current")),
    length-append e.name (codes "']/ipsec-sa-state/sa-lifetime-current"),
  );
}

get_sad_state-leaves_example :
    (t : Store SadEntry) × (get_sad_state new_tree add_leaf
        (λ _. map answer dumped)
        (codes "ietf-ipsec-ikeless")
        sad_path
        (two_nodes node other_node)
        old_tree
      ≡ ok (
        err_ok,
        t,
        leaves new_tree add_leaf
            (λ _. map answer dumped)
            sad_path
            (with_lifetimes newer)
            true
            (node ∷ other_node ∷ [])
            old_tree,
      ))
    × IsList t (with_lifetimes newer node ∷ with_lifetimes newer other_node ∷ [])
get_sad_state-leaves_example =
    get_sad_state-leaves new_tree add_leaf (λ _. map answer dumped) sad_path (with_lifetimes newer)
      (codes "ietf-ipsec-ikeless") (two_nodes node other_node) (node ∷ other_node ∷ []) old_tree
      (unfold str_eq in refl) (unfold str_eq in refl)
      (reportable node refl (omega arith), (reportable other_node refl (omega arith), tt))
      (two_nodes-IsList node other_node)

parse_pfkey_message-places_example :
    parse_pfkey_message (buffer_of (row_message 0 [] newer)) ≡ ok (0, (2, 32) ∷ (1, 16) ∷ [])
parse_pfkey_message-places_example =
    parse_pfkey_message-places (row_message 0 [] newer) dumped-Sound.1.0 (omega arith)
      ((refl, tt), (tt, tt))
