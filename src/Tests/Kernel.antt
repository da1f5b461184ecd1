-- ===== src/Tests/Kernel.antt =====
-- The theorems on the messages to the kernel, at a policy and an association between two hosts.
use ccips_cfgipsec.Base.{ℕ, suc, ◌≡◌, refl, List, [], ◌∷◌, ◌++◌, map, arith, ok, ◌<◌, ◌^◌, ◌>>=◌}
use ccips_cfgipsec.Base.Lists.{All}
use ccips_cfgipsec.PfKey.Lifetime.Fields.{field}
use ccips_cfgipsec.Text.{Text, codes, str_eq}
use ccips_cfgipsec.Sysrepo.{err_ok}
use ccips_cfgipsec.Spd.{SpdEntry}
use ccips_cfgipsec.Sad.{SadEntry}
use ccips_cfgipsec.Utils.Address.{get_ip, get_mask, strtok}
use ccips_cfgipsec.Utils.Decimal.{atoi, decimal}
use ccips_cfgipsec.Utils.Inet.{dotted}
use ccips_cfgipsec.PfKey.Lifetime.Dump.{buffer_of, answer}
use ccips_cfgipsec.PfKey.Send.{Heap, satype_of, addpolicy_request}
use ccips_cfgipsec.PfKey.Send.Sad.{addsad_request, delsad_request, encrypt_key_size, auth_key_size}
use ccips_cfgipsec.PfKey.Send.Buffer.{request}
use ccips_cfgipsec.PfKey.Send.Addresses.{Prefix, Sized, selectors}
use ccips_cfgipsec.PfKey.Send.Policy.{addpolicy_message}
use ccips_cfgipsec.PfKey.Send.SadParts.{KeysFit, parameters_of, key_extensions}
use ccips_cfgipsec.PfKey.Send.SadLaws.{addsad_message, naming_message}
use ccips_cfgipsec.PfKey.Send.Accepted.{
  Accepted, addpolicy_request-Accepted, addsad_request-Accepted, delsad_request-same,
}
use ccips_cfgipsec.PfKey.Kernel.{Machine, pf_addpolicy}
use ccips_cfgipsec.PfKey.Kernel.Items.{Host, source, destination, usage, policy, unread}
use ccips_cfgipsec.PfKey.Kernel.Lookup.{
  Row, RowSound, row_message, lookup_index, pf_addpolicy-lookup,
}
use ccips_cfgipsec.Tests.{blank_spd, blank_sad}

abbrev here : Text
here = codes "10.0.0.1"

abbrev there : Text
there = codes "10.0.0.2"

abbrev pub here_subnet : Text
here_subnet = codes "10.0.0.1/32"

abbrev pub there_subnet : Text
there_subnet = codes "10.0.0.2/32"

pub here-Prefix : Prefix here_subnet
unfolding get_ip get_mask strtok atoi
here-Prefix = record { ip = here; mask = 32; has_ip = refl; has_mask = refl }

pub there-Prefix : Prefix there_subnet
unfolding get_ip get_mask strtok atoi
there-Prefix = record { ip = there; mask = 32; has_ip = refl; has_mask = refl }

abbrev eight : List ℕ
eight = 1 ∷ 2 ∷ 3 ∷ 4 ∷ 5 ∷ 6 ∷ 7 ∷ 8 ∷ []

abbrev heap : Heap
heap = record { src = eight; dst = eight; tunnel_src = eight; tunnel_dst = eight }

pub heap-Sized : Sized heap
heap-Sized = record {
  src_size = refl;
  dst_size = refl;
  tunnel_src_size = refl;
  tunnel_dst_size = refl;
}

-- A tunnel between the two hosts
abbrev spd : SpdEntry
spd = record blank_spd {
  local_subnet = here_subnet;
  remote_subnet = there_subnet;
  tunnel_local = here;
  tunnel_remote = there;
  policy_dir = 2;
  action = 2;
  ipsec_mode = 2;
  protocol_parameters = 50;
  req_id = 7;
}

addpolicy_request-Accepted_example :
    (addpolicy_request 99 heap spd
      ≡ ok (buffer_of (addpolicy_message heap spd here-Prefix there-Prefix 99)))
    × Accepted (addpolicy_message heap spd here-Prefix there-Prefix 99)
addpolicy_request-Accepted_example =
    addpolicy_request-Accepted heap spd here-Prefix there-Prefix heap-Sized 99

-- An association in transport mode, with a key for 3DES and one for SHA-1
abbrev sad : SadEntry
sad = record blank_sad {
  spi = 300;
  local_subnet = here_subnet;
  remote_subnet = there_subnet;
  ipsec_mode = 1;
  protocol_parameters = 50;
  encryption_alg = 3;
  integrity_alg = 3;
  encryption_key = codes "abcdefghijklmnopqrstuvwx";
  integrity_key = codes "abcdefghijklmnopqrst";
}

sad-KeysFit : KeysFit sad
unfolding encrypt_key_size auth_key_size
sad-KeysFit = record { encryption_fits = omega arith; integrity_fits = omega arith }

addsad_request-Accepted_example :
    (addsad_request 99 heap sad
      ≡ ok (buffer_of (addsad_message heap sad here-Prefix there-Prefix 99)))
    × Accepted (addsad_message heap sad here-Prefix there-Prefix 99)
addsad_request-Accepted_example =
    addsad_request-Accepted heap sad here-Prefix there-Prefix heap-Sized 99 sad-KeysFit

delsad_request-same_example :
    (addsad_request 99 heap sad
      ≡ ok (
          buffer_of (
            request 3 (satype_of 50) 99 (
              parameters_of sad
              ++ (selectors 0 0 0 heap here-Prefix there-Prefix ++ key_extensions sad)))))
    × (delsad_request 99 heap sad
        ≡ ok (buffer_of (naming_message heap sad here-Prefix there-Prefix 4 99)))
    × Accepted (naming_message heap sad here-Prefix there-Prefix 4 99)
delsad_request-same_example =
    delsad_request-same heap sad here-Prefix there-Prefix heap-Sized 99 sad-KeysFit (omega arith)

abbrev host : ℕ → Host
host d = record { a = 10; b = 0; c = 0; d = d; port = 0 }

-- A message for a policy: its number, index and direction. It has the lifetimes of the policy and the id of the process.
abbrev row : ℕ → ℕ → ℕ → Row
row seq index dir = record {
  error = 0;
  satype = 3;
  reserved = 0;
  seq = seq;
  pid = 99;
  items =
      source 0 32 (host 1)
      ∷ destination 0 32 (host 2)
      ∷ unread 3 4 (field 4 0 ++ (field 8 0 ++ (field 8 0 ++ field 8 0)))
      ∷ usage 0 0 1700000000 0
      ∷ policy index 2 dir (
          record { proto = 50; mode = 1; tail = 2 ∷ 0 ∷ 0 ∷ 7 ∷ 0 ∷ 0 ∷ 0 ∷ 0 ∷ 0 ∷ 0 ∷ 0 ∷ [] }
          ∷ [])
      ∷ [];
  stale = 1 ∷ 2 ∷ 3 ∷ [];
}

abbrev pub rows : List Row
rows = row 5 1000 1 ∷ row 0 1001 2 ∷ []

-- A kernel that counts the messages and dumps an inbound and an outbound policy.
abbrev pub machine : Machine
machine = record {
  State = ℕ;
  write = λ bytes n. suc n;
  answers = λ bytes n. map answer (map row_message rows);
  pid = 99;
  heap = heap;
  stack = record {
    local_subnet = [];
    remote_subnet = [];
    index = 0;
    action = 0;
    policy_dir = 0;
    ipsec_mode = 0;
    protocol_parameters = 0;
  };
}

row-RowSound : (seq index dir : ℕ) → seq < 2 ^ 32 → index < 2 ^ 32 → RowSound (row seq index dir)
row-RowSound seq index dir small fits = record {
  items_fit = (
    omega arith,
    (
      omega arith,
      (
        (refl, omega arith, omega arith, omega arith, refl, refl, refl),
        (omega arith, (omega (arith, fits), tt)),
      ),
    ),
  );
  some_words = omega arith;
  length_fits = omega arith;
  seq_fits = small;
}

pub rows-RowSound : All RowSound rows
rows-RowSound = (
  row-RowSound 5 1000 1 (omega arith) (omega arith),
  (row-RowSound 0 1001 2 (omega arith) (omega arith), tt),
)

pf_addpolicy-lookup_example : pf_addpolicy machine spd 0 ≡ (
    lookup_index (here-Prefix.ip) (there-Prefix.ip) 2 0 rows (machine.stack) >>= λ i.
    ok (err_ok, record spd { index = i }, 2))
pf_addpolicy-lookup_example =
    pf_addpolicy-lookup machine 0 spd here-Prefix there-Prefix rows heap-Sized refl rows-RowSound

second_index : lookup_index here there 2 0 rows (machine.stack) ≡ ok 1001
unfolding lookup_index str_eq dotted decimal
second_index = refl
