-- ===== src/Tests/SadConfig.antt =====
-- The theorem on reading an association, at a tunnel.
use ccips_cfgipsec.Base.{true, false, List, [], ◌∷◌, ◌++◌}
use ccips_cfgipsec.Text.{Text, codes}
use ccips_cfgipsec.Sysrepo.{Value, number}
use ccips_cfgipsec.Spd.Config.{tunnel, clear, any_at}
use ccips_cfgipsec.Sad.Config.{SadConfig}
use ccips_cfgipsec.Store.{Store}
use ccips_cfgipsec.Sad.{SadEntry}
use ccips_cfgipsec.Callbacks.Associations.{Association}
use ccips_cfgipsec.Tests.{blank_sad, sad_named}

abbrev entry : Text
entry = codes "/sad/sad-entry"

abbrev tunnel_association : SadConfig
tunnel_association = record {
  req_id = 12;
  spi = 34501;
  esn = true;
  overflow = true;
  window = 64;
  local_subnet = codes "192.168.201.0/24";
  remote_subnet = codes "192.168.202.0/24";
  inner = any_at 4660;
  local_keys = codes "[start='0']";
  local_port = 0;
  remote_keys = codes "[start='80']";
  remote_port = 80;
  sa_mode = tunnel;
  encryption_alg = 3;
  encryption_key = codes "ecr_secret_ecr_secret_12";
  vector = codes "vector12";
  integrity_alg = 2;
  integrity_key = codes "auth_secret_auth" ++ (0 ∷ 7 ∷ []);
  hard = record { seconds = 3600; octets = 2000000; count = 2000; idle_seconds = 120 };
  soft = record { seconds = 3000; octets = 1000000; count = 1000; idle_seconds = 60 };
  tunnel_local = codes "10.0.0.1";
  tunnel_remote = codes "10.0.0.2";
  df = clear;
  dscp = true;
  ecn_bit = true;
}

abbrev elsewhere : Value
elsewhere = record { xpath = codes "/spd/other"; val = number 0 }

abbrev inbound_sa : Association
inbound_sa = record { name = codes "in"; address = 4096; upper = true; config = tunnel_association }

abbrev outbound_sa : Association
outbound_sa = record {
  name = codes "out";
  address = 8192;
  upper = false;
  config = tunnel_association;
}

abbrev both : List Association
both = inbound_sa ∷ outbound_sa ∷ []

-- The list has an association of the name `in` already.
abbrev listed : List SadEntry
listed = sad_named (codes "in") ∷ blank_sad ∷ []
