-- ===== src/Tests/Json.antt =====
-- Associations and messages as objects of a parson that is a function from keys to values.
use ccips_cfgipsec.Base.{
  ◌≡◌, refl, arith, Bool, true, ◌&&◌, Option, some, none, [], ◌∷◌, if◌then◌else◌, ltb, ok,
}
use ccips_cfgipsec.Base.Lists.{All}
use ccips_cfgipsec.Text.{Text, codes, str_eq}
use ccips_cfgipsec.Sad.{SadEntry}
use ccips_cfgipsec.Json.{Value, string, number, boolean, Parson}
use ccips_cfgipsec.Json.Fields.{KeptField}
use ccips_cfgipsec.Json.Sad.{sad_fields, serialize_sad_node, deserialize_sad_node}
use ccips_cfgipsec.Json.Sad.RoundTrip.{Fits, deserialize-serialize_sad_node}
use ccips_cfgipsec.Tests.{blank_sad}

abbrev is_ascii : Text → Bool
is_ascii [] = true
is_ascii (c ∷ s) = ltb c 128 && is_ascii s

abbrev with_value : (Text → Option Value) → Text → Value → Text → Option Value
with_value o key v k = if str_eq key k then some v else o k

abbrev values : Parson
values = record {
  Object = Text → Option Value;
  IsUtf8 = λ s. is_ascii s ≡ true;
  init_object = λ k. none;
  get_value = λ o k. o k;
  set_string = λ o key s. if is_ascii s then with_value o key (string s) else o;
  set_number = λ o key n. with_value o key (number n);
  set_boolean = λ o key b. with_value o key (boolean b);
  string_is_set = λ o key k s utf8. rw utf8 refl;
  number_is_set = λ o key k n small. refl;
  boolean_is_set = λ o key k b. refl;
}

abbrev sealed : SadEntry
sealed = record blank_sad {
  name = codes "in/trans/0";
  req_id = 7;
  spi = 34501;
  ext_seq_num = true;
  anti_replay_window = 64;
  local_subnet = codes "192.168.201.200/32";
  remote_subnet = codes "192.168.202.200/32";
  inner_protocol = 256;
  integrity_alg = 2;
  encryption_alg = 3;
  encryption_key_length = 24;
  encryption_key = codes "ecr_secret_ecr_secret_12";
  integrity_key = codes "auth_secret_auth";
  encryption_iv = codes "vector12";
  lft_bytes_hard = 4000000000;
  lft_time_hard = 3600;
}

sealed-Fits : Fits sealed
sealed-Fits = record {
  name = omega arith;
  req_id = omega arith;
  spi = omega arith;
  seq_number_counter = omega arith;
  anti_replay_window = omega arith;
  local_subnet = omega arith;
  remote_subnet = omega arith;
  tunnel_local = omega arith;
  tunnel_remote = omega arith;
  inner_protocol = omega arith;
  srcport = omega arith;
  dstport = omega arith;
  ipsec_mode = omega arith;
  protocol_parameters = omega arith;
  integrity_alg = omega arith;
  encryption_alg = omega arith;
  encryption_key_length = omega arith;
  encryption_key = omega arith;
  integrity_key = omega arith;
  encryption_iv = omega arith;
  df_bit = omega arith;
  lft_bytes_hard = omega arith;
  lft_bytes_soft = omega arith;
  lft_bytes_current = omega arith;
  lft_packets_hard = omega arith;
  lft_packets_soft = omega arith;
  lft_packets_current = omega arith;
  lft_time_hard = omega arith;
  lft_time_soft = omega arith;
  lft_time_current = omega arith;
  lft_idle_hard = omega arith;
  lft_idle_soft = omega arith;
  lft_idle_current = omega arith;
}

sealed-Kept : All (KeptField values) (sad_fields sealed)
unfolding sad_fields
sealed-Kept = (
  refl,
  (
    omega arith,
    (
      omega arith,
      (
        tt,
        (
          tt,
          (
            omega arith,
            (
              omega arith,
              (
                refl,
                (
                  refl,
                  (
                    refl,
                    (
                      refl,
                      (
                        omega arith,
                        (
                          omega arith,
                          (
                            omega arith,
                            (
                              omega arith,
                              (
                                omega arith,
                                (
                                  omega arith,
                                  (
                                    omega arith,
                                    (
                                      omega arith,
                                      (
                                        refl,
                                        (
                                          refl,
                                          (
                                            refl,
                                            (
                                              tt,
                                              (
                                                tt,
                                                (
                                                  tt,
                                                  (
                                                    omega arith,
                                                    (
                                                      omega arith,
                                                      (
                                                        omega arith,
                                                        (
                                                          omega arith,
                                                          (
                                                            omega arith,
                                                            (
                                                            omega arith,
                                                            (
                                                            omega arith,
                                                            (
                                                            omega arith,
                                                            (
                                                            omega arith,
                                                            (
                                                            omega arith,
                                                            (
                                                            omega arith,
                                                            (omega arith, (omega arith, tt)),
                                                            ),
                                                            ),
                                                            ),
                                                            ),
                                                            ),
                                                            ),
                                                          ),
                                                        ),
                                                      ),
                                                    ),
                                                  ),
                                                ),
                                              ),
                                            ),
                                          ),
                                        ),
                                      ),
                                    ),
                                  ),
                                ),
                              ),
                            ),
                          ),
                        ),
                      ),
                    ),
                  ),
                ),
              ),
            ),
          ),
        ),
      ),
    ),
  ),
)

deserialize-serialize_sad_node_example :
    deserialize_sad_node values blank_sad (serialize_sad_node values sealed) ≡ ok sealed
deserialize-serialize_sad_node_example =
    deserialize-serialize_sad_node values sealed sealed-Kept blank_sad sealed-Fits
