-- ===== src/Sad/Config/Numbers.antt =====
-- What the branch of each leaf of an association that is a number or a flag sets.
use ccips_cfgipsec.Base.{ℕ, ◌<◌, ◌^◌, ◌%◌, ◌≡◌, refl, Bool, true, false, [], ◌∷◌, arith}
use ccips_cfgipsec.Text.{Text, codes}
use ccips_cfgipsec.Sysrepo.{
  number, bool_val, uint16_val, uint32_val, uint64_val, int16_val, int32_val,
}
use ccips_cfgipsec.Sad.{SadEntry}
use ccips_cfgipsec.Sad.Leaf.{
  SadLeaf, reqid, spi, ext_seq_num, seq_overflow, start, bypass_dscp, ecn, encryption_algorithm,
  integrity_algorithm, time, bytes, packets, idle, other,
}
use ccips_cfgipsec.Sad.Read.{read_start, read_lifetime, read_sad_leaf}
use ccips_cfgipsec.Spd.Config.{flag}
use ccips_cfgipsec.Sad.Config.{
  leaf_at, path_of, step, cfg, sel, tunnel_path, local_ports, remote_ports, encryption_path,
  integrity_path, hard_path, soft_path, Lacks,
}
use ccips_cfgipsec.Sad.Config.Steps.{Sets, holds}

module _ (xpath : Text) where
  pub set_reqid :
      (n : ℕ) → n < 2 ^ 64 → Sets xpath (leaf_at [] reqid (number n), λ r. record r { req_id = n })
  unfolding read_sad_leaf uint64_val
  set_reqid n h node = let e : n % 2 ^ 64 ≡ n = omega arith in rw e

  pub set_spi :
      (n : ℕ) → n < 2 ^ 32 → Sets xpath (leaf_at cfg spi (number n), λ r. record r { spi = n })
  unfolding read_sad_leaf uint32_val
  set_spi n h node = let e : n % 2 ^ 32 ≡ n = omega arith in rw e

  -- No branch is for the window.
  pub skip_window : (n : ℕ) → Sets xpath (leaf_at cfg other (number n), λ r. r)
  unfolding read_sad_leaf
  skip_window n node = refl

  module _ (n : ℕ) (fits : n < 2 ^ 16) (keys : Text) where
    pub set_local_port :
        Lacks (path_of xpath (local_ports keys) start) (codes "/remote-ports")
        → Sets xpath (leaf_at (local_ports keys) start (number n), λ r. record r { srcport = n })
    unfolding read_sad_leaf read_start uint16_val
    set_local_port lacks node =
        let e : n % 2 ^ 16 ≡ n = omega arith in
        rw (holds xpath sel (codes "/local-ports") keys (codes "/start"), read_start)
          (rw (lacks, e))

    pub set_remote_port :
        Lacks (path_of xpath (remote_ports keys) start) (codes "/local-ports")
        → Sets xpath (leaf_at (remote_ports keys) start (number n), λ r. record r { dstport = n })
    unfolding read_sad_leaf read_start uint16_val
    set_remote_port lacks node =
        let e : n % 2 ^ 16 ≡ n = omega arith in
        rw (holds xpath sel (codes "/remote-ports") keys (codes "/start"), read_start)
          (rw (lacks, e))

  bool_val-flag : (b : Bool) → bool_val (flag b) ≡ b
  unfolding bool_val
  bool_val-flag true = refl
  bool_val-flag false = refl

  module _ (b : Bool) where
    pub set_ext_seq_num :
        Sets xpath (leaf_at cfg ext_seq_num (flag b), λ r. record r { ext_seq_num = b })
    unfolding read_sad_leaf
    set_ext_seq_num node = rw (bool_val-flag b)

    pub set_seq_overflow :
        Sets xpath (leaf_at cfg seq_overflow (flag b), λ r. record r { seq_overflow = b })
    unfolding read_sad_leaf
    set_seq_overflow node = rw (bool_val-flag b)

    pub set_bypass_dscp :
        Sets xpath (leaf_at tunnel_path bypass_dscp (flag b), λ r. record r { bypass_dscp = b })
    unfolding read_sad_leaf
    set_bypass_dscp node = rw (bool_val-flag b)

    pub set_ecn : Sets xpath (leaf_at tunnel_path ecn (flag b), λ r. record r { ecn = b })
    unfolding read_sad_leaf
    set_ecn node = rw (bool_val-flag b)

  module _ (n : ℕ) (fits : n < 2 ^ 15) where
    int16_val-number : int16_val (number n) ≡ n
    unfolding int16_val
    int16_val-number = ground arith

    pub set_integrity_algorithm :
        Sets xpath (
          leaf_at integrity_path integrity_algorithm (number n),
          λ r. record r { integrity_alg = n },
        )
    unfolding read_sad_leaf
    set_integrity_algorithm node = rw int16_val-number

    pub set_encryption_algorithm : Sets xpath (
      leaf_at encryption_path encryption_algorithm (number n),
      λ r. record r { encryption_alg = n },
    )
    unfolding read_sad_leaf
    set_encryption_algorithm node = rw int16_val-number

  int32_val-number : (n : ℕ) → n < 2 ^ 31 → int32_val (number n) ≡ n
  unfolding int32_val
  int32_val-number n fits = ground arith

  soft_limit :
      (l : SadLeaf) (a b c : SadEntry) → read_lifetime (path_of xpath soft_path l) a b c ≡ a
  unfolding read_lifetime
  soft_limit l a b c = rw (holds xpath cfg (codes "/sa-lifetime-soft") [] (b'/' ∷ step l))

  hard_limit :
      (l : SadLeaf) (a b c : SadEntry)
      → Lacks (path_of xpath hard_path l) (codes "/sa-lifetime-soft")
      → read_lifetime (path_of xpath hard_path l) a b c ≡ b
  unfolding read_lifetime
  hard_limit l a b c lacks =
      rw (lacks, read_lifetime)
        (rw (holds xpath cfg (codes "/sa-lifetime-hard") [] (b'/' ∷ step l)))

  module _ (n : ℕ) (fits : n < 2 ^ 31) where
    pub set_soft_time :
        Sets xpath (leaf_at soft_path time (number n), λ r. record r { lft_time_soft = n })
    unfolding read_sad_leaf
    set_soft_time node = rw (soft_limit time _ _ _, int32_val-number n fits)

    pub set_hard_time :
        Lacks (path_of xpath hard_path time) (codes "/sa-lifetime-soft")
        → Sets xpath (leaf_at hard_path time (number n), λ r. record r { lft_time_hard = n })
    unfolding read_sad_leaf
    set_hard_time lacks node = rw (hard_limit time _ _ _ lacks, int32_val-number n fits)

    pub set_soft_bytes :
        Sets xpath (leaf_at soft_path bytes (number n), λ r. record r { lft_bytes_soft = n })
    unfolding read_sad_leaf
    set_soft_bytes node = rw (soft_limit bytes _ _ _, int32_val-number n fits)

    pub set_hard_bytes :
        Lacks (path_of xpath hard_path bytes) (codes "/sa-lifetime-soft")
        → Sets xpath (leaf_at hard_path bytes (number n), λ r. record r { lft_bytes_hard = n })
    unfolding read_sad_leaf
    set_hard_bytes lacks node = rw (hard_limit bytes _ _ _ lacks, int32_val-number n fits)

    pub set_soft_packets :
        Sets xpath (leaf_at soft_path packets (number n), λ r. record r { lft_packets_soft = n })
    unfolding read_sad_leaf
    set_soft_packets node = rw (soft_limit packets _ _ _, int32_val-number n fits)

    pub set_hard_packets :
        Lacks (path_of xpath hard_path packets) (codes "/sa-lifetime-soft")
        → Sets xpath (leaf_at hard_path packets (number n), λ r. record r { lft_packets_hard = n })
    unfolding read_sad_leaf
    set_hard_packets lacks node = rw (hard_limit packets _ _ _ lacks, int32_val-number n fits)

    pub set_soft_idle :
        Sets xpath (leaf_at soft_path idle (number n), λ r. record r { lft_idle_soft = n })
    unfolding read_sad_leaf
    set_soft_idle node = rw (soft_limit idle _ _ _, int32_val-number n fits)

    pub set_hard_idle :
        Lacks (path_of xpath hard_path idle) (codes "/sa-lifetime-soft")
        → Sets xpath (leaf_at hard_path idle (number n), λ r. record r { lft_idle_hard = n })
    unfolding read_sad_leaf
    set_hard_idle lacks node = rw (hard_limit idle _ _ _ lacks, int32_val-number n fits)
