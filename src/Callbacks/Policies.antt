-- ===== src/Callbacks/Policies.antt =====
-- A transaction that creates policies, from the changes that sysrepo reports of it to the list of
-- policies.
use ccips_cfgipsec.Base.{
  ◌==◌, ==_refl, Bool-cases, inl, inr, ℕ, ◌+◌, ◌≤◌, ◌≡◌, ◌≢◌, refl, ap, sym, ◌∙◌, arith, false,
  List, [], ◌∷◌, ◌++◌, Run, ok,
}
use ccips_cfgipsec.Base.Lists.{length, All, length-append, last_or, last_or-append}
use ccips_cfgipsec.Text.{Text, codes, str_eq, starts_with, strcpy}
use ccips_cfgipsec.Utils.Constants.{max_path}
use ccips_cfgipsec.Sysrepo.{Rc, err_ok, Change, number, text}
use ccips_cfgipsec.Sysrepo.ReadLoop.{creation}
use ccips_cfgipsec.Spd.{SpdEntry}
use ccips_cfgipsec.Spd.Read.{read_spd_entry}
use ccips_cfgipsec.Spd.Config.{SpdConfig, ConfigFits, config_entry}
use ccips_cfgipsec.Spd.Config.RoundTrip.{
  config_changes, read_spd_entry-config, read_spd_entry-config_last,
}
use ccips_cfgipsec.Callbacks.{apply_change}
use ccips_cfgipsec.Callbacks.Loop.{apply_change-other}
use mathlib.Core.List.{append_assoc}

-- A policy of the configuration, and the address of its texts.
pub record Policy : Type 0 where
  pub name : Text
  pub address : ℕ
  pub config : SpdConfig

-- The path of the list instance below `root`, the path of the list.
abbrev pub entry_path : Text → Text → Text
entry_path root name = root ++ (codes "[name='" ++ (name ++ codes "']"))

-- A name without the quote that closes it in the path.
abbrev pub NoQuote : Text → Type 0
NoQuote s = All (λ c. c ≢ 39) s

starts_with-common : (front a b : Text) → starts_with (front ++ a) (front ++ b) ≡ starts_with a b
unfolding starts_with
starts_with-common [] a b = refl
starts_with-common (x ∷ front) a b = rw (==_refl x) (starts_with-common front a b)

quoted-Apart :
    (p q : Text)
    → NoQuote p
    → NoQuote q
    → str_eq p q ≡ false
    → starts_with (p ++ codes "']") (q ++ codes "']") ≡ false
unfolding starts_with str_eq
quoted-Apart [] [] hp hq ne = cc
quoted-Apart [] (y ∷ q) hp (hy, hq) ne = let e : (39 == y) ≡ false = ground arith in rw e refl
quoted-Apart (x ∷ p) [] (hx, hp) hq ne = let e : (x == 39) ≡ false = ground arith in rw e refl
quoted-Apart (x ∷ p) (y ∷ q) (hx, hp) (hy, hq) ne = elim (Bool-cases (x == y)) [
  | inr differ ↦ rw differ refl
  | inl same ↦ rw same (quoted-Apart p q hp hq (rw same at ne))
]

-- Different names without quotes give paths of which none begins with the other.
pub entry_path-Apart :
    (root p q : Text)
    → NoQuote p
    → NoQuote q
    → str_eq p q ≡ false
    → starts_with (entry_path root p) (entry_path root q) ≡ false
entry_path-Apart root p q hp hq ne =
    starts_with-common root (codes "[name='" ++ (p ++ codes "']"))
      (codes "[name='" ++ (q ++ codes "']"))
    ∙ starts_with-common (codes "[name='") (p ++ codes "']") (q ++ codes "']")
    ∙ quoted-Apart p q hp hq ne

-- The creation of the list instance, whose path does not end in `name`, is passed over.
module _ (root : Text) where
  pub instance_passed :
      {S : Type 0} (add : Text → Text → List Change → S → Run (Rc × S × List Change))
      (remove : Text → S → Run (Rc × S)) (name : Text) (it : List Change) (state : S)
      → apply_change add remove
          (creation (record { xpath = entry_path root name; val = number 0 }))
          it
          state
        ≡ ok (err_ok, state, it)
  instance_passed add remove name it state =
      apply_change-other add remove (record { xpath = entry_path root name; val = number 0 }) it
        state (omega (arith, long, inner)) (λ e. absurd (closing (sym last_byte ∙ e)))
    where
      body : Text
      body = codes "[name='" ++ (name ++ codes "']")

      long : length (entry_path root name) ≡ length root + length body
      long = length-append root body

      inner : 4 ≤ length body
      inner = omega (arith, length-append name (codes "']"))

      whole : entry_path root name ≡ (root ++ (codes "[name='" ++ name)) ++ codes "']"
      whole =
          ap (λ t. root ++ t) (sym (append_assoc (codes "[name='") name (codes "']")))
          ∙ sym (append_assoc root (codes "[name='" ++ name) (codes "']"))

      last_byte : last_or (entry_path root name) 0 ≡ b']'
      last_byte =
          ap (λ t. last_or t 0) whole
          ∙ last_or-append (root ++ (codes "[name='" ++ name)) 39 (codes "]") 0

      closing : ◌≢◌ {A = ℕ} b']' b'e'
      closing e = omega (arith, e)

module _ (root : Text) where
  abbrev pub path_of : Policy → Text
  path_of p = entry_path root p.name

  -- The instance of the list is created, then its key, then the leaves.
  abbrev pub instance_created : Policy → Change
  instance_created p = creation (record { xpath = path_of p; val = number 0 })

  abbrev pub name_created : Policy → Change
  name_created p =
      creation (record { xpath = path_of p ++ codes "/name"; val = text (p.address) (p.name) })

  -- The changes of the policies, and those behind the first policy's instance.
  unfoldable pub policy_changes : List Policy → List Change
  policy_changes [] = []
  policy_changes (p ∷ ps) =
      instance_created p
      ∷ (name_created p ∷ (config_changes (path_of p) (p.address) (p.config) ++ policy_changes ps))

  unfoldable pub behind_instance : List Policy → List Change
  behind_instance [] = []
  behind_instance (p ∷ ps) =
      name_created p ∷ (config_changes (path_of p) (p.address) (p.config) ++ policy_changes ps)

  -- A policy can be stored, and the next policy's path does not begin with its path.
  pub record Storable (p : Policy) : Type 0 where
    pub name_fits : strcpy max_path (p.name) ≡ ok (p.name)
    pub config_fits : ConfigFits (path_of p) (p.config)
    pub no_quote : NoQuote (p.name)

  -- What one policy needs of another that is created behind it.
  pub record Apart (p q : Policy) : Type 0 where
    pub other_name : str_eq (p.name) (q.name) ≡ false
    pub no_quote_in_it : NoQuote (q.name)

  abbrev pub Creatable : List Policy → Type 0
  Creatable [] = Unit
  Creatable (p ∷ ps) = Storable p × All (Apart p) ps × Creatable ps

  pub read_policy :
      (p : Policy) (ps : List Policy) (node : SpdEntry)
      → Storable p
      → All (Apart p) ps
      → read_spd_entry
          (path_of p)
          node
          (config_changes (path_of p) (p.address) (p.config) ++ policy_changes ps)
        ≡ ok (err_ok, config_entry (p.config) node, behind_instance ps)
  unfolding policy_changes behind_instance
  read_policy p [] node st apart =
      read_spd_entry-config_last (path_of p) (p.address) (p.config) node (st.config_fits)
  read_policy p (q ∷ ps) node st (apart, _) =
      read_spd_entry-config (path_of p) (p.address) (p.config) node (instance_created q) _
        (st.config_fits)
        (record {
          elsewhere = record { xpath = path_of q; val = number 0 };
          has_value = refl;
          other_path =
              entry_path-Apart root (p.name) (q.name) (st.no_quote) (apart.no_quote_in_it)
                (apart.other_name);
        })

  pub length-policy_changes : (ps : List Policy) → length ps ≤ length (policy_changes ps)
  unfolding policy_changes
  length-policy_changes [] = omega arith
  length-policy_changes (p ∷ ps) = omega (
    arith,
    length-policy_changes ps,
    length-append (config_changes (path_of p) p.address p.config) (policy_changes ps),
  )
