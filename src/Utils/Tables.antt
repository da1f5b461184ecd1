-- ===== src/Utils/Tables.antt =====
-- The tables of src/utils/utils.c that name the parts of a PF_KEY message, with the numbers of
-- constants.h, and `found_name`.
use ccips_cfgipsec.Base.{
  ℕ, ◌-◌, ◌≡◌, refl, sym, ap, ◌∙◌, ◌++◌, ltb, ◌==◌, if◌then◌else◌, Run, ok, fault, bad_pointer,
  Bool-cases, inl, inr,
}
use ccips_cfgipsec.Base.Lists.{length, drop, take, take-drop}
use ccips_cfgipsec.Text.{Text, codes, str_eq, str_eq→eq}
use ccips_cfgipsec.Utils.Algorithms.{unknown}

unfoldable pub get_sa_state : ℕ → Text
get_sa_state state =
    if state == 0
    then codes "Larval"
    else (if state == 1
        then codes "Mature"
        else (if state == 2
            then codes "Dying"
            else (if state == 3 then codes "Dead" else (unknown "[Unknown SA state " state))))

unfoldable pub get_sadb_msg_type : ℕ → Text
get_sadb_msg_type type =
    if type == 0
    then codes "Reserved"
    else (if type == 1
        then codes "Get SPI"
        else (if type == 2
            then codes "Update"
            else (if type == 3
                then codes "Add"
                else (if type == 4
                    then codes "Delete"
                    else (if type == 5
                        then codes "Get"
                        else (if type == 6
                            then codes "Acquire"
                            else (if type == 7
                                then codes "Register"
                                else (if type == 8
                                    then codes "Expire"
                                    else (if type == 9
                                        then codes "Flush"
                                        else (if type == 10
                                            then codes "Dump"
                                            else (unknown "[Unknown type " type)))))))))))

unfoldable pub get_sadb_satype : ℕ → Text
get_sadb_satype type =
    if type == 0
    then codes "Unspecified"
    else (if type == 2
        then codes "IPsec AH"
        else (if type == 3
            then codes "IPsec ESP"
            else (if type == 5
                then codes "RSVP"
                else (if type == 6
                    then codes "OSPFv2"
                    else (if type == 7
                        then codes "RIPv2"
                        else (if type == 8
                            then codes "Mobile IP"
                            else (unknown "[Unknown satype " type)))))))

-- A path that is shorter than its last five bytes is read before its beginning.
unfoldable pub found_name : Text → Run ℕ
found_name path =
    if ltb (length path) 5
    then fault bad_pointer
    else ok (if str_eq (codes "/name") (drop (length path - 5) path) then 1 else 0)

-- A path that `found_name` finds is what stands before it, and then `/name`.
pub found_name-path :
    (path : Text) → found_name path ≡ ok 1 → path ≡ take (length path - 5) path ++ codes "/name"
unfolding found_name
found_name-path path found = elim (Bool-cases (ltb (length path) 5)) [
  | inl short ↦
      let no_path : ◌≡◌ {A = Run ℕ} (fault bad_pointer) (ok 1) = sym (rw short refl) ∙ found in cc
  | inr long ↦ elim (Bool-cases (str_eq (codes "/name") (drop (length path - 5) path))) [
    | inl same ↦
        sym (take-drop (length path - 5) path)
        ∙ ap (λ t. take (length path - 5) path ++ t) (sym (str_eq→eq (codes "/name") _ same))
    | inr other ↦
        let wrong : ◌≡◌ {A = Run ℕ} (ok 0) (ok 1) = sym (rw long (rw other refl)) ∙ found in cc
  ]
]
