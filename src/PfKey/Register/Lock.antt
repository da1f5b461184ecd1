-- ===== src/PfKey/Register/Lock.antt =====
-- The lock of `pf_exec_register`: calls one behind the other, each with a type and whether a thread can be made.
use ccips_cfgipsec.Base.{
  ℕ, ◌+◌, ◌≤◌, ◌≡◌, refl, arith, Bool, true, false, Bool-cases, inl, inr, List, [], ◌∷◌, ◌==◌,
  if◌then◌else◌,
}
use ccips_cfgipsec.PfKey.Register.{pf_exec_register}

-- The threads that the calls start, of a process with id 0.
unfoldable pub threads : List (ℕ × Bool) → Bool → ℕ
threads [] locked = 0
threads ((satype, can_create) ∷ calls) locked =
    let (result, locked', started, written) = pf_exec_register satype 0 locked can_create in
    (if started then 1 else 0) + threads calls locked'

threads-locked : (calls : List (ℕ × Bool)) → threads calls true ≡ 0
unfolding threads pf_exec_register
threads-locked [] = refl
threads-locked ((satype, can_create) ∷ calls) = elim (Bool-cases (satype == 3)) [
  | inl esp ↦ rw esp (omega (arith, threads-locked calls))
  | inr other ↦ rw other (omega (arith, threads-locked calls))
]

-- However often `pf_exec_register` is called, with whatever types, and whether or not threads can be created:
-- it starts at most one thread.
pub threads-one : (calls : List (ℕ × Bool)) → threads calls false ≤ 1
unfolding threads pf_exec_register
threads-one [] = omega arith
threads-one ((satype, true) ∷ calls) = elim (Bool-cases (satype == 3)) [
  | inl esp ↦ rw esp (omega (arith, threads-locked calls))
  | inr other ↦ rw other (omega (arith, threads-one calls))
]
threads-one ((satype, false) ∷ calls) = elim (Bool-cases (satype == 3)) [
  | inl esp ↦ rw esp (omega (arith, threads-locked calls))
  | inr other ↦ rw other (omega (arith, threads-one calls))
]
