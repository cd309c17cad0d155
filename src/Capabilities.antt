-- ===== src/Capabilities.antt =====
-- src/capabilities.rs: the capabilities that a container keeps.
pub mod Sets
mod Tests
mod Unit
use boxed.Prelude.{
  ℕ, ◌+◌, ◌≡◌, refl, Bool, true, false, not, ◌&&◌, ◌||◌, List, [], ◌∷◌, ◌++◌, ◌==◌, if◌then◌else◌,
  arith, Bool-cases, inl, inr,
}
use boxed.Types.{
  Capability, cap_chown, cap_dac_override, cap_fsetid, cap_fowner, cap_mknod, cap_net_raw,
  cap_setgid, cap_setuid, cap_setfcap, cap_net_bind_service, cap_sys_chroot, cap_setpcap,
  cap_audit_write, CapSet, bounding, effective, permitted, inheritable,
}
use boxed.Error.{ok, failed_to_drop}
use boxed.Kernel.{Call, Machine, World, Io, call, pure, within, ◌>>=◌, ◌>>◌, drop_cap}
use boxed.Kernel.Script.{Step, Runs, Runs-nil, Runs-append, Runs-within-call}

-- `==` on capabilities.
unfoldable pub cap_code : Capability → ℕ
cap_code cap_chown = 0
cap_code cap_dac_override = 1
cap_code cap_fsetid = 2
cap_code cap_fowner = 3
cap_code cap_mknod = 4
cap_code cap_net_raw = 5
cap_code cap_setgid = 6
cap_code cap_setuid = 7
cap_code cap_setfcap = 8
cap_code cap_net_bind_service = 9
cap_code cap_sys_chroot = 10
cap_code cap_setpcap = 11
cap_code cap_audit_write = 12
cap_code (Capability.other n) = 13 + n

unfoldable pub cap_eq : Capability → Capability → Bool
unfolding cap_code
cap_eq a b = cap_code a == cap_code b

abbrev pub retained_caps : List Capability
retained_caps =
    cap_chown ∷ cap_dac_override ∷ cap_fsetid ∷ cap_fowner ∷ cap_mknod ∷ cap_net_raw ∷ cap_setgid
    ∷ cap_setuid ∷ cap_setfcap ∷ cap_net_bind_service ∷ cap_sys_chroot ∷ cap_setpcap
    ∷ cap_audit_write ∷ []

unfoldable pub contains_cap : List Capability → Capability → Bool
unfolding cap_eq
contains_cap [] cap = false
contains_cap (c ∷ caps) cap = cap_eq c cap || contains_cap caps cap

-- `caps::drop(None, set, cap)` with its context.
abbrev drop_from : CapSet → Capability → Io (Unit {0})
drop_from set cap = within (failed_to_drop cap set) (call (drop_cap set cap))

-- The loop over the capabilities of `caps::all()`, in whatever order they come.
unfoldable pub drop_each : List Capability → Io (Unit {0})
drop_each [] = pure tt
drop_each (c ∷ caps) =
    let rest = drop_each caps in
    if not (contains_cap retained_caps c)
    then (do
      drop_from bounding c
      drop_from effective c
      drop_from permitted c
      drop_from inheritable c
      rest)
    else rest

unfoldable pub drop_capabilities : List Capability → Io (Unit {0})
unfolding drop_each
drop_capabilities all = drop_each all

abbrev drop_step : Capability → CapSet → Step
drop_step c set = record { action = drop_cap set c; contexts = failed_to_drop c set ∷ [] }

unfoldable pub drop_steps : List Capability → List Step
drop_steps [] = []
drop_steps (c ∷ caps) =
    if contains_cap retained_caps c
    then drop_steps caps
    else drop_step c bounding
      ∷ drop_step c effective
      ∷ drop_step c permitted
      ∷ drop_step c inheritable
      ∷ drop_steps caps

module _ (m : Machine) (c : Capability) (rest : Io (Unit {0})) (ss : List Step)
    (h : Runs m rest ss) where
  drop_from-Runs :
      Runs m
        (drop_from bounding c
          >> (drop_from effective c
              >> (drop_from permitted c >> (drop_from inheritable c >> rest))))
        (drop_step c bounding
          ∷ drop_step c effective
          ∷ drop_step c permitted
          ∷ drop_step c inheritable
          ∷ ss)
  drop_from-Runs =
      Runs-within-call _ _ _
        (λ _.
          Runs-within-call _ _ _
            (λ _. Runs-within-call _ _ _ (λ _. Runs-within-call _ _ _ (λ _. h) _) _) _)
        _

drop_each-Runs : (m : Machine) (caps : List Capability) → Runs m (drop_each caps) (drop_steps caps)
unfolding drop_each drop_steps
drop_each-Runs m [] = Runs-nil
drop_each-Runs m (c ∷ caps) = elim (Bool-cases (contains_cap retained_caps c)) [
  | inl kept ↦ rw kept (drop_each-Runs m caps)
  | inr lost ↦ rw lost (drop_from-Runs m c _ _ (drop_each-Runs m caps))
]

pub drop_capabilities-Runs :
    (m : Machine) (all : List Capability) → Runs m (drop_capabilities all) (drop_steps all)
unfolding drop_capabilities
drop_capabilities-Runs m all = drop_each-Runs m all
