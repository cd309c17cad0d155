-- ===== src/Capabilities/Unit.antt =====
-- The unit tests of src/capabilities.rs, under their names, with `caps::all` as a parameter.
use boxed.Prelude.{◌≡◌, refl, Bool, true, not, List, [], ◌∷◌, ◌++◌, map, length, ltb, is_empty}
use boxed.Error.{is_ok}
use boxed.Types.{Capability}
use boxed.Asserts.{all_inserted, all_pass}
use boxed.Kernel.{Machine, World, call}
use boxed.Kernel.Sample.{granting, fresh}
use boxed.Capabilities.{cap_eq, cap_code, contains_cap, retained_caps, drop_each, drop_capabilities}

abbrev retained_caps_no_duplicates : Bool
retained_caps_no_duplicates = all_inserted cap_eq [] retained_caps

abbrev retained_caps_not_empty : Bool
retained_caps_not_empty = not (is_empty retained_caps)

-- CAP_SYS_ADMIN, CAP_SYS_PTRACE, CAP_SYS_MODULE, CAP_SYS_RAWIO, CAP_NET_ADMIN, CAP_SYS_BOOT and
-- CAP_SYS_TIME, by the numbers that Linux gives them.
abbrev dangerous : List Capability
dangerous = map Capability.other (21 ∷ 19 ∷ 16 ∷ 17 ∷ 12 ∷ 22 ∷ 25 ∷ [])

abbrev retained_caps_excludes_dangerous : Bool
retained_caps_excludes_dangerous =
    all_pass (map (λ c. not (contains_cap retained_caps c)) dangerous)

module _ (all : List Capability) where
  abbrev retained_caps_is_subset_of_all : Bool
  retained_caps_is_subset_of_all = all_pass (map (contains_cap all) retained_caps)

  abbrev retained_caps_smaller_than_full_set : Bool
  retained_caps_smaller_than_full_set = ltb (length retained_caps) (length all)

  abbrev drop_succeeds_as_root : Machine → World → Bool
  drop_succeeds_as_root m w = is_ok (drop_capabilities all m w).0

-- The capabilities that are kept, and those that are dangerous.
abbrev known_caps : List Capability
known_caps = dangerous ++ retained_caps

capabilities_pass :
    all_pass (
      retained_caps_no_duplicates
      ∷ retained_caps_not_empty
      ∷ retained_caps_excludes_dangerous
      ∷ retained_caps_is_subset_of_all known_caps
      ∷ retained_caps_smaller_than_full_set known_caps
      ∷ drop_succeeds_as_root known_caps granting fresh
      ∷ [])
    ≡ true
unfolding cap_eq cap_code contains_cap drop_capabilities drop_each call
capabilities_pass = refl
