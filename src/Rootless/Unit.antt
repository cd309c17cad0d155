-- ===== src/Rootless/Unit.antt =====
-- The unit tests of src/rootless.rs, under their names.
use boxed.Prelude.{◌≡◌, refl, Bool, true, false, not, ◌&&◌, ◌==◌, [], ◌∷◌, none, some}
use boxed.Error.{is_ok}
use boxed.Asserts.{unwrap, is_err, all_pass}
use boxed.Kernel.{Machine, World}
use boxed.Kernel.Sample.{granting, fresh}
use boxed.Rootless.{RootlessConfig, u32_max, validate_uid, validate_gid, new, setup_mappings}

abbrev validate_uid_none_defaults_to_root : Bool
validate_uid_none_defaults_to_root = unwrap (validate_uid none) (λ uid. uid == 0)

abbrev validate_uid_explicit_zero_is_allowed : Bool
validate_uid_explicit_zero_is_allowed = unwrap (validate_uid (some 0)) (λ uid. uid == 0)

abbrev validate_uid_arbitrary_value_is_allowed : Bool
validate_uid_arbitrary_value_is_allowed = unwrap (validate_uid (some 1000)) (λ uid. uid == 1000)

abbrev validate_uid_rejects_sentinel_max : Bool
validate_uid_rejects_sentinel_max = is_err (validate_uid (some u32_max))

abbrev validate_gid_none_defaults_to_root : Bool
validate_gid_none_defaults_to_root = unwrap (validate_gid none) (λ gid. gid == 0)

abbrev validate_gid_explicit_zero_is_allowed : Bool
validate_gid_explicit_zero_is_allowed = unwrap (validate_gid (some 0)) (λ gid. gid == 0)

abbrev validate_gid_arbitrary_value_is_allowed : Bool
validate_gid_arbitrary_value_is_allowed = unwrap (validate_gid (some 1000)) (λ gid. gid == 1000)

abbrev validate_gid_rejects_sentinel_max : Bool
validate_gid_rejects_sentinel_max = is_err (validate_gid (some u32_max))

abbrev new_disabled_defaults_uid_gid_to_root : Bool
new_disabled_defaults_uid_gid_to_root =
    unwrap (new false none none)
      (λ (config : RootlessConfig). not config.enabled && config.uid == 0 && config.gid == 0)

abbrev new_enabled_with_custom_ids : Bool
new_enabled_with_custom_ids =
    unwrap (new true (some 1000) (some 2000))
      (λ (config : RootlessConfig). config.enabled && config.uid == 1000 && config.gid == 2000)

abbrev new_rejects_sentinel_uid_even_when_disabled : Bool
new_rejects_sentinel_uid_even_when_disabled = is_err (new false (some u32_max) none)

abbrev setup_mappings_disabled_is_noop : Machine → World → Bool
setup_mappings_disabled_is_noop m w =
    unwrap (new false none none) (λ config. is_ok (setup_mappings config 1 m w).0)

rootless_pass :
    all_pass (
      validate_uid_none_defaults_to_root
      ∷ validate_uid_explicit_zero_is_allowed
      ∷ validate_uid_arbitrary_value_is_allowed
      ∷ validate_uid_rejects_sentinel_max
      ∷ validate_gid_none_defaults_to_root
      ∷ validate_gid_explicit_zero_is_allowed
      ∷ validate_gid_arbitrary_value_is_allowed
      ∷ validate_gid_rejects_sentinel_max
      ∷ new_disabled_defaults_uid_gid_to_root
      ∷ new_enabled_with_custom_ids
      ∷ new_rejects_sentinel_uid_even_when_disabled
      ∷ setup_mappings_disabled_is_noop granting fresh
      ∷ [])
    ≡ true
unfolding validate_uid validate_gid new setup_mappings
rootless_pass = refl
