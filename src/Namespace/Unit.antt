-- ===== src/Namespace/Unit.antt =====
-- The unit tests of src/namespace.rs, under their names.
use boxed.Prelude.{ℕ, ◌≡◌, refl, Bool, true, false, not, ◌&&◌, ◌==◌, List, [], ◌∷◌}
use boxed.Types.{CloneFlag, clone_newpid, clone_newuts, clone_newns, clone_newnet, clone_newuser}
use boxed.Asserts.{member, all_pass}
use boxed.Namespace.{build_clone_flags}

abbrev flag_code : CloneFlag → ℕ
flag_code clone_newpid = 0
flag_code clone_newuts = 1
flag_code clone_newns = 2
flag_code clone_newnet = 3
flag_code clone_newuser = 4

-- `flags.contains(flag)`
abbrev contains_flag : List CloneFlag → CloneFlag → Bool
contains_flag = member (λ a b. flag_code a == flag_code b)

abbrev clone_flags_baseline_always_present : Bool
clone_flags_baseline_always_present =
    let flags = build_clone_flags false in
    contains_flag flags clone_newpid
    && contains_flag flags clone_newuts
    && contains_flag flags clone_newns
    && contains_flag flags clone_newnet

abbrev clone_flags_excludes_newuser_when_not_rootless : Bool
clone_flags_excludes_newuser_when_not_rootless =
    let flags = build_clone_flags false in not (contains_flag flags clone_newuser)

abbrev clone_flags_includes_newuser_when_rootless : Bool
clone_flags_includes_newuser_when_rootless =
    let flags = build_clone_flags true in contains_flag flags clone_newuser

clone_flags_pass :
    all_pass (
      clone_flags_baseline_always_present ∷ clone_flags_excludes_newuser_when_not_rootless
      ∷ clone_flags_includes_newuser_when_rootless ∷ [])
    ≡ true
unfolding build_clone_flags
clone_flags_pass = refl
