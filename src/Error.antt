-- ===== src/Error.antt =====
-- `anyhow::Error`: a message or an error of the operating system, under the contexts that the
-- callers added. A message is a constructor for each text that the program builds, with the values
-- that it interpolates.
use mathlib.Core.Path.{subst}
use boxed.Prelude.{
  ℕ, ◌≡◌, refl, ap, ◌++◌, Bool, true, false, List, [], ◌∷◌, Option, none, some, All, All-middle,
}
use boxed.Text.{Text}
use boxed.Types.{Capability, CapSet, Signal}

pub data Message : Type 0 where
  -- src/seccomp.rs
  failed_to_read_profile : Text → Message
  failed_to_parse_profile : Text → Message
  profile_validation_failed : Message
  profile_not_x86_64 : Message
  unknown_default_action : Text → Message
  rule_without_names : Message
  rule_with_args : List Text → Message
  unknown_action : Text → Message
  unknown_syscall : Text → Message
  failed_to_install_filter : Message
  -- src/rootfs.rs
  failed_to_make_root_private : Message
  failed_to_mount_onto_itself : Text → Message
  failed_to_mount_proc : Text → Message
  failed_to_change_directory : Text → Message
  failed_to_pivot_root : Text → Message
  failed_to_detach_old_root : Message
  failed_to_change_to_new_root : Message
  -- src/rootless.rs
  uid_is_sentinel : ℕ → Message
  gid_is_sentinel : ℕ → Message
  failed_to_open_setgroups : ℕ → Message
  failed_to_disable_setgroups : ℕ → Message
  failed_to_open_uid_map : ℕ → Message
  failed_to_write_uid_mapping : Text → ℕ → Message
  failed_to_open_gid_map : ℕ → Message
  failed_to_write_gid_mapping : Text → ℕ → Message
  -- src/cgroups.rs
  io_max_without_colon : Text → Message
  io_max_empty_device : Text → Message
  io_max_without_limits : Text → Message
  io_max_without_equals : Text → Message
  io_max_unknown_key : Text → Message
  io_max_bad_value : Text → Text → Message
  failed_to_stat : Text → Message
  not_a_block_device : Text → Message
  controller_not_available : Text → Text → List Text → Message
  failed_to_write_controller : Text → Message
  failed_to_read_controllers : Text → Message
  cpuset_rejected : Text → Text → Text → Text → Message
  cpuset_rejected_unreadable : Text → Text → Text → Message
  failed_to_create_cgroup_root : Message
  failed_to_enable_controllers : Text → Text → Message
  failed_to_create_cgroup : Text → Message
  failed_to_add_process : Message
  failed_to_remove_cgroup : Text → Message
  -- src/capabilities.rs
  failed_to_drop : Capability → CapSet → Message
  -- src/process.rs
  failed_to_install_handler : Signal → Message
  failed_to_block_signals : Message
  failed_to_unblock_signals : Message
  waitpid_failed : Message
  no_children_left : ℕ → Message
  -- src/namespace.rs
  failed_to_setup_overlay : Text → Message
  failed_to_setup_rootfs_on_overlay : Text → Message
  failed_to_setup_rootfs : Text → Message
  received_closed_pipe : Message
  failed_to_read_sync_signal : Message
  failed_to_set_hostname : Message
  failed_to_drop_capabilities : Message
  failed_to_set_no_new_privs : Message
  failed_to_apply_filter : Message
  command_has_null_byte : Message
  failed_to_fork : Message
  clone_failed : Message
  failed_to_setup_forwarding : Message
  failed_to_signal_child : Message
  failed_to_create_pipe : Message
  -- A panic, which the model takes for an error.
  unreachable_image_and_rootfs : Message
  -- src/config.rs
  home_is_not_set : Message
  -- src/overlay.rs
  no_layers_found : Text → Message
  failed_to_make_removable : Text → Message

pub data Error : Type 0 where
  os : ℕ → Error
  -- `std::num::ParseIntError` and `std::ffi::NulError`
  parse_int : Error
  nul_byte : Error
  -- `std::env::VarError` and `serde_json::Error`
  no_variable : Error
  json : Text → Error
  message : Message → Error
  context : Message → Error → Error

-- `anyhow::Result`
pub data Result {ℓ} (T : Type ℓ) : Type ℓ where
  ok : T → Result T
  err : Error → Result T

abbrev pub is_ok {ℓ} : {T : Type ℓ} → Result T → Bool
is_ok (ok a) = true
is_ok (err e) = false

-- `.context(m)`
abbrev pub with_context {ℓ} : {T : Type ℓ} → Message → Result T → Result T
with_context m (ok t) = ok t
with_context m (err e) = err (context m e)

-- `bail!`
abbrev pub bail {ℓ} : {T : Type ℓ} → Message → Result T
bail m = err (message m)

-- `.ok_or_else(|| anyhow!(m))`, and `.with_context(m)` of an option.
abbrev pub ok_or_else {ℓ} : {T : Type ℓ} → Message → Option T → Result T
ok_or_else m none = bail m
ok_or_else m (some t) = ok t

module _ {ℓ κ} {T : Type ℓ} {U : Type κ} where
  -- The operator `?` of a function that returns a `Result`.
  infixl 10 ◌>>=◌
  abbrev pub ◌>>=◌ : Result T → (T → Result U) → Result U
  ◌>>=◌ (err e) next = err e
  ◌>>=◌ (ok t) next = next t

-- `.iter().map(f).collect::<Result<Vec<_>>>()`: stops at the first error.
module _ {ℓ κ} {A : Type ℓ} {B : Type κ} where
  unfoldable pub collect_map : (A → Result B) → List A → Result (List B)
  collect_map f [] = ok []
  collect_map f (x ∷ xs) = do y ← f x; ys ← collect_map f xs; ok (y ∷ ys)

  -- `ys` holds the results of `f` on `xs`.
  abbrev pub Collected : (A → Result B) → List A → List B → Type κ
  Collected f [] ys = ys ≡ []
  Collected f (x ∷ xs) ys =
      (y : B) × (rest : List B) × (f x ≡ ok y) × (ys ≡ y ∷ rest) × Collected f xs rest

  pub collect_map-eq-ok :
      (f : A → Result B) (xs : List A) {ys : List B} → collect_map f xs ≡ ok ys → Collected f xs ys
  unfolding collect_map
  collect_map-eq-ok f [] h = cc
  collect_map-eq-ok f (x ∷ xs) {ys} h =
      go (λ zs q. collect_map-eq-ok f xs {ys = zs} q) (f x) (collect_map f xs) refl refl h
    where
      go :
          ((zs : List B) → collect_map f xs ≡ ok zs → Collected f xs zs)
          → (r : Result B) (rs : Result (List B)) → f x ≡ r
          → collect_map f xs ≡ rs
          → (r >>= λ y. rs >>= λ zs. ok (y ∷ zs)) ≡ ok ys
          → Collected f (x ∷ xs) ys
      go ih (ok y) (ok zs) p q e = (y, zs, p, cc, ih zs q)
      go ih (ok y) (err z) p q e = cc
      go ih (err z) rs p q e = cc

module _ {ℓ κ} {A : Type ℓ} {B : Type κ} (f : A → Result B) (e : Error) where
  -- The error is that of the first item that fails.
  abbrev pub FirstFails : List A → Type (ℓ ⊔ κ)
  FirstFails xs =
      (before : List A) × (x : A) × (behind : List A) × (xs ≡ before ++ x ∷ behind)
      × All (λ y. is_ok (f y) ≡ true) before
      × (f x ≡ err e)

  first_fails :
      (x : A) (xs : List A) (a : Result B) (rest : Result (List B))
      → (rest ≡ err e → FirstFails xs)
      → f x ≡ a
      → (a >>= λ y. rest >>= λ ys. ok (y ∷ ys)) ≡ err e
      → FirstFails (x ∷ xs)
  first_fails x xs (err z) rest later same h = ([], x, xs, refl, tt, cc)
  first_fails x xs (ok y) (err z) later same h =
      let (before, z', behind, parts, fine, wrong) = later (cc) in
      (x ∷ before, z', behind, ap (λ l. x ∷ l) parts, (rw same refl, fine), wrong)
  first_fails x xs (ok y) (ok ys) later same h = cc

  pub collect_map-FirstFails : (xs : List A) → collect_map f xs ≡ err e → FirstFails xs
  unfolding collect_map
  collect_map-FirstFails [] h = cc
  collect_map-FirstFails (x ∷ xs) h =
      first_fails x xs (f x) (collect_map f xs) (collect_map-FirstFails xs) refl h

-- What holds of all items holds of the one that fails.
pub collect_map-eq-err {ℓ κ ι} :
    {A : Type ℓ} {B : Type κ} (P : A → Type ι) (f : A → Result B) (xs : List A) {e : Error}
    → All P xs
    → collect_map f xs ≡ err e
    → (x : A) × P x × (f x ≡ err e)
collect_map-eq-err P f xs {e} h r =
    let (before, x, behind, parts, fine, wrong) = collect_map-FirstFails f e xs r in
    (x, All-middle P before x behind (subst (All P) parts h), wrong)

pub ok_injective {ℓ} : {A : Type ℓ} {a b : A} → ok a ≡ ok b → a ≡ b
ok_injective h = cc

pub err_injective {ℓ} : {A : Type ℓ} {a b : Error} → ◌≡◌ {A = Result A} (err a) (err b) → a ≡ b
err_injective h = cc
