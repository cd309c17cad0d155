-- ===== src/Rootless.antt =====
-- src/rootless.rs: the user namespace of a rootless container.
mod Tests
mod Unit
use boxed.Prelude.{
  Bool-cases, inl, inr, ℕ, ◌-◌, ◌^◌, ◌≡◌, refl, ◌≢◌, Bool, true, false, not, List, [], ◌∷◌, ◌++◌,
  Option, none, some, arith, ◌==◌, if◌then◌else◌,
}
use boxed.Text.{Text, codes}
use boxed.Text.Decimal.{to_string}
use boxed.Error.{
  Result, ok, bail, ◌>>=◌ as ◌>>>=◌, uid_is_sentinel, gid_is_sentinel, failed_to_open_setgroups,
  failed_to_disable_setgroups, failed_to_open_uid_map, failed_to_write_uid_mapping,
  failed_to_open_gid_map, failed_to_write_gid_mapping,
}
use boxed.Kernel.{Machine, World, Io, call, pure, ask, within, ◌>>=◌, ◌>>◌, open_write, write_all}
use boxed.Kernel.Script.{
  Step, Ran, Runs, Runs-append, Runs-nil, Runs-ask, Runs-within-call, script_rules,
}

pub record RootlessConfig : Type 0 where
  pub enabled : Bool
  pub uid : ℕ
  pub gid : ℕ

-- `u32::MAX`, which is `(uid_t)-1` and `(gid_t)-1`.
abbrev pub u32_max : ℕ
u32_max = 2 ^ 32 - 1

pub validate_uid : Option ℕ → Result ℕ
validate_uid none = ok 0
validate_uid (some want) = if not (want == u32_max) then ok want else bail (uid_is_sentinel want)

pub validate_gid : Option ℕ → Result ℕ
validate_gid none = ok 0
validate_gid (some want) = if not (want == u32_max) then ok want else bail (gid_is_sentinel want)

-- `RootlessConfig::new`
unfoldable pub new : Bool → Option ℕ → Option ℕ → Result RootlessConfig
unfolding validate_uid validate_gid
new enabled uid gid = validate_uid uid >>>= λ u.
    validate_gid gid >>>= λ g. ok (record { enabled = enabled; uid = u; gid = g })

abbrev pub is_sentinel : Option ℕ → Bool
is_sentinel none = false
is_sentinel (some want) = want == u32_max

-- An id that is not given is root's.
abbrev pub or_root : Option ℕ → ℕ
or_root none = 0
or_root (some want) = want

-- A configuration is refused exactly if an id is u32::MAX, the user id first; otherwise it holds
-- the given ids, and root's for an id that is not given. Both hold whether rootless is enabled or not.
new_lem :
    (enabled : Bool) (uid gid : Option ℕ)
    → new enabled uid gid ≡ (
        if is_sentinel uid
        then bail (uid_is_sentinel u32_max)
        else if is_sentinel gid
        then bail (gid_is_sentinel u32_max)
        else ok (record { enabled = enabled; uid = or_root uid; gid = or_root gid }))
unfolding new
new_lem enabled none none = refl
new_lem enabled none (some g) = ground arith
new_lem enabled (some u) none = ground arith
new_lem enabled (some u) (some g) = ground arith

abbrev proc_path : ℕ → Text → Text
proc_path pid file = codes "/proc/" ++ (to_string pid ++ (codes "/" ++ file))

-- `{inside} {host} 1\n`
abbrev pub mapping : ℕ → ℕ → Text
mapping inside host = to_string inside ++ (codes " " ++ (to_string host ++ codes " 1\n"))

write_setgroups : ℕ → Io (Unit {0})
write_setgroups pid = do
  let path = proc_path pid (codes "setgroups")
  within (failed_to_open_setgroups pid) (call (open_write path))
  within (failed_to_disable_setgroups pid) (call (write_all path (codes "deny")))
  pure tt

write_uid_map : ℕ → ℕ → Io (Unit {0})
write_uid_map pid uid = do
  let path = proc_path pid (codes "uid_map")
  within (failed_to_open_uid_map pid) (call (open_write path))
  host_uid ← ask (λ m. m.uid)
  let line = mapping uid host_uid
  within (failed_to_write_uid_mapping line pid) (call (write_all path line))
  pure tt

write_gid_map : ℕ → ℕ → Io (Unit {0})
write_gid_map pid gid = do
  let path = proc_path pid (codes "gid_map")
  within (failed_to_open_gid_map pid) (call (open_write path))
  host_gid ← ask (λ m. m.gid)
  let line = mapping gid host_gid
  within (failed_to_write_gid_mapping line pid) (call (write_all path line))
  pure tt

unfoldable pub setup_mappings : RootlessConfig → ℕ → Io (Unit {0})
unfolding write_setgroups write_uid_map write_gid_map
setup_mappings config pid =
    if not config.enabled
    then pure tt
    else do write_setgroups pid; write_uid_map pid config.uid; write_gid_map pid config.gid; pure tt

abbrev setgroups_steps : ℕ → List Step
setgroups_steps pid =
    record {
      action = open_write (proc_path pid (codes "setgroups"));
      contexts = failed_to_open_setgroups pid ∷ [];
    }
    ∷ record {
      action = write_all (proc_path pid (codes "setgroups")) (codes "deny");
      contexts = failed_to_disable_setgroups pid ∷ [];
    }
    ∷ []

abbrev uid_map_steps : ℕ → ℕ → ℕ → List Step
uid_map_steps host pid uid =
    record {
      action = open_write (proc_path pid (codes "uid_map"));
      contexts = failed_to_open_uid_map pid ∷ [];
    }
    ∷ record {
      action = write_all (proc_path pid (codes "uid_map")) (mapping uid host);
      contexts = failed_to_write_uid_mapping (mapping uid host) pid ∷ [];
    }
    ∷ []

abbrev gid_map_steps : ℕ → ℕ → ℕ → List Step
gid_map_steps host pid gid =
    record {
      action = open_write (proc_path pid (codes "gid_map"));
      contexts = failed_to_open_gid_map pid ∷ [];
    }
    ∷ record {
      action = write_all (proc_path pid (codes "gid_map")) (mapping gid host);
      contexts = failed_to_write_gid_mapping (mapping gid host) pid ∷ [];
    }
    ∷ []

abbrev pub setup_mappings_steps : ℕ → ℕ → ℕ → RootlessConfig → List Step
setup_mappings_steps uid gid pid config =
    setgroups_steps pid ++ (uid_map_steps uid pid config.uid ++ gid_map_steps gid pid config.gid)

module _ (m : Machine) (pid : ℕ) where
  write_setgroups-Runs : Runs m (write_setgroups pid) (setgroups_steps pid)
  unfolding write_setgroups
  write_setgroups-Runs = search script_rules

  write_uid_map-Runs : (uid : ℕ) → Runs m (write_uid_map pid uid) (uid_map_steps m.uid pid uid)
  unfolding write_uid_map
  write_uid_map-Runs uid =
      Runs-within-call _ _ _
        (λ _.
          Runs-ask (λ k. k.uid)
            (λ host.
              within (failed_to_write_uid_mapping (mapping uid host) pid)
                (call (write_all (proc_path pid (codes "uid_map")) (mapping uid host)))
              >> pure tt)
            _ (search script_rules))
        _

  write_gid_map-Runs : (gid : ℕ) → Runs m (write_gid_map pid gid) (gid_map_steps m.gid pid gid)
  unfolding write_gid_map
  write_gid_map-Runs gid =
      Runs-within-call _ _ _
        (λ _.
          Runs-ask (λ k. k.gid)
            (λ host.
              within (failed_to_write_gid_mapping (mapping gid host) pid)
                (call (write_all (proc_path pid (codes "gid_map")) (mapping gid host)))
              >> pure tt)
            _ (search script_rules))
        _

  -- With rootless enabled, the mappings of a process are set up by six calls in this order, up to
  -- the first that fails: setgroups is opened and denied, then the map of the user id and then
  -- that of the group id is opened and given one line, which maps the id inside to the caller's.
  -- Without rootless nothing is called.
  pub setup_mappings-Runs :
      (config : RootlessConfig)
      → Runs m
          (setup_mappings config pid)
          (if config.enabled then setup_mappings_steps m.uid m.gid pid config else [])
  unfolding setup_mappings
  setup_mappings-Runs config = elim (Bool-cases config.enabled) [
    | inl rootless ↦ rw rootless (
        Runs-append _ _ _ _ write_setgroups-Runs (
          Runs-append _ _ _ _ (write_uid_map-Runs config.uid)
            (Runs-append _ _ _ _ (write_gid_map-Runs config.gid) Runs-nil)))
    | inr rooted ↦ rw rooted Runs-nil
  ]
