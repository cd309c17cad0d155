-- ===== src/Main/Checks.antt =====
-- What `main` of src/main.rs has checked when it starts a container.
use boxed.Prelude.{◌≡◌, ◌∙◌, ap, sym, ◌⊎◌, All, Option}
use boxed.Error.{Error, ok, ok_injective, err}
use boxed.Kernel.{Machine, World}
use boxed.Kernel.Ensures.{proceed-ok}
use boxed.Config.{create_config_dir}
use boxed.Cgroups.Config.{validate, validate_specs}
use boxed.Rootless.{RootlessConfig, new}
use boxed.Seccomp.Libc.{Libc}
use boxed.Seccomp.Profile.{SeccompProfile, ResolvedProfile}
use boxed.Seccomp.Load.{FromStr, load_profile}
use boxed.Namespace.Run.{RunOptions}
use boxed.Main.{Run, to_config, check_options}
use boxed.Main.Loads.{Parses, GivenBy, Resolves, validate_specs-Parses, load_profile-GivenBy}

module _ (l : Libc) (from_str : FromStr) where
  -- The options and the ids that a run is started with: every io.max specification parses, the
  -- profile is that of the file at the path, resolved, the ids were accepted, and all else is as
  -- given.
  abbrev pub Checked : Run → Machine → World → RunOptions → RootlessConfig → Type 0
  Checked args m w opts rootless =
      (p : Option SeccompProfile) × (profile : Option ResolvedProfile) × GivenBy from_str m
        (create_config_dir m w).1 args.seccomp_profile p
      × Resolves l p profile
      × All Parses args.limits.io_max
      × (opts ≡ record {
        command = args.command;
        rootfs = args.rootfs;
        image = args.image;
        hostname = args.hostname;
        limits = to_config args.limits;
        seccomp_profile = profile;
      })
      × (new args.rootless args.uid args.gid ≡ ok rootless)

  -- The first of the checks that fails, behind those that pass, and its error: the directory of the
  -- configuration, the profile, the specifications of io.max, or the ids.
  abbrev pub Rejected : Run → Machine → World → Error → Type 0
  Rejected args m w e =
      let dir = create_config_dir m w in
      let loaded = load_profile l from_str args.seccomp_profile m dir.1 in
      let valid = validate_specs args.limits.io_max m loaded.1 in
      (dir.0 ≡ err e)
      ⊎ ((dir.0 ≡ ok tt) × (loaded.0 ≡ err e))
      ⊎ ((dir.0 ≡ ok tt)
          × (profile : Option ResolvedProfile) × (loaded.0 ≡ ok profile)
          × (valid.0 ≡ err e))
      ⊎ ((dir.0 ≡ ok tt)
          × (profile : Option ResolvedProfile) × (loaded.0 ≡ ok profile)
          × (valid.0 ≡ ok tt)
          × (new args.rootless args.uid args.gid ≡ err e))

  pub check_options-Checked :
      (args : Run) (m : Machine) (w : World) (opts : RunOptions) (rootless : RootlessConfig)
      → (check_options l from_str args m w).0 ≡ ok (opts, rootless)
      → Checked args m w opts rootless
  unfolding check_options validate to_config
  check_options-Checked args m w opts rootless h =
      let w1 = (create_config_dir m w).1 in
      let (_, _, h1, e1) = proceed-ok (create_config_dir m w).0 _ m w1 h in
      let load = load_profile l from_str args.seccomp_profile in
      let (profile, loaded, h2, e2) = proceed-ok (load m w1).0 _ m (load m w1).1 h1 in
      let check = validate_specs args.limits.io_max in
      let w2 = (load m w1).1 in
      let (u, valid, h3, e3) = proceed-ok (check m w2).0 _ m (check m w2).1 h2 in
      let (ids, accepted, h4, e4) =
        proceed-ok (new args.rootless args.uid args.gid) _ m (check m w2).1 h3 in
      let (p, given, resolves) = load_profile-GivenBy l from_str m args.seccomp_profile w1 loaded in
      let (made, same, parses) = (validate_specs-Parses args.limits.io_max).ensured m w2 u valid in
      let same = ok_injective h4 in
      (
        p,
        profile,
        given,
        resolves,
        parses,
        ap (λ (x : RunOptions × RootlessConfig). x.0) (sym same),
        accepted ∙ ap ok (ap (λ (x : RunOptions × RootlessConfig). x.1) same),
      )
