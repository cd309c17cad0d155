-- ===== src/Cgroups/Controllers.antt =====
-- `read_controllers` and `validate_controllers` of src/cgroups.rs.
use boxed.Prelude.{
  ◌≡◌, refl, Bool, true, false, not, ◌&&◌, List, [], ◌∷◌, ◌++◌, map, if◌then◌else◌, arith, ◌∙◌,
  ◌||◌, is_empty, All, ap, sym,
}
use boxed.Text.{Text, codes, contains}
use boxed.Text.Split.{join}
use boxed.Text.Words.{is_whitespace, split_whitespace, IsWord, split_whitespace-join}
use boxed.Error.{
  Result, ok, err, bail, message, controller_not_available, failed_to_read_controllers,
}
use boxed.Kernel.{Io, call, pure, within, ◌>>=◌, read_to_string}
use boxed.Cgroups.Config.{CgroupConfig, RequiredController, required_controllers, push_if, is_some}

unfoldable pub read_controllers : Text → Io (List Text)
read_controllers path = do
  content ← within (failed_to_read_controllers path) (call (read_to_string path))
  pure (split_whitespace content)

-- The loop that looks for each controller, and the line that enables them.
unfoldable pub check_available :
    List RequiredController → List RequiredController → List Text → Result Text
check_available all [] available =
    ok (join (codes " ") (map (λ (c : RequiredController). codes "+" ++ c.name) all))
check_available all (c ∷ required) available =
    let rest = check_available all required available in
    if not (contains available c.name)
    then bail (controller_not_available c.flag c.name available)
    else rest

unfoldable pub validate_controllers : List RequiredController → List Text → Result Text
unfolding check_available
validate_controllers required available = check_available required required available

abbrev pub plus : RequiredController → Text
plus c = b'+' ∷ c.name

abbrev pub IsAvailable : List Text → RequiredController → Type 0
IsAvailable available c = contains available c.name ≡ true

-- The outcome of the check of `required`: all are available, or one is the first that is not.
abbrev pub Checked :
    List RequiredController → List RequiredController → List Text → Result Text → Type 0
Checked all required available (ok line) =
    All (IsAvailable available) required × (line ≡ join (codes " ") (map plus all))
Checked all required available (err e) =
    (before : List RequiredController) × (c : RequiredController) × (rest : List RequiredController)
    × (required ≡ before ++ c ∷ rest)
    × All (IsAvailable available) before
    × (contains available c.name ≡ false)
    × (e ≡ message (controller_not_available c.flag c.name available))

check_step :
    (all : List RequiredController) (c : RequiredController) (required : List RequiredController)
    (available : List Text) (r : Result Text) (found : Bool)
    → contains available c.name ≡ found
    → Checked all required available r
    → Checked all
        (c ∷ required)
        available
        (if not found then bail (controller_not_available c.flag c.name available) else r)
check_step all c required available r false e h = ([], c, required, refl, tt, e, refl)
check_step all c required available (ok line) true e (h, same) = ((e, h), same)
check_step all c required available (err x) true e (before, d, rest, split, h, missing, same) =
    (c ∷ before, d, rest, ap (λ l. c ∷ l) split, (e, h), missing, same)

check_available-Checked :
    (all required : List RequiredController) (available : List Text)
    → Checked all required available (check_available all required available)
unfolding check_available
check_available-Checked all [] available = (tt, refl)
check_available-Checked all (c ∷ required) available =
    check_step all c required available _ _ refl (check_available-Checked all required available)

-- The check passes exactly if every required controller is available, and then returns the line
-- that enables all of them; otherwise its error names the first that is not available, its flag,
-- and what is available.
pub validate_controllers-Checked :
    (required : List RequiredController) (available : List Text)
    → Checked required required available (validate_controllers required available)
unfolding validate_controllers
validate_controllers-Checked required available =
    check_available-Checked required required available

-- No text twice.
unfoldable pub distinct : List Text → Bool
distinct [] = true
distinct (t ∷ ts) = not (contains ts t) && distinct ts

letters : Text → Bool
letters [] = true
letters (c ∷ w) = not (is_whitespace c) && letters w

all_words : List Text → Bool
all_words [] = true
all_words (w ∷ ws) = not (is_empty w) && letters w && all_words ws

letters-All : (w : Text) → letters w ≡ true → All (λ c. is_whitespace c ≡ false) w
unfolding letters
letters-All [] h = tt
letters-All (c ∷ w) h = (ground arith, letters-All w (ground arith))

all_words-IsWord : (ws : List Text) → all_words ws ≡ true → All IsWord ws
unfolding all_words
all_words-IsWord [] h = tt
all_words-IsWord (w ∷ ws) h =
    ((ground arith, letters-All w (ground arith)), all_words-IsWord ws (ground arith))

-- A claim about every Boolean, checked.
for_all : (Bool → Bool) → Bool
for_all f = f true && f false

for_all_sound : (f : Bool → Bool) → for_all f ≡ true → (b : Bool) → f b ≡ true
unfolding for_all
for_all_sound f h true = ground arith
for_all_sound f h false = ground arith

-- The controllers of the flags are distinct, and with their pluses they are words.
lawful : Bool → Bool → Bool → Bool → Bool → Bool
lawful io cpuset pids memory cpu =
    let required = push_if io (codes "io") (codes "--io-max") (
      push_if cpuset (codes "cpuset") (codes "--cpuset-cpus/--cpuset-mems") (
        push_if pids (codes "pids") (codes "--pids-limit") (
          push_if memory (codes "memory") (codes "--memory")
            (push_if cpu (codes "cpu") (codes "--cpu") [])))) in
    distinct (map (λ (c : RequiredController). c.name) required) && all_words (map plus required)

lawful_table :
    for_all (λ io. for_all (λ cpuset.
      for_all (λ pids. for_all (λ memory. for_all (λ cpu. lawful io cpuset pids memory cpu)))))
    ≡ true
unfolding for_all lawful distinct all_words letters is_whitespace contains
lawful_table = refl

and-eq-true : (a b : Bool) → (a && b) ≡ true → (a ≡ true) × (b ≡ true)
and-eq-true a b h = ground arith

lawful_lem : (io cpuset pids memory cpu : Bool) → lawful io cpuset pids memory cpu ≡ true
lawful_lem io cpuset pids memory = for_all_sound _ (
    for_all_sound _
      (for_all_sound _ (for_all_sound _ (for_all_sound _ lawful_table io) cpuset) pids) memory)

pub required_controllers-distinct :
    (config : CgroupConfig)
    → distinct (map (λ (c : RequiredController). c.name) (required_controllers config)) ≡ true
unfolding required_controllers lawful
required_controllers-distinct config =
    (and-eq-true _ _ (
      lawful_lem (not (is_empty config.io_max))
        (is_some config.cpuset_cpus || is_some config.cpuset_mems) (is_some config.pids_limit)
        (is_some config.memory_max) (is_some config.cpu_quota))).0

required_controllers-IsWord :
    (config : CgroupConfig) → All IsWord (map plus (required_controllers config))
unfolding required_controllers lawful
required_controllers-IsWord config =
    all_words-IsWord _
      (and-eq-true _ _ (
        lawful_lem (not (is_empty config.io_max))
          (is_some config.cpuset_cpus || is_some config.cpuset_mems) (is_some config.pids_limit)
          (is_some config.memory_max) (is_some config.cpu_quota))).1

-- The controllers of cgroups v2 that a configuration is in need of, one for each kind of limit.
abbrev pub needed : CgroupConfig → List Text
needed config =
    (if is_some config.cpu_quota then codes "cpu" ∷ [] else [])
    ++ (if is_some config.memory_max then codes "memory" ∷ [] else [])
    ++ (if is_some config.pids_limit then codes "pids" ∷ [] else [])
    ++ (if is_some config.cpuset_cpus || is_some config.cpuset_mems
        then codes "cpuset" ∷ []
        else [])
    ++ (if is_empty config.io_max then [] else codes "io" ∷ [])

names_lem :
    (cpu memory pids cpuset no_io : Bool)
    → map
        (λ (c : RequiredController). c.name)
        (push_if (not no_io) (codes "io") (codes "--io-max") (
          push_if cpuset (codes "cpuset") (codes "--cpuset-cpus/--cpuset-mems") (
            push_if pids (codes "pids") (codes "--pids-limit") (
              push_if memory
                (codes "memory")
                (codes "--memory")
                (push_if cpu (codes "cpu") (codes "--cpu") [])))))
      ≡ (if cpu then codes "cpu" ∷ [] else [])
        ++ (if memory then codes "memory" ∷ [] else [])
        ++ (if pids then codes "pids" ∷ [] else [])
        ++ (if cpuset then codes "cpuset" ∷ [] else [])
        ++ (if no_io then [] else codes "io" ∷ [])
names_lem cpu memory pids cpuset no_io = ground arith

required_controllers-needed :
    (config : CgroupConfig)
    → map (λ (c : RequiredController). c.name) (required_controllers config) ≡ needed config
unfolding required_controllers
required_controllers-needed config =
    names_lem (is_some config.cpu_quota) (is_some config.memory_max) (is_some config.pids_limit)
      (is_some config.cpuset_cpus || is_some config.cpuset_mems) (is_empty config.io_max)

plus-names :
    (cs : List RequiredController)
    → map plus cs ≡ map (λ (n : Text). b'+' ∷ n) (map (λ (c : RequiredController). c.name) cs)
plus-names [] = refl
plus-names (c ∷ cs) = ap (λ l. plus c ∷ l) (plus-names cs)

names-All :
    (available : List Text) (cs : List RequiredController)
    → All (IsAvailable available) cs
    → All (λ n. contains available n ≡ true) (map (λ (c : RequiredController). c.name) cs)
names-All available [] h = tt
names-All available (c ∷ cs) (p, h) = (p, names-All available cs h)

-- The line that a configuration writes to cgroup.subtree_control enables cpu for a quota, memory
-- for a memory limit, pids for a limit of processes, cpuset for one or both kinds of cpuset, and io
-- for values of io.max, in this order and no other. No word is there twice, and each of these
-- controllers is in the list of those available.
pub validate_controllers-words :
    (config : CgroupConfig) (available : List Text) {line : Text}
    → validate_controllers (required_controllers config) available ≡ ok line
    → (split_whitespace line ≡ map (λ (n : Text). b'+' ∷ n) (needed config))
      × (distinct (needed config) ≡ true)
      × All (λ n. contains available n ≡ true) (needed config)
validate_controllers-words config available h =
    let required = required_controllers config in
    let names = required_controllers-needed config in
    let (present, same) = rw h at (validate_controllers-Checked required available) in
    (
      ap split_whitespace same
          ∙ split_whitespace-join _ (required_controllers-IsWord config)
          ∙ plus-names required
          ∙ ap (map (λ (n : Text). b'+' ∷ n)) names,
      ap distinct (sym names) ∙ required_controllers-distinct config,
      rw names at (names-All available required present),
    )
