-- ===== src/Cgroups/Create/Calls.antt =====
-- The calls of `Cgroup::create` of src/cgroups.rs.
use mathlib.Core.Path.{subst}
use boxed.Prelude.{ℕ, ◌≡◌, refl, ◌∙◌, ap, sym, List, [], ◌∷◌, ◌++◌, append_assoc}
use boxed.Kernel.Script.{after}
use boxed.Text.{Text}
use boxed.Text.Words.{split_whitespace}
use boxed.Error.{
  failed_to_read_controllers, failed_to_create_cgroup_root, failed_to_enable_controllers,
  failed_to_create_cgroup, Result, ok, ok_injective, with_context,
}
use boxed.Kernel.{
  Call, Outcome, done, failed, to_result, Machine, World, Io, call, proceed, pure, within,
  read_to_string, write_file, create_dir_all,
}
use boxed.Kernel.Ensures.{proceed-ok}
use boxed.Cgroups.Config.{CgroupConfig, required_controllers}
use boxed.Cgroups.Controllers.{read_controllers, validate_controllers}
use boxed.Cgroups.Create.{
  Cgroup, cgroup_root, cgroup_path, controllers_path, subtree_control_path, write_limits, create,
}
use boxed.Cgroups.Create.Devices.{DeviceCalls}
use boxed.Cgroups.Create.Limits.{limit_calls, write_limits-calls}

-- The list of the controllers is that of the file.
read_controllers-lem :
    (path : Text) (m : Machine) (w : World) (available : List Text)
    → (read_controllers path m w).0 ≡ ok available
    → (content : Text) × (m.answer w.calls (read_to_string path) ≡ done content)
      × (split_whitespace content ≡ available)
      × ((read_controllers path m w).1 ≡ after w (read_to_string path))
unfolding read_controllers call
read_controllers-lem path m w available h = go (m.answer w.calls (read_to_string path)) refl h
  where
    go :
        (o : Outcome Text)
        → m.answer w.calls (read_to_string path) ≡ o
        → (let next : Text → Io (List Text) = λ content. pure (split_whitespace content) in
            let ended =
              proceed
                (with_context (failed_to_read_controllers path) (to_result o))
                next
                m
                (after w (read_to_string path)) in
            ended.0 ≡ ok available
            → (content : Text) × (m.answer w.calls (read_to_string path) ≡ done content)
              × (split_whitespace content ≡ available)
              × (ended.1 ≡ after w (read_to_string path)))
    go (failed e) same h = cc
    go (done content) same h = (content, same, ok_injective h, refl)

-- The calls of `create` up to the limits.
abbrev pub head_calls : ℕ → Text → List Call
head_calls pid line =
    create_dir_all cgroup_root
    ∷ read_to_string controllers_path
    ∷ write_file subtree_control_path line
    ∷ create_dir_all (cgroup_path pid)
    ∷ []

head_lem :
    (l v : List Call) (a b c d : Call)
    → v ≡ (l ++ a ∷ []) ++ b ∷ []
    → (v ++ c ∷ []) ++ d ∷ [] ≡ l ++ a ∷ b ∷ c ∷ d ∷ []
head_lem l v a b c d e = rw e (simp append_assoc)

-- When a cgroup has been created, these calls have been made, in this order: the root directory,
-- the list of the available controllers, the line that enables those that the configuration needs,
-- all of them in the list that was read, the directory of the cgroup, one write for each limit
-- given, and for each specification of io.max, which parses, the lookup of its device, which is a
-- block device, and the write of its limits under the device's number.
pub create-calls :
    (m : Machine) (w : World) (pid : ℕ) (config : CgroupConfig) {cg : Cgroup}
    → (create pid config m w).0 ≡ ok cg
    → (content : Text) × (line : Text) × (last : List Call) × (m.answer
          (w.calls ++ create_dir_all cgroup_root ∷ [])
          (read_to_string controllers_path)
        ≡ done content)
      × (validate_controllers (required_controllers config) (split_whitespace content) ≡ ok line)
      × ((create pid config m w).1.calls
          ≡ w.calls ++ (head_calls pid line ++ (limit_calls (cgroup_path pid) config ++ last)))
      × DeviceCalls m
          (cgroup_path pid)
          config.io_max
          ((w.calls ++ head_calls pid line) ++ limit_calls (cgroup_path pid) config)
          last
      × (cg ≡ record { path = cgroup_path pid })
unfolding create call
create-calls m w pid config {cg} h =
    let v1 = after w (create_dir_all cgroup_root) in
    let (u1, p1, h1, e1) =
      proceed-ok (within failed_to_create_cgroup_root (call (create_dir_all cgroup_root)) m w).0 _ m
        v1 h in
    let read = read_controllers controllers_path m v1 in
    let (available, p2, h2, e2) = proceed-ok read.0 _ m read.1 h1 in
    let (content, answer, words, world) = read_controllers-lem controllers_path m v1 available p2 in
    let (line, p3, h3, e3) =
      proceed-ok (validate_controllers (required_controllers config) available) _ m read.1 h2 in
    let enable = write_file subtree_control_path line in
    let v3 = after (read.1) enable in
    let (u4, p4, h4, e4) =
      proceed-ok
        (within (failed_to_enable_controllers line subtree_control_path) (call enable) m read.1).0 _
        m v3 h3 in
    let path = cgroup_path pid in
    let v4 = after v3 (create_dir_all path) in
    let (u5, p5, h5, e5) =
      proceed-ok (within (failed_to_create_cgroup path) (call (create_dir_all path)) m v3).0 _ m v4
        h4 in
    let limits = write_limits path config m v4 in
    let (u6, p6, h6, e6) = proceed-ok limits.0 _ m limits.1 h5 in
    let (last, calls, devices) = write_limits-calls path config m v4 p6 in
    let head =
      head_lem w.calls read.1.calls (create_dir_all cgroup_root) (read_to_string controllers_path)
        enable (create_dir_all path) (ap (λ (v : World). v.calls) world) in
    (
      content,
      line,
      last,
      answer,
      ap (validate_controllers (required_controllers config)) words ∙ p3,
      ap (λ (x : Result Cgroup × World). x.1.calls) (e1 ∙ e2 ∙ e3 ∙ e4 ∙ e5 ∙ e6)
          ∙ calls
          ∙ ap (λ cs. cs ++ (limit_calls path config ++ last)) head
          ∙ append_assoc w.calls (head_calls pid line) _,
      subst (λ cs. DeviceCalls m path config.io_max (cs ++ limit_calls path config) last) head
          devices,
      ok_injective (sym h6),
    )
