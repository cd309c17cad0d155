-- ===== src/Namespace/Run/Scratch.antt =====
-- The scratch directory of src/overlay.rs in the child and in the parent of src/namespace.rs.
use mathlib.Core.Path.{subst}
use boxed.Prelude.{ℕ, ◌≡◌, sym, true, List, [], ◌∷◌, ◌++◌, append_assoc}
use boxed.Text.{Text, codes, join_path}
use boxed.Error.{ok}
use boxed.Kernel.{Call, Machine, World, create_dir_all, set_permissions, remove_dir_all}
use boxed.Overlay.{Layer, get_overlay_root, discover_lower_layers, lowerdir_string, teardown}
use boxed.Overlay.Mount.{setup-calls, tolerated, teardown_lem}
use boxed.Namespace.Run.{RunOptions, child_context, overlay_teardown}

teardown-calls :
    (run_id : ℕ) (m : Machine) (w : World)
    → let root = get_overlay_root run_id m.temp_dir in
      let workdir = join_path (join_path root (codes "work")) (codes "work") in
      tolerated (m.answer w.calls (set_permissions workdir 0o700)) ≡ true
      → (teardown run_id m w).1.calls
        ≡ w.calls ++ set_permissions workdir 0o700 ∷ remove_dir_all root ∷ []
teardown-calls run_id m w h = rw (teardown_lem, h) (append_assoc w.calls _ _)

-- The directories of an overlay are made in `root`, behind the calls `before`, then the overlay is
-- mounted on the last.
abbrev pub MadeIn : Text → List Call → Text → List Call → Type 0
MadeIn root before merged calls =
    (merged ≡ join_path root (codes "merged"))
    × (mounted : Call) × (calls
        ≡ before
          ++ create_dir_all (join_path root (codes "upper"))
            ∷ create_dir_all (join_path root (codes "work"))
            ∷ create_dir_all merged
            ∷ mounted
            ∷ [])

-- The child and the parent agree on the scratch directory, where they have the same temporary
-- directory: if the child of a run sets an overlay up, the directories that it makes are in `root`,
-- its root file system among them, and the parent's teardown removes `root`, unless the
-- directory of overlayfs is there and cannot be made readable.
pub overlay_teardown-setup :
    (opts : RunOptions) (image : Text) (m m' : Machine) (w v : World) (merged : Text)
    → m'.temp_dir ≡ m.temp_dir
    → (boxed.Overlay.setup image (child_context opts m.pid).run_id m' v).0 ≡ ok merged
    → let root = get_overlay_root m.pid m.temp_dir in
      let workdir = join_path (join_path root (codes "work")) (codes "work") in
      tolerated (m.answer w.calls (set_permissions workdir 0o700)) ≡ true
      → MadeIn root
          (discover_lower_layers image m' v).1.calls
          merged
          (boxed.Overlay.setup image (child_context opts m.pid).run_id m' v).1.calls
        × ((overlay_teardown true m w).1.calls
            ≡ w.calls ++ set_permissions workdir 0o700 ∷ remove_dir_all root ∷ [])
unfolding child_context overlay_teardown
overlay_teardown-setup opts image m m' w v merged same h gone =
    let (layers, found, at_root, calls, answered) = setup-calls image m.pid m' v merged h in
    let root = get_overlay_root m.pid m'.temp_dir in
    let before = (discover_lower_layers image m' v).1.calls in
    let made_calls : (mounted : Call) × ((boxed.Overlay.setup image m.pid m' v).1.calls
          ≡ before
            ++ create_dir_all (join_path root (codes "upper"))
              ∷ create_dir_all (join_path root (codes "work"))
              ∷ create_dir_all merged
              ∷ mounted
              ∷ []) =
      subst
        (λ t.
          (mounted : Call) × ((boxed.Overlay.setup image m.pid m' v).1.calls
            ≡ before
              ++ create_dir_all (join_path root (codes "upper"))
                ∷ create_dir_all (join_path root (codes "work"))
                ∷ create_dir_all t
                ∷ mounted
                ∷ []))
        (sym at_root) (_, calls) in
    (
      subst
          (λ t.
            MadeIn (get_overlay_root m.pid t) (discover_lower_layers image m' v).1.calls merged
              (boxed.Overlay.setup image m.pid m' v).1.calls)
          same (at_root, made_calls.0, made_calls.1),
      teardown-calls m.pid m w gone,
    )
