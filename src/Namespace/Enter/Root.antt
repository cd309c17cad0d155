-- ===== src/Namespace/Enter/Root.antt =====
-- The calls that give the container its root, by `config_fs` of src/namespace.rs.
use boxed.Prelude.{
  ℕ, ◌≡◌, refl, sym, List, [], ◌∷◌, ◌++◌, append_assoc, append-nil, Option, none, some, is_empty,
}
use mathlib.Core.List.{reverse}
use boxed.Text.{Text, codes, join_path}
use boxed.Error.{
  ok, bail, no_layers_found, failed_to_setup_overlay, failed_to_setup_rootfs_on_overlay,
  failed_to_setup_rootfs,
}
use boxed.Kernel.{Call, Machine, World, call, lift, pure, within, read_dir}
use boxed.Kernel.Script.{actions}
use boxed.Kernel.Ensures.{
  Exactly, Ensures-call, Ensures-within, Ensures-weaken, Ensures-bind, Ensures-if, Exactly-lift,
  Exactly-pure, Runs-Exactly, proceed-ok, ok-with_context,
}
use boxed.Overlay.{
  Layer, directories, subdirectories, sort_layers, discover_lower_layers, get_overlay_root,
}
use boxed.Overlay.Mount.{overlay_calls, setup-calls}
use boxed.Rootfs.{setup_steps, setup-Runs}
use boxed.Namespace.{mount_root}

-- The calls that give the container its root from the world `w`: those of the pivot into the
-- directory given; those of the overlay of the image, which list its layers and mount them in the
-- scratch directory of the run, and of the pivot into the merged directory; or none.
abbrev pub RootCalls : ℕ → Option Text → Option Text → Machine → World → List Call → Type 0
RootCalls run_id none none m w made = made ≡ []
RootCalls run_id none (some rootfs) m w made = made ≡ actions (setup_steps rootfs)
RootCalls run_id (some image) none m w made =
    let root = get_overlay_root run_id m.temp_dir in
    (layers : List Layer) × ((discover_lower_layers image m w).0 ≡ ok layers)
    × (made
        ≡ read_dir image
          ∷ (overlay_calls root layers ++ actions (setup_steps (join_path root (codes "merged")))))
RootCalls run_id (some image) (some rootfs) m w made = ⊥

rootfs-Exactly : (root : Text) → Exactly (actions (setup_steps root)) (boxed.Rootfs.setup root)
rootfs-Exactly root =
    Runs-Exactly (boxed.Rootfs.setup root) (setup_steps root) (λ m. setup-Runs m root)

subdirectories-Exactly : (path : Text) → Exactly (read_dir path ∷ []) (subdirectories path)
unfolding subdirectories
subdirectories-Exactly path =
    Ensures-weaken (subdirectories path)
      (λ made b (a, c, r, e, e', (dirs, c1, r1, e1, e2, e3)). rw (e, e', e1, e2, e3) refl)
      (Ensures-bind (call (read_dir path)) _ (Ensures-call (read_dir path)) (λ entries.
        Ensures-bind (lift (directories path entries)) _ (Exactly-lift (directories path entries))
          (λ dirs.
            Ensures-if (is_empty dirs) (lift (bail (no_layers_found path))) (pure dirs)
              (Exactly-lift (bail (no_layers_found path))) (Exactly-pure dirs))))

discover_lower_layers-Exactly :
    (image : Text) → Exactly (read_dir image ∷ []) (discover_lower_layers image)
unfolding discover_lower_layers
discover_lower_layers-Exactly image =
    Ensures-weaken (discover_lower_layers image)
      (λ made b (a, c, r, e, e', e''). rw (e, e', e'') refl)
      (Ensures-bind (subdirectories image) _ (subdirectories-Exactly image)
        (λ layers. Exactly-pure (reverse (sort_layers layers))))

-- What has been done when the root is in place.
pub mount_root-calls :
    (image rootfs : Option Text) (run_id : ℕ) (m : Machine) (w : World)
    → (mount_root image rootfs run_id m w).0 ≡ ok tt
    → (made : List Call) × ((mount_root image rootfs run_id m w).1.calls ≡ w.calls ++ made)
      × RootCalls run_id image rootfs m w made
unfolding mount_root
mount_root-calls none none run_id m w h = ([], sym (append-nil w.calls), refl)
mount_root-calls none (some rootfs) run_id m w h =
    (Ensures-within (failed_to_setup_rootfs rootfs) (boxed.Rootfs.setup rootfs)
        (rootfs-Exactly rootfs)).ensured
      m w tt h
mount_root-calls (some image) none run_id m w h =
    let overlay = boxed.Overlay.setup image run_id in
    let made_overlay = within (failed_to_setup_overlay image) overlay in
    let (merged, p, h1, e1) =
      proceed-ok (made_overlay m w).0
        (λ path. within (failed_to_setup_rootfs_on_overlay path) (boxed.Rootfs.setup path)) m
        (overlay m w).1 h in
    let (layers, found, at_root, calls, answered) =
      setup-calls image run_id m w merged
        (ok-with_context (failed_to_setup_overlay image) (overlay m w).0 p) in
    let (listed, list_calls, same) =
      (discover_lower_layers-Exactly image).ensured m w layers found in
    let (last, last_calls, last_same) =
      (Ensures-within (failed_to_setup_rootfs_on_overlay merged) (boxed.Rootfs.setup merged)
          (rootfs-Exactly merged)).ensured
        m (overlay m w).1 tt h1 in
    (
      _,
      rw (e1, last_calls, last_same, calls, list_calls, same, at_root) (simp append_assoc),
      (layers, found, refl),
    )
mount_root-calls (some image) (some rootfs) run_id m w h = cc
