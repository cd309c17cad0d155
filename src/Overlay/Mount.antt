-- ===== src/Overlay/Mount.antt =====
-- The mount of the overlay of src/overlay.rs, and its teardown.
use boxed.Prelude.{
  ℕ, ◌≡◌, refl, ◌≢◌, ◌∙◌, ap, sym, All, Bool, Bool-cases, inl, inr, true, List, [], ◌∷◌, ◌++◌,
  append_assoc, map, some, if◌then◌else◌, ◌==◌,
}
use boxed.Text.{Text, codes, join_path}
use boxed.Text.Split.{split, Lacks, split-join}
use boxed.Error.{os, context, ok, err, ok_injective, failed_to_make_removable}
use boxed.Kernel.{
  Call, Outcome, done, failed, to_result, Machine, World, call, pure, ask, ◌>>◌, proceed,
  create_dir_all, mount, set_permissions, remove_dir_all,
}
use boxed.Kernel.Script.{after}
use boxed.Kernel.Ensures.{
  Ensures, Ensures-call, Ensures-lift, Ensures-weaken, Ensures-bind, proceed-ok,
}
use boxed.Kernel.Heeds.{
  Answered, Answered-append, Heeds, Heeds-call, Heeds-lift, Heeds-ask, Heeds-bind, Heeds-Answered,
}
use boxed.Overlay.{
  Layer, OverlayPaths, get_overlay_root, discover_lower_layers, create_overlay_scratch,
  lowerdir_string, mount_data, mount_overlay, setup, enoent, removable, teardown,
}

map-ne-nil : (layers : List Layer) → layers ≢ [] → map (λ (l : Layer). l.path) layers ≢ []
map-ne-nil [] h e = h refl
map-ne-nil (l ∷ ls) h e = cc

All-of_map :
    (layers : List Layer)
    → All (λ l. Lacks b':' l.path) layers
    → All (Lacks b':') (map (λ (l : Layer). l.path) layers)
All-of_map [] h = tt
All-of_map (l ∷ ls) (p, h) = (p, All-of_map ls h)

-- The `lowerdir` option, split at its colons, is the list of the layers' paths, if no path holds a
-- colon and there is a layer.
pub split-lowerdir_string :
    (layers : List Layer)
    → layers ≢ []
    → All (λ l. Lacks b':' l.path) layers
    → split b':' (lowerdir_string layers) ≡ map (λ (l : Layer). l.path) layers
unfolding lowerdir_string
split-lowerdir_string layers h lacks =
    split-join b':' (map (λ (l : Layer). l.path) layers) (map-ne-nil layers h)
      (All-of_map layers lacks)

abbrev paths_of : Text → OverlayPaths
paths_of root = record {
  upper = join_path root (codes "upper");
  work = join_path root (codes "work");
  merged = join_path root (codes "merged");
}

abbrev scratch_calls : Text → List Call
scratch_calls root =
    create_dir_all (join_path root (codes "upper"))
    ∷ create_dir_all (join_path root (codes "work"))
    ∷ create_dir_all (join_path root (codes "merged"))
    ∷ []

scratch-Ensures :
    (root : Text)
    → Ensures
        (λ made paths. (made ≡ scratch_calls root) × (paths ≡ paths_of root))
        (call (create_dir_all (join_path root (codes "upper")))
          >> (call (create_dir_all (join_path root (codes "work")))
              >> (call (create_dir_all (join_path root (codes "merged"))) >> pure (paths_of root))))
scratch-Ensures root =
    Ensures-weaken _
      (λ made b (u0, c0, r0, e0, q0, (u1, c1, r1, e1, q1, (u2, c2, r2, e2, q2, (e3, q3)))).
        (rw (e0, q0, e1, q1, e2, q2, e3) refl, ok_injective (sym q3)))
      (Ensures-bind (call (create_dir_all (join_path root (codes "upper")))) _
        (Ensures-call (create_dir_all (join_path root (codes "upper"))))
        (λ _.
          Ensures-bind (call (create_dir_all (join_path root (codes "work")))) _
            (Ensures-call (create_dir_all (join_path root (codes "work"))))
            (λ _.
              Ensures-bind (call (create_dir_all (join_path root (codes "merged")))) _
                (Ensures-call (create_dir_all (join_path root (codes "merged"))))
                (λ _. Ensures-lift (ok (paths_of root))))))

abbrev mount_call : List Layer → OverlayPaths → Call
mount_call layers paths =
    mount (some (codes "overlay")) paths.merged (some (codes "overlay")) []
      (some (mount_data layers paths))

mount-Ensures :
    (layers : List Layer) (paths : OverlayPaths)
    → Ensures
        (λ made merged. (made ≡ mount_call layers paths ∷ []) × (merged ≡ paths.merged))
        (mount_overlay layers paths >> pure paths.merged)
unfolding mount_overlay
mount-Ensures layers paths =
    Ensures-weaken (mount_overlay layers paths >> pure paths.merged)
      (λ made b (u0, c0, r0, e0, (u1, c1, r1, e1, q1, (e2, q2)), (e3, q3)).
        (rw (e0, e1, q1, e2, e3) refl, ok_injective (sym q3)))
      (Ensures-bind (mount_overlay layers paths) _
        (Ensures-bind (call (mount_call layers paths)) _ (Ensures-call (mount_call layers paths))
          (λ _. Ensures-lift (ok tt)))
        (λ _. Ensures-lift (ok paths.merged)))

scratch-Heeds : (run_id : ℕ) → Heeds (create_overlay_scratch run_id)
unfolding create_overlay_scratch
scratch-Heeds run_id =
    Heeds-bind (ask (λ m. get_overlay_root run_id m.temp_dir)) _
      (Heeds-ask (λ m. get_overlay_root run_id m.temp_dir))
      (λ root.
        let upper = join_path root (codes "upper") in
        let work = join_path root (codes "work") in
        let merged = join_path root (codes "merged") in
        Heeds-bind (call (create_dir_all upper)) _ (Heeds-call (create_dir_all upper)) (λ _.
          Heeds-bind (call (create_dir_all work)) _ (Heeds-call (create_dir_all work)) (λ _.
            Heeds-bind (call (create_dir_all merged)) _ (Heeds-call (create_dir_all merged))
              (λ _. Heeds-lift (ok (record { upper = upper; work = work; merged = merged }))))))

mount-Heeds :
    (layers : List Layer) (paths : OverlayPaths)
    → Heeds (mount_overlay layers paths >> pure paths.merged)
unfolding mount_overlay
mount-Heeds layers paths =
    Heeds-bind (mount_overlay layers paths) _
      (Heeds-bind (call (mount_call layers paths)) _ (Heeds-call (mount_call layers paths))
        (λ _. Heeds-lift (ok tt)))
      (λ _. Heeds-lift (ok paths.merged))

-- The calls that mount the layers, with the scratch directories in `root`.
abbrev pub overlay_calls : Text → List Layer → List Call
overlay_calls root layers =
    create_dir_all (join_path root (codes "upper"))
    ∷ create_dir_all (join_path root (codes "work"))
    ∷ create_dir_all (join_path root (codes "merged"))
    ∷ mount (some (codes "overlay")) (join_path root (codes "merged")) (some (codes "overlay")) [] (
        some (
          codes "lowerdir="
          ++ (lowerdir_string layers
              ++ (codes ",upperdir="
                  ++ (join_path root (codes "upper")
                      ++ (codes ",workdir=" ++ join_path root (codes "work")))))))
    ∷ []

-- When an overlay is set up, its layers have been found, the three scratch directories of this run
-- are made, and the layers are mounted on the merged directory, which is returned. The machine
-- answered each of these four calls, the mount included, with success.
pub setup-calls :
    (image : Text) (run_id : ℕ) (m : Machine) (w : World) (merged : Text)
    → (setup image run_id m w).0 ≡ ok merged
    → let root = get_overlay_root run_id m.temp_dir in
      (layers : List Layer) × ((discover_lower_layers image m w).0 ≡ ok layers)
      × (merged ≡ join_path root (codes "merged"))
      × ((setup image run_id m w).1.calls
          ≡ (discover_lower_layers image m w).1.calls ++ overlay_calls root layers)
      × Answered m (discover_lower_layers image m w).1.calls (overlay_calls root layers)
unfolding setup create_overlay_scratch mount_overlay call
setup-calls image run_id m w merged h =
    let root = get_overlay_root run_id m.temp_dir in
    let (layers, found, h1, e1) =
      proceed-ok (discover_lower_layers image m w).0 _ m (discover_lower_layers image m w).1 h in
    let v = (discover_lower_layers image m w).1 in
    let (paths, made_paths, h2, e2) =
      proceed-ok (create_overlay_scratch run_id m v).0 _ m (create_overlay_scratch run_id m v).1
        h1 in
    let (first, calls1, (made1, same1)) = (scratch-Ensures root).ensured m v paths made_paths in
    let (last, calls2, (made2, same2)) =
      (mount-Ensures layers paths).ensured m (create_overlay_scratch run_id m v).1 merged h2 in
    let v1 = (create_overlay_scratch run_id m v).1 in
    let calls_eq : v1.calls ≡ v.calls ++ scratch_calls root =
      calls1 ∙ ap (λ cs. v.calls ++ cs) made1 in
    let last_eq : last ≡ mount_call layers (paths_of root) ∷ [] =
      made2 ∙ ap (λ p. mount_call layers p ∷ []) same1 in
    let answered : Answered m v1.calls last =
      Heeds-Answered m v1 merged last (mount-Heeds layers paths) h2 calls2 in
    let merged_eq = same2 ∙ ap (λ (p : OverlayPaths). p.merged) same1 in
    (
      layers,
      found,
      merged_eq,
      rw (e1, e2, calls2, calls1, made1, made2, same1)
          (append_assoc v.calls (scratch_calls root) (mount_call layers (paths_of root) ∷ [])),
      Answered-append m v.calls (scratch_calls root) (mount_call layers (paths_of root) ∷ [])
          (Heeds-Answered m v paths (scratch_calls root) (scratch-Heeds run_id) made_paths
            (rw made1 at calls1))
          (rw (calls_eq, last_eq) at answered),
    )

-- The answer of set_permissions does not stop the teardown.
abbrev pub tolerated : Outcome (Unit {0}) → Bool
tolerated (done _) = true
tolerated (failed e) = e == enoent

abbrev pub errno : Outcome (Unit {0}) → ℕ
errno (done _) = 0
errno (failed e) = e

-- A last call whose value is dropped.
last_call :
    (m : Machine) (w : World) (o : Outcome (Unit {0}))
    → proceed (to_result o) (λ _. pure tt) m w ≡ (to_result o, w)
last_call m w (done _) = refl
last_call m w (failed e) = refl

removal_lem :
    (root workdir : Text) (m : Machine) (w : World) (o : Outcome (Unit {0}))
    → proceed (removable workdir (to_result o)) (λ _. call (remove_dir_all root) >> pure tt) m w ≡ (
        if tolerated o
        then (to_result (m.answer w.calls (remove_dir_all root)), after w (remove_dir_all root))
        else (err (context (failed_to_make_removable workdir) (os (errno o))), w))
unfolding removable call
removal_lem root workdir m w (done _) =
    last_call m (after w (remove_dir_all root)) (m.answer w.calls (remove_dir_all root))
removal_lem root workdir m w (failed e) = elim (Bool-cases (e == enoent)) [
  | inl missing ↦
      rw missing
        (last_call m (after w (remove_dir_all root)) (m.answer w.calls (remove_dir_all root)))
  | inr other ↦ rw other refl
]

-- The teardown first makes the directory of overlayfs readable. If that succeeds, or the directory
-- is not there, it removes the whole tree and returns what that gives; on any other error it
-- returns the error under its message and removes nothing.
pub teardown_lem :
    (run_id : ℕ) (m : Machine) (w : World)
    → let root = get_overlay_root run_id m.temp_dir in
      let workdir = join_path (join_path root (codes "work")) (codes "work") in
      let changed = m.answer w.calls (set_permissions workdir 0o700) in
      let w' = after w (set_permissions workdir 0o700) in
      teardown run_id m w ≡ (
        if tolerated changed
        then (to_result (m.answer w'.calls (remove_dir_all root)), after w' (remove_dir_all root))
        else (err (context (failed_to_make_removable workdir) (os (errno changed))), w'))
unfolding teardown removable call
teardown_lem run_id m w =
    let root = get_overlay_root run_id m.temp_dir in
    let workdir = join_path (join_path root (codes "work")) (codes "work") in
    removal_lem root workdir m (after w (set_permissions workdir 0o700))
      (m.answer w.calls (set_permissions workdir 0o700))
