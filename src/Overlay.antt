-- ===== src/Overlay.antt =====
-- src/overlay.rs: the layers of an image, mounted as one file system.
pub mod Layers
pub mod Mount
mod Tests
mod Unit
use boxed.Prelude.{
  ℕ, Bool, true, false, ◌&&◌, ◌||◌, List, [], ◌∷◌, ◌++◌, map, some, if◌then◌else◌, is_empty, ◌==◌,
  ltb,
}
use mathlib.Core.List.{reverse}
use boxed.Text.{Text, codes, join_path}
use boxed.Text.Decimal.{to_string}
use boxed.Text.Split.{join}
use boxed.Types.{DirEntry, entry, unreadable}
use boxed.Error.{os, context, Result, ok, err, bail, no_layers_found, failed_to_make_removable}
use boxed.Error.{◌>>=◌ as ◌>>>=◌}
use boxed.Kernel.{
  Io, call, lift, pure, ask, attempt, ◌>>=◌, ◌>>◌, read_dir, create_dir_all, mount, set_permissions,
  remove_dir_all,
}

-- The path of a directory of the image, and its file name.
pub record Layer : Type 0 where
  pub path : Text
  pub file_name : Text

-- The loop of `subdirectories`.
unfoldable pub directories : Text → List DirEntry → Result (List Layer)
directories path [] = ok []
directories path (unreadable e ∷ entries) = err (os e)
directories path (entry name is_dir ∷ entries) = directories path entries >>>= λ dirs.
    ok (if is_dir then record { path = join_path path name; file_name = name } ∷ dirs else dirs)

unfoldable pub subdirectories : Text → Io (List Layer)
subdirectories path = do
  entries ← call (read_dir path)
  dirs ← lift (directories path entries)
  if is_empty dirs then lift (bail (no_layers_found path)) else pure dirs

-- `a.cmp(b)` is not `Greater`.
unfoldable pub text_le : Text → Text → Bool
text_le [] t = true
text_le (a ∷ s) [] = false
text_le (a ∷ s) (b ∷ t) = ltb a b || (a == b && text_le s t)

-- `sort_by` on the file names, which keeps equal names in order.
unfoldable pub insert_layer : Layer → List Layer → List Layer
insert_layer x [] = x ∷ []
insert_layer x (y ∷ ys) =
    let rest = insert_layer x ys in if text_le x.file_name y.file_name then x ∷ y ∷ ys else y ∷ rest

unfoldable pub sort_layers : List Layer → List Layer
sort_layers [] = []
sort_layers (x ∷ xs) = insert_layer x (sort_layers xs)

unfoldable pub discover_lower_layers : Text → Io (List Layer)
discover_lower_layers image_dir = do
  layers ← subdirectories image_dir
  pure (reverse (sort_layers layers))

pub record OverlayPaths : Type 0 where
  pub upper : Text
  pub work : Text
  pub merged : Text

abbrev pub get_overlay_root : ℕ → Text → Text
get_overlay_root id temp_dir = join_path temp_dir (codes "boxed-overlay-" ++ to_string id)

unfoldable pub create_overlay_scratch : ℕ → Io OverlayPaths
create_overlay_scratch run_id = do
  root ← ask (λ m. get_overlay_root run_id m.temp_dir)
  let upper = join_path root (codes "upper")
  let work = join_path root (codes "work")
  let merged = join_path root (codes "merged")
  call (create_dir_all upper)
  call (create_dir_all work)
  call (create_dir_all merged)
  pure (record { upper = upper; work = work; merged = merged })

unfoldable pub lowerdir_string : List Layer → Text
lowerdir_string layers = join (codes ":") (map (λ (l : Layer). l.path) layers)

abbrev pub mount_data : List Layer → OverlayPaths → Text
mount_data layers paths =
    codes "lowerdir="
    ++ (lowerdir_string layers
        ++ (codes ",upperdir=" ++ (paths.upper ++ (codes ",workdir=" ++ paths.work))))

unfoldable pub mount_overlay : List Layer → OverlayPaths → Io (Unit {0})
mount_overlay layers paths = do
  call (
      mount (some (codes "overlay")) paths.merged (some (codes "overlay")) []
        (some (mount_data layers paths)))
  pure tt

unfoldable pub setup : Text → ℕ → Io Text
setup image run_id = do
  layers ← discover_lower_layers image
  overlay_paths ← create_overlay_scratch run_id
  mount_overlay layers overlay_paths
  pure overlay_paths.merged

-- `ErrorKind::NotFound` is ENOENT.
abbrev pub enoent : ℕ
enoent = 2

unfoldable pub removable : Text → Result (Unit {0}) → Result (Unit {0})
removable workdir (ok _) = ok tt
removable workdir (err (os e)) =
    if e == enoent then ok tt else err (context (failed_to_make_removable workdir) (os e))
removable workdir (err e) = err (context (failed_to_make_removable workdir) e)

unfoldable pub teardown : ℕ → Io (Unit {0})
teardown run_id = do
  path ← ask (λ m. get_overlay_root run_id m.temp_dir)
  let workdir = join_path (join_path path (codes "work")) (codes "work")
  changed ← attempt (call (set_permissions workdir 0o700))
  lift (removable workdir changed)
  call (remove_dir_all path)
  pure tt
