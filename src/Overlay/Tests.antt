-- ===== src/Overlay/Tests.antt =====
-- The theorems on src/overlay.rs at inputs.
use mathlib.Core.List.{Perm}
use boxed.Prelude.{◌≡◌, refl, ◌≢◌, All, true, false, List, [], ◌∷◌, ◌++◌, map, arith, if◌then◌else◌}
use boxed.Text.{Text, codes, join_path}
use boxed.Text.Split.{split}
use boxed.Text.Decimal.{to_string}
use boxed.Types.{DirEntry, entry}
use boxed.Error.{context, failed_to_make_removable, err, os, ok, bail, no_layers_found}
use boxed.Kernel.{
  to_result, set_permissions, remove_dir_all, Call, Reply, Machine, call, done, failed, read_dir,
}
use boxed.Kernel.Script.{after}
use boxed.Kernel.Heeds.{Answered}
use boxed.Kernel.Sample.{granting, fresh}
use boxed.Overlay.{
  Layer, directories, subdirectories, sort_layers, insert_layer, text_le, discover_lower_layers,
  lowerdir_string, create_overlay_scratch, mount_overlay, setup, teardown,
}
use boxed.Overlay.Layers.{layers_of, IsReadable, Descends, discover_lower_layers-Descends}
use boxed.Overlay.Mount.{
  split-lowerdir_string, setup-calls, overlay_calls, tolerated, errno, teardown_lem,
}

abbrev image : Text
image = codes "/img"

-- The image of discover_lower_layers_orders_topmost_layer_first, and a file.
abbrev entries : List DirEntry
entries =
    entry (codes "0") true
    ∷ entry (codes "2") true
    ∷ entry (codes "1") true
    ∷ entry (codes "f") false
    ∷ []

abbrev list_entries : (c : Call) → Reply c → Reply c
list_entries (read_dir p) r = entries
list_entries c r = r

abbrev listing : Machine
listing = record granting {
  answer = λ cs c. elim (granting.answer cs c) [
    | done r ↦ done (list_entries c r)
    | failed e ↦ failed e
  ];
}

abbrev missing : Machine
missing = record granting { answer = λ cs c. failed 2 }

abbrev layer : Text → Layer
layer name = record { path = join_path image name; file_name = name }

abbrev layers : List Layer
layers = layer (codes "2") ∷ layer (codes "1") ∷ layer (codes "0") ∷ []

-- discover_lower_layers_orders_topmost_layer_first, discover_lower_layers_ignores_non_directory_entries
topmost_first : (discover_lower_layers image listing fresh).0 ≡ ok layers
unfolding discover_lower_layers subdirectories call directories sort_layers insert_layer text_le
topmost_first = refl

-- discover_lower_layers_empty_dir_errors
empty_dir_errors : (discover_lower_layers image granting fresh).0 ≡ bail (no_layers_found image)
unfolding discover_lower_layers subdirectories call directories
empty_dir_errors = refl

-- discover_lower_layers_missing_dir_errors
missing_dir_errors : (discover_lower_layers image missing fresh).0 ≡ err (os 2)
unfolding discover_lower_layers subdirectories call
missing_dir_errors = refl

discover_lower_layers-Descends_example :
    All IsReadable entries × Perm layers (layers_of image entries) × (layers ≢ []) × Descends layers
discover_lower_layers-Descends_example =
    discover_lower_layers-Descends listing fresh image entries layers refl topmost_first

split-lowerdir_string_example :
    split b':' (lowerdir_string layers) ≡ map (λ (l : Layer). l.path) layers
split-lowerdir_string_example = split-lowerdir_string layers (λ h. cc) (ground arith)

set_up : (setup image 7 listing fresh).0 ≡ ok (codes "/tmp/boxed-overlay-7/merged")
unfolding setup discover_lower_layers subdirectories call directories create_overlay_scratch
    mount_overlay to_string
set_up = refl

setup-calls_example :
    (found : List Layer) × ((discover_lower_layers image listing fresh).0 ≡ ok found)
    × (codes "/tmp/boxed-overlay-7/merged" ≡ codes "/tmp/boxed-overlay-7/merged")
    × ((setup image 7 listing fresh).1.calls
        ≡ (discover_lower_layers image listing fresh).1.calls
          ++ overlay_calls (codes "/tmp/boxed-overlay-7") found)
    × Answered listing
        (discover_lower_layers image listing fresh).1.calls
        (overlay_calls (codes "/tmp/boxed-overlay-7") found)
unfolding to_string
setup-calls_example = setup-calls image 7 listing fresh (codes "/tmp/boxed-overlay-7/merged") set_up

teardown_lem_example :
    (let root = codes "/tmp/boxed-overlay-7" in
      let workdir = join_path (join_path root (codes "work")) (codes "work") in
      let changed = granting.answer [] (set_permissions workdir 0o700) in
      let w' = after fresh (set_permissions workdir 0o700) in
      teardown 7 granting fresh ≡ (
        if tolerated changed
        then (
          to_result (granting.answer w'.calls (remove_dir_all root)),
          after w' (remove_dir_all root),
        )
        else (err (context (failed_to_make_removable workdir) (os (errno changed))), w')))
unfolding to_string
teardown_lem_example = teardown_lem 7 granting fresh
