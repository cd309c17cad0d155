-- ===== src/Overlay/Unit.antt =====
-- The unit tests of src/overlay.rs, under their names, and a machine that keeps the directories and
-- files that were made.
use boxed.Prelude.{
  ◌≡◌, refl, Bool, true, false, not, ◌&&◌, ◌||◌, ◌==◌, List, [], ◌∷◌, ◌++◌, map, length, Option,
  none, some, if◌then◌else◌,
}
use boxed.Text.{Text, codes, text_eq, join_path}
use boxed.Text.Decimal.{to_string}
use boxed.Types.{DirEntry, entry}
use boxed.Error.{Result}
use boxed.Display.{Debug, message_text}
use boxed.Text.Contains.{starts_with, contains_text}
use boxed.Asserts.{unwrap, unwrap_err, is_err, says, list_eq, all_pass, quoting}
use boxed.Kernel.{
  Call, Reply, Outcome, Machine, World, Io, done, failed, call, pure, ask, attempt, ◌>>=◌, ◌>>◌,
  read_dir, create_dir_all, write_file, remove_dir_all,
}
use boxed.Kernel.Sample.{granting, fresh}
use boxed.Overlay.{
  Layer, directories, subdirectories, sort_layers, insert_layer, text_le, discover_lower_layers,
  get_overlay_root,
}

abbrev unique_temp_dir : Text → Io Text
unique_temp_dir name = do
  dir ← ask (λ m.
      join_path m.temp_dir
        (codes "boxed-overlay-test-" ++ (name ++ (codes "-" ++ to_string m.pid))))
  call (create_dir_all dir)
  pure dir

module _ (m : Machine) (w : World) where
  abbrev discover_lower_layers_orders_topmost_layer_first : Bool
  discover_lower_layers_orders_topmost_layer_first =
      let found : Io (List Layer) = (do
        image_dir ← unique_temp_dir (codes "order")
        call (create_dir_all (join_path image_dir (codes "00-base")))
        call (create_dir_all (join_path image_dir (codes "01-app")))
        layers ← discover_lower_layers image_dir
        attempt (call (remove_dir_all image_dir))
        pure layers) in
      unwrap (found m w).0 (λ layers.
        list_eq text_eq (map (λ (p : Layer). p.file_name) layers)
          (codes "01-app" ∷ codes "00-base" ∷ []))

  abbrev discover_lower_layers_single_layer : Bool
  discover_lower_layers_single_layer =
      let found : Io (List Layer) = (do
        image_dir ← unique_temp_dir (codes "single")
        call (create_dir_all (join_path image_dir (codes "00-base")))
        layers ← discover_lower_layers image_dir
        attempt (call (remove_dir_all image_dir))
        pure layers) in
      unwrap (found m w).0 (λ layers. length layers == 1)

  abbrev discover_lower_layers_empty_dir_errors : Debug → Bool
  discover_lower_layers_empty_dir_errors d =
      let found : Io (Result (List Layer)) = (do
        image_dir ← unique_temp_dir (codes "empty")
        result ← attempt (discover_lower_layers image_dir)
        attempt (call (remove_dir_all image_dir))
        pure result) in
      unwrap (found m w).0 (λ result. unwrap_err result (λ e. says d e (codes "no layers found")))

  abbrev discover_lower_layers_ignores_non_directory_entries : Bool
  discover_lower_layers_ignores_non_directory_entries =
      let found : Io (Result (List Layer)) = (do
        image_dir ← unique_temp_dir (codes "files-only")
        call (write_file (join_path image_dir (codes "not-a-layer.txt")) (codes "hello"))
        result ← attempt (discover_lower_layers image_dir)
        attempt (call (remove_dir_all image_dir))
        pure result) in
      unwrap (found m w).0 (λ result. is_err result)

  abbrev discover_lower_layers_missing_dir_errors : Bool
  discover_lower_layers_missing_dir_errors =
      let missing = join_path m.temp_dir (codes "boxed-overlay-test-missing-" ++ to_string m.pid) in
      is_err (discover_lower_layers missing m w).0

  abbrev get_overlay_root_is_deterministic_per_pid : Bool
  get_overlay_root_is_deterministic_per_pid =
      text_eq (get_overlay_root 4821 m.temp_dir) (get_overlay_root 4821 m.temp_dir)
      && not (text_eq (get_overlay_root 4821 m.temp_dir) (get_overlay_root 4822 m.temp_dir))

-- The directories and files that the calls made, and whether each is a directory.
abbrev made : List Call → List (Text × Bool)
made [] = []
made (create_dir_all p ∷ cs) = (p, true) ∷ made cs
made (write_file p content ∷ cs) = (p, false) ∷ made cs
made (c ∷ cs) = made cs

-- The rest of a path below a directory.
abbrev below : Text → Text → Option Text
below [] path = some path
below (c ∷ dir) [] = none
below (c ∷ dir) (b ∷ path) = let rest = below dir path in if c == b then rest else none

abbrev listed : Text → List (Text × Bool) → List DirEntry
listed dir [] = []
listed dir ((path, is_dir) ∷ paths) =
    let rest = listed dir paths in
    elim (below (join_path dir []) path) [ none ↦ rest | some name ↦ entry name is_dir ∷ rest ]

abbrev is_made : Text → List (Text × Bool) → Bool
is_made dir [] = false
is_made dir ((path, is_dir) ∷ paths) = (text_eq dir path && is_dir) || is_made dir paths

abbrev answer_listing : List Call → (c : Call) → Outcome (Reply c)
answer_listing cs (read_dir p) = if is_made p (made cs) then done (listed p (made cs)) else failed 2
answer_listing cs c = granting.answer cs c

abbrev keeping : Machine
keeping = record granting { answer = answer_listing }

overlay_pass :
    all_pass (
      discover_lower_layers_orders_topmost_layer_first keeping fresh
      ∷ discover_lower_layers_single_layer keeping fresh
      ∷ discover_lower_layers_empty_dir_errors keeping fresh quoting
      ∷ discover_lower_layers_ignores_non_directory_entries keeping fresh
      ∷ discover_lower_layers_missing_dir_errors keeping fresh
      ∷ get_overlay_root_is_deterministic_per_pid keeping fresh
      ∷ [])
    ≡ true
unfolding discover_lower_layers subdirectories call directories sort_layers insert_layer text_le
    text_eq to_string message_text contains_text starts_with
overlay_pass = refl
