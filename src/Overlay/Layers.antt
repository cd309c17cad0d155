-- ===== src/Overlay/Layers.antt =====
-- The order of the layers that src/overlay.rs finds.
use mathlib.Core.List.{Perm, reverse, reverse-cons, reverse_perm}
use mathlib.Core.List.Perm
use mathlib.Core.Path.{subst}
use boxed.Prelude.{
  ◌≡◌, refl, ◌≢◌, ◌∙◌, ap, sym, All, All-append, All-map, Bool-cases, inl, inr, true, false, List,
  [], ◌∷◌, ◌++◌, arith, if◌then◌else◌, is_empty,
}
use boxed.Text.{Text, join_path}
use boxed.Types.{DirEntry, entry, unreadable}
use boxed.Error.{Result, ok, err, ok_injective, bail, no_layers_found, ◌>>=◌}
use boxed.Kernel.{Machine, World, done, call, lift, pure, read_dir}
use boxed.Kernel.{◌>>=◌ as ◌>>>=◌}
use boxed.Kernel.Script.{after}
use boxed.Overlay.{
  Layer, directories, subdirectories, text_le, insert_layer, sort_layers, discover_lower_layers,
}

text_le_total : (s t : Text) → text_le s t ≡ false → text_le t s ≡ true
unfolding text_le
text_le_total [] t h = cc
text_le_total (a ∷ s) [] h = refl
text_le_total (a ∷ s) (b ∷ t) h = ground (arith, text_le_total s t)

text_le_trans : (s t u : Text) → text_le s t ≡ true → text_le t u ≡ true → text_le s u ≡ true
unfolding text_le
text_le_trans [] t u h k = refl
text_le_trans (a ∷ s) [] u h k = cc
text_le_trans (a ∷ s) (b ∷ t) [] h k = cc
text_le_trans (a ∷ s) (b ∷ t) (c ∷ u) h k = ground (arith, text_le_trans s t u)

-- The name of `x` comes before that of `y`, or is the same.
abbrev pub Before : Layer → Layer → Type 0
Before x y = text_le x.file_name y.file_name ≡ true

abbrev Ascends : List Layer → Type 0
Ascends [] = Unit
Ascends (x ∷ xs) = All (Before x) xs × Ascends xs

-- Every layer has a name that comes behind those of the later layers, or is the same.
abbrev pub Descends : List Layer → Type 0
Descends [] = Unit
Descends (x ∷ xs) = All (λ y. Before y x) xs × Descends xs

insert_layer-All :
    (P : Layer → Type 0) (x : Layer) (xs : List Layer) → P x → All P xs → All P (insert_layer x xs)
unfolding insert_layer
insert_layer-All P x [] p h = (p, tt)
insert_layer-All P x (y ∷ ys) p (q, h) = elim (Bool-cases (text_le x.file_name y.file_name)) [
  | inl first ↦ rw first (p, (q, h))
  | inr later ↦ rw later (q, insert_layer-All P x ys p h)
]

insert_layer-Ascends : (x : Layer) (xs : List Layer) → Ascends xs → Ascends (insert_layer x xs)
unfolding insert_layer
insert_layer-Ascends x [] h = (tt, tt)
insert_layer-Ascends x (y ∷ ys) (below, h) = elim (Bool-cases (text_le x.file_name y.file_name)) [
  | inl first ↦ rw first (
    (
      first,
      All-map (Before y) (Before x) (λ z. text_le_trans x.file_name y.file_name z.file_name first)
          ys below,
    ),
    (below, h),
  )
  | inr later ↦ rw later (
    insert_layer-All (Before y) x ys (text_le_total x.file_name y.file_name later) below,
    insert_layer-Ascends x ys h,
  )
]

sort_layers-Ascends : (xs : List Layer) → Ascends (sort_layers xs)
unfolding sort_layers
sort_layers-Ascends [] = tt
sort_layers-Ascends (x ∷ xs) = insert_layer-Ascends x (sort_layers xs) (sort_layers-Ascends xs)

insert_layer-perm : (x : Layer) (xs : List Layer) → Perm (insert_layer x xs) (x ∷ xs)
unfolding insert_layer
insert_layer-perm x [] = Perm.rfl
insert_layer-perm x (y ∷ ys) = elim (Bool-cases (text_le x.file_name y.file_name)) [
  | inl first ↦ rw first Perm.rfl
  | inr later ↦ rw later (Perm.trans (Perm.cons y (insert_layer-perm x ys)) (Perm.swap x y ys))
]

sort_layers-perm : (xs : List Layer) → Perm (sort_layers xs) xs
unfolding sort_layers
sort_layers-perm [] = Perm.rfl
sort_layers-perm (x ∷ xs) =
    Perm.trans (insert_layer-perm x (sort_layers xs)) (Perm.cons x (sort_layers-perm xs))

reverse-All : (P : Layer → Type 0) (xs : List Layer) → All P xs → All P (reverse xs)
reverse-All P [] h = tt
reverse-All P (x ∷ xs) (p, h) =
    rw reverse-cons (All-append P (reverse xs) (x ∷ []) (reverse-All P xs h) (p, tt))

Descends-append :
    (xs : List Layer) (x : Layer) → Descends xs → All (Before x) xs → Descends (xs ++ x ∷ [])
Descends-append [] x h below = (tt, tt)
Descends-append (y ∷ ys) x (under, h) (p, below) =
    (All-append (λ z. Before z y) ys (x ∷ []) under (p, tt), Descends-append ys x h below)

reverse-Descends : (xs : List Layer) → Ascends xs → Descends (reverse xs)
reverse-Descends [] h = tt
reverse-Descends (x ∷ xs) (below, h) =
    rw reverse-cons
      (Descends-append (reverse xs) x (reverse-Descends xs h) (reverse-All (Before x) xs below))

-- The entries that are directories, with their paths.
unfoldable pub layers_of : Text → List DirEntry → List Layer
layers_of path [] = []
layers_of path (unreadable e ∷ entries) = layers_of path entries
layers_of path (entry name is_dir ∷ entries) =
    let rest = layers_of path entries in
    if is_dir then record { path = join_path path name; file_name = name } ∷ rest else rest

abbrev pub IsReadable : DirEntry → Type 0
IsReadable (entry name is_dir) = Unit
IsReadable (unreadable e) = ⊥

directories-eq :
    (path : Text) (entries : List DirEntry) {dirs : List Layer}
    → directories path entries ≡ ok dirs
    → All IsReadable entries × (dirs ≡ layers_of path entries)
unfolding directories layers_of
directories-eq path [] h = (tt, ok_injective (sym h))
directories-eq path (unreadable e ∷ entries) h = cc
directories-eq path (entry name is_dir ∷ entries) {dirs} h =
    go (directories path entries) (λ d. directories-eq path entries {dirs = d}) h
  where
    go :
        (r : Result (List Layer))
        → ((d : List Layer) → r ≡ ok d → All IsReadable entries × (d ≡ layers_of path entries))
        → (r >>= λ dirs. ok (
            if is_dir
            then record { path = join_path path name; file_name = name } ∷ dirs
            else dirs))
          ≡ ok dirs
        → All IsReadable (entry name is_dir ∷ entries)
          × (dirs ≡ layers_of path (entry name is_dir ∷ entries))
    go (err e) ih h' = cc
    go (ok d) ih h' =
        let (all, same) = ih d refl in
        (
          (tt, all),
          sym (ok_injective h')
              ∙ ap
                  (λ l.
                    if is_dir
                    then record { path = join_path path name; file_name = name } ∷ l
                    else l)
                  same,
        )

layers_found :
    (m : Machine) (w : World) (image : Text) (entries : List DirEntry) (layers : List Layer)
    (r : Result (List Layer))
    → directories image entries ≡ r
    → (((lift r >>>= λ dirs.
            if is_empty dirs then lift (bail (no_layers_found image)) else pure dirs)
          >>>= λ dirs. pure (reverse (sort_layers dirs)))
        m w).0
      ≡ ok layers
    → All IsReadable entries
      × Perm layers (layers_of image entries)
      × (layers ≢ [])
      × Descends layers
layers_found m w image entries layers (err x) e h = cc
layers_found m w image entries layers (ok []) e h = cc
layers_found m w image entries layers (ok (d ∷ ds)) e h =
    let (readable, same) = directories-eq image entries e in
    let sorted = sort_layers (d ∷ ds) in
    let is_sorted = ok_injective h in
    let perm = Perm.trans (reverse_perm sorted) (sort_layers-perm (d ∷ ds)) in
    (
      readable,
      rw (← is_sorted, ← same) perm,
      λ empty. cc (Perm.nil-eq (rw (is_sorted ∙ empty) at perm)),
      subst Descends is_sorted (reverse-Descends sorted (sort_layers-Ascends (d ∷ ds))),
    )

-- If the directory of the image lists the entries and the layers are found, then each entry could be
-- read, the layers are the directories among them, at least one, and the names descend: the layer
-- of the last name is first, which is the topmost.
pub discover_lower_layers-Descends :
    (m : Machine) (w : World) (image : Text) (entries : List DirEntry) (layers : List Layer)
    → m.answer w.calls (read_dir image) ≡ done entries
    → (discover_lower_layers image m w).0 ≡ ok layers
    → All IsReadable entries
      × Perm layers (layers_of image entries)
      × (layers ≢ [])
      × Descends layers
unfolding discover_lower_layers subdirectories call
discover_lower_layers-Descends m w image entries layers e h =
    layers_found m (after w (read_dir image)) image entries layers (directories image entries) refl
      (rw e at h)
