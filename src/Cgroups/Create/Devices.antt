-- ===== src/Cgroups/Create/Devices.antt =====
-- The calls of `Cgroup::create` of src/cgroups.rs for the values of `--io-max`.
use mathlib.Core.Path.{subst}
use boxed.Prelude.{
  ◌≡◌, refl, ◌∙◌, ap, sym, Bool-cases, inl, inr, true, not, List, [], ◌∷◌, ◌++◌, append-nil,
  append_assoc, if◌then◌else◌,
}
use boxed.Types.{FileStat}
use boxed.Kernel.Script.{after}
use boxed.Text.{Text, codes, join_path}
use boxed.Text.Decimal.{to_string}
use boxed.Error.{
  failed_to_write_controller, failed_to_stat, not_a_block_device, bail, Error, Result, ok, err,
  ok_injective, with_context,
}
use boxed.Kernel.{
  Call, Outcome, done, failed, to_result, Machine, World, Io, call, lift, proceed, pure, write_file,
  stat,
}
use boxed.Kernel.Ensures.{Exactly, Ensures-call, Ensures-within, proceed-ok}
use boxed.Cgroups.IoMax.{IoMax, parse_io_max, render_io_max}
use boxed.Cgroups.Config.{resolve_device}
use boxed.Cgroups.Create.{write_controller, write_io_max}

-- One write.
abbrev pub limit_call : Text → Text → Text → List Call
limit_call path file value = write_file (join_path path file) value ∷ []

-- For each specification the device is looked up, which is a block device, and its number and limits
-- are written. The calls come behind `before`.
abbrev pub DeviceCalls : Machine → Text → List Text → List Call → List Call → Type 0
DeviceCalls m path [] before made = made ≡ []
DeviceCalls m path (spec ∷ specs) before made =
    (parsed : IoMax) × (info : FileStat) × (rest : List Call) × (parse_io_max spec ≡ ok parsed)
    × (m.answer before (stat parsed.device) ≡ done info)
    × (info.is_block ≡ true)
    × (let number = to_string info.major ++ b':' ∷ to_string info.minor in
        let write =
          write_file (join_path path (codes "io.max")) (render_io_max number parsed.limits) in
        (made ≡ stat parsed.device ∷ write ∷ rest)
        × DeviceCalls m path specs (before ++ stat parsed.device ∷ write ∷ []) rest)

pub write_controller-Exactly :
    (path file value : Text)
    → Exactly (limit_call path file value) (write_controller path file value)
unfolding write_controller
write_controller-Exactly path file value =
    Ensures-within (failed_to_write_controller file) (call (write_file (join_path path file) value))
      (Ensures-call (write_file (join_path path file) value))

err-ne-ok : {A : Type 0} {e : Error} {a : A} → err e ≡ ok a → ⊥
err-ne-ok h = cc

-- The number of a device is that of the answer.
resolve_device-lem :
    (path : Text) (m : Machine) (w : World) (number : Text)
    → (resolve_device path m w).0 ≡ ok number
    → (info : FileStat) × (m.answer w.calls (stat path) ≡ done info)
      × (info.is_block ≡ true)
      × (number ≡ to_string info.major ++ b':' ∷ to_string info.minor)
      × ((resolve_device path m w).1 ≡ after w (stat path))
unfolding resolve_device call
resolve_device-lem path m w number h = go (m.answer w.calls (stat path)) refl h
  where
    go :
        (o : Outcome FileStat)
        → m.answer w.calls (stat path) ≡ o
        → (let next : FileStat → Io Text = λ info.
              if not info.is_block
              then lift (bail (not_a_block_device path))
              else pure (to_string info.major ++ b':' ∷ to_string info.minor) in
            let ended =
              proceed
                (with_context (failed_to_stat path) (to_result o))
                next
                m
                (after w (stat path)) in
            ended.0 ≡ ok number
            → (info : FileStat) × (m.answer w.calls (stat path) ≡ done info)
              × (info.is_block ≡ true)
              × (number ≡ to_string info.major ++ b':' ∷ to_string info.minor)
              × (ended.1 ≡ after w (stat path)))
    go (failed e) same h = cc
    go (done info) same h = elim (Bool-cases info.is_block) [
      | inl block ↦ rw block (info, same, block, ok_injective (sym (rw block at h)), refl)
      | inr other ↦ absurd (err-ne-ok (rw other at h))
    ]

behind_lem :
    (l uc vc written : List Call) (a b : Call)
    → uc ≡ l ++ a ∷ []
    → vc ≡ uc ++ written
    → written ≡ b ∷ []
    → vc ≡ l ++ a ∷ b ∷ []
behind_lem l uc vc written a b e e' e'' = rw (e', e'', e) (append_assoc l (a ∷ []) (b ∷ []))

-- What the loop over the specifications has done.
pub write_io_max-calls :
    (path : Text) (specs : List Text) (m : Machine) (w : World)
    → (write_io_max path specs m w).0 ≡ ok tt
    → (made : List Call) × ((write_io_max path specs m w).1.calls ≡ w.calls ++ made)
      × DeviceCalls m path specs w.calls made
unfolding write_io_max
write_io_max-calls path [] m w h = ([], sym (append-nil w.calls), refl)
write_io_max-calls path (spec ∷ specs) m w h =
    let (parsed, p, h0, e0) = proceed-ok (parse_io_max spec) _ m w h in
    let device = parsed.device in
    let (number, q, h1, e1) =
      proceed-ok (resolve_device device m w).0 _ m (resolve_device device m w).1 h0 in
    let (info, answer, block, same, world) = resolve_device-lem device m w number q in
    let u = (resolve_device device m w).1 in
    let write = write_controller path (codes "io.max") (render_io_max number parsed.limits) in
    let (_, r, h2, e2) = proceed-ok (write m u).0 _ m (write m u).1 h1 in
    let (written, write_calls, is_write) =
      (write_controller-Exactly path (codes "io.max") (render_io_max number parsed.limits)).ensured
        m u tt r in
    let (rest, rest_calls, devices) = write_io_max-calls path specs m (write m u).1 h2 in
    let line =
      λ (n : Text). write_file (join_path path (codes "io.max")) (render_io_max n parsed.limits) in
    let behind =
      behind_lem w.calls u.calls (write m u).1.calls written (stat device)
        (line (to_string info.major ++ b':' ∷ to_string info.minor))
        (ap (λ (v : World). v.calls) world) write_calls (is_write ∙ ap (λ n. line n ∷ []) same) in
    (
      stat device ∷ line (to_string info.major ++ b':' ∷ to_string info.minor) ∷ rest,
      ap (λ (x : Result (Unit {0}) × World). x.1.calls) (e0 ∙ e1 ∙ e2)
          ∙ rest_calls
          ∙ ap (λ cs. cs ++ rest) behind
          ∙ append_assoc w.calls _ rest,
      (
        parsed,
        info,
        rest,
        p,
        answer,
        block,
        (refl, subst (λ cs. DeviceCalls m path specs cs rest) behind devices),
      ),
    )
