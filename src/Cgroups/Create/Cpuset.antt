-- ===== src/Cgroups/Create/Cpuset.antt =====
-- The error of a cpuset in `handle_cpuset_write_error` of src/cgroups.rs.
use boxed.Prelude.{◌≡◌, refl, ◌++◌}
use boxed.Text.{Text, codes, join_path}
use boxed.Error.{
  Message, Error, os, context, Result, ok, err, with_context, failed_to_write_controller,
}
use boxed.Kernel.{
  Call, Outcome, done, failed, to_result, Machine, World, call, write_file, read_to_string,
}
use boxed.Kernel.Script.{after}
use boxed.Cgroups.Create.{
  effective_file, explain_rejection, handle_cpuset_write_error, write_controller, write_cpuset,
}

-- A write of a cpuset answered by `o` gives `r` and `w'`: it has made one call if it succeeds; if it
-- fails, the effective file is read too, and the error is a new context round that of the write.
abbrev pub Explains :
    Text → Text → World → Call → Outcome (Unit {0}) → Result (Unit {0}) × World → Type 0
Explains path cpuset_type w write (done _) (r, w') = (r ≡ ok tt) × (w' ≡ after w write)
Explains path cpuset_type w write (failed n) (r, w') =
    (explanation : Message) × (r
      ≡ err (
          context explanation
            (context (failed_to_write_controller (codes "cpuset." ++ cpuset_type)) (os n))))
    × (w' ≡ after (after w write) (read_to_string (join_path path (effective_file cpuset_type))))

module _ (path cpuset_type value : Text) (m : Machine) where
  explained :
      (w : World) (e : Error) (o : Outcome Text)
      → (explanation : Message) × (explain_rejection e path cpuset_type value (to_result o)
          ≡ err (context explanation e))
  unfolding explain_rejection
  explained w e (done effective) = (_, refl)
  explained w e (failed n) = (_, refl)

  write_answered :
      (w : World) (o : Outcome (Unit {0}))
      → let write = write_file (join_path path (codes "cpuset." ++ cpuset_type)) value in
        Explains path cpuset_type w write o (
          handle_cpuset_write_error
            (with_context
              (failed_to_write_controller (codes "cpuset." ++ cpuset_type))
              (to_result o))
            path
            cpuset_type
            value
            m
            (after w write))
  unfolding handle_cpuset_write_error call
  write_answered w (done _) = (refl, refl)
  write_answered w (failed n) =
      let file = codes "cpuset." ++ cpuset_type in
      let v = after w (write_file (join_path path file) value) in
      let answer =
        m.answer v.calls (read_to_string (join_path path (effective_file cpuset_type))) in
      let (explanation, same) =
        explained v (context (failed_to_write_controller file) (os n)) answer in
      (explanation, same, refl)

-- A cpuset is set by one write. If it fails, the effective file is read, and whatever that gives, the
-- error of the write is kept: it stays under the context of the write and one of the explanation.
pub write_cpuset-Explains :
    (path cpuset_type value : Text) (m : Machine) (w : World)
    → let write = write_file (join_path path (codes "cpuset." ++ cpuset_type)) value in
      Explains path cpuset_type w write
        (m.answer w.calls write)
        (write_cpuset path cpuset_type value m w)
unfolding write_cpuset write_controller call
write_cpuset-Explains path cpuset_type value m w =
    write_answered path cpuset_type value m w
      (m.answer w.calls (write_file (join_path path (codes "cpuset." ++ cpuset_type)) value))
