-- ===== src/Namespace/Enter.antt =====
-- What `ChildContext::enter` of src/namespace.rs has done when the command starts.
mod Root
mod Confine
pub use Root.*
pub use Confine.*
use boxed.Prelude.{
  ℕ, Bool-cases, inl, inr, if◌then◌else◌, ap, sym, append_assoc, ◌%◌, ◌^◌, ◌≡◌, refl, ◌∙◌, List, [],
  ◌∷◌, ◌++◌, length, ◌==◌,
}
use boxed.Text.{Text}
use boxed.Types.{Capability}
use boxed.Error.{
  Result, ok, bail, received_closed_pipe, failed_to_read_sync_signal, failed_to_set_hostname,
  failed_to_drop_capabilities, failed_to_set_no_new_privs, failed_to_apply_filter,
  command_has_null_byte, failed_to_install_filter, failed_to_block_signals, with_context,
  collect_map,
}
use boxed.Kernel.{
  Call, Outcome, done, failed, to_result, Machine, World, Io, call, lift, pure, ask, within,
  attempt, proceed, ◌>>=◌, ◌>>◌, drop_write_copy, read_sync_fd, sethostname, set_no_new_privs,
  install_seccomp, sig_block,
}
use boxed.Kernel.Script.{actions, after}
use boxed.Kernel.Heeds.{
  Answered, Heeds, Heeds-bind, Heeds-call, Heeds-lift, Heeds-within, Runs-Heeds, Heeds-Answered,
}
use boxed.Kernel.Ensures.{
  Ensures, Exactly, Ensures-call, Ensures-lift, Ensures-within, Ensures-weaken, Ensures-bind,
  Ensures-if, Exactly-lift, Exactly-pure, Runs-Exactly, proceed-ok,
}
use boxed.Capabilities.{drop_capabilities, drop_steps, drop_capabilities-Runs}
use boxed.Seccomp.Libc.{Libc}
use boxed.Seccomp.Filter.{build_filter}
use boxed.Seccomp.Install.{install_filter, apply_default_filter}
use boxed.Process.{block_forwarded_signals, forwarded_signal_set}
use boxed.Namespace.{ChildContext, mount_root, hostname_or_boxed, await_parent, c_string, prepare}

-- A read that gives a byte.
await_parent-after :
    (m : Machine) (w : World)
    → (await_parent m w).0 ≡ ok tt
    → (await_parent m w).1 ≡ after w read_sync_fd
unfolding await_parent call
await_parent-after m w h = go (m.answer w.calls read_sync_fd) h
  where
    go :
        (o : Outcome ℕ)
        → (proceed
            (with_context failed_to_read_sync_signal (to_result o))
            (λ n. if n == 0 then lift (bail received_closed_pipe) else pure tt)
            m
            (after w read_sync_fd)).0
          ≡ ok tt
        → (proceed
            (with_context failed_to_read_sync_signal (to_result o))
            (λ n. if n == 0 then lift (bail received_closed_pipe) else pure tt)
            m
            (after w read_sync_fd)).1
          ≡ after w read_sync_fd
    go (failed e) h = refl
    go (done n) h = elim (Bool-cases (n == 0)) [
      | inl none_read ↦ rw none_read refl
      | inr some_read ↦ rw some_read refl
    ]

-- The calls up to the fork, in order: the drop of the write end, the read of the byte, the host
-- name, the root, and the confinement.
abbrev pub prepared : Libc → List Capability → ChildContext → List Call → List Call
prepared l all ctx root =
    drop_write_copy
    ∷ read_sync_fd
    ∷ sethostname (hostname_or_boxed ctx.hostname)
    ∷ (root ++ confinement l all ctx)

-- The world in which the root is mounted.
abbrev pub named : ChildContext → World → World
named ctx w =
    after (after (after w drop_write_copy) read_sync_fd)
      (sethostname (hostname_or_boxed ctx.hostname))

-- `prepare` behind the host name.
abbrev rooted : Libc → List Capability → ChildContext → Io (List Text)
rooted l all ctx = mount_root ctx.image ctx.rootfs ctx.run_id >> confine l all ctx

module _ (l : Libc) (all : List Capability) (ctx : ChildContext) (m : Machine) where
  named-prepare :
      (w : World) (args : List Text)
      → (prepare l all ctx m w).0 ≡ ok args
      → prepare l all ctx m w ≡ rooted l all ctx m (named ctx w)
  unfolding prepare call
  named-prepare w args h =
      let v = after w drop_write_copy in
      let name = call (sethostname (hostname_or_boxed ctx.hostname)) in
      let next = within failed_to_set_hostname name >> rooted l all ctx in
      let (u0, p0, h0, e0) = proceed-ok (await_parent m v).0 (λ _. next) m (await_parent m v).1 h in
      let read = await_parent-after m v p0 in
      let v' = after v read_sync_fd in
      let h1 : (next m v').0 ≡ ok args = ap (λ u. (next m u).0) (sym read) ∙ h0 in
      let (u1, p1, h2, e2) =
        proceed-ok (within failed_to_set_hostname name m v').0 (λ _. rooted l all ctx) m
          (named ctx w) h1 in
      e0 ∙ ap (next m) read ∙ e2

  rooted-calls :
      (w : World) (args : List Text)
      → (rooted l all ctx m w).0 ≡ ok args
      → (root : List Call) × ((rooted l all ctx m w).1.calls
          ≡ w.calls ++ (root ++ confinement l all ctx))
        × RootCalls ctx.run_id ctx.image ctx.rootfs m w root
        × Answered m (w.calls ++ root) (confinement l all ctx)
        × (with_context command_has_null_byte (collect_map c_string ctx.command) ≡ ok args)
  rooted-calls w args h =
      let mounted = mount_root ctx.image ctx.rootfs ctx.run_id m w in
      let (u0, p0, h0, e0) = proceed-ok mounted.0 (λ _. confine l all ctx) m mounted.1 h in
      let (root, root_calls, is_root) = mount_root-calls ctx.image ctx.rootfs ctx.run_id m w p0 in
      let (made, calls, (same, collected)) =
        (confine-Ensures l all ctx).ensured m mounted.1 args h0 in
      let confined = calls ∙ ap (λ cs. mounted.1.calls ++ cs) same in
      let answered =
        Heeds-Answered m mounted.1 args (confinement l all ctx) (confine-Heeds l all ctx) h0
          confined in
      (
        root,
        ap (λ (p : Result (List Text) × World). p.1.calls) e0
            ∙ confined
            ∙ ap (λ cs. cs ++ confinement l all ctx) root_calls
            ∙ append_assoc w.calls root (confinement l all ctx),
        is_root,
        rw root_calls at answered,
        collected,
      )

-- When the child is ready to fork the command, its calls were these and no other, in this order:
-- the drop of the write end, the read from the pipe, the host name, the root that its options ask
-- for, which for an image is the merged directory of an overlay of its layers in the scratch
-- directory of the run, the drops of each capability of `all` that is not retained, no_new_privs,
-- the filter of its profile and the block of the forwarded signals. The calls from the drops on
-- were all answered with success. The arguments are the command as C strings.
pub prepare-calls :
    (l : Libc) (all : List Capability) (ctx : ChildContext) (m : Machine) (w : World)
    (args : List Text)
    → (prepare l all ctx m w).0 ≡ ok args
    → (root : List Call) × ((prepare l all ctx m w).1.calls ≡ w.calls ++ prepared l all ctx root)
      × RootCalls ctx.run_id ctx.image ctx.rootfs m (named ctx w) root
      × Answered m ((named ctx w).calls ++ root) (confinement l all ctx)
      × (with_context command_has_null_byte (collect_map c_string ctx.command) ≡ ok args)
prepare-calls l all ctx m w args h =
    let same = named-prepare l all ctx m w args h in
    let rooted_ok = ap (λ (p : Result (List Text) × World). p.0) (sym same) ∙ h in
    let (root, calls, is_root, answered, collected) =
      rooted-calls l all ctx m (named ctx w) args rooted_ok in
    (
      root,
      ap (λ (p : Result (List Text) × World). p.1.calls) same ∙ calls ∙ simp append_assoc,
      is_root,
      answered,
      collected,
    )
