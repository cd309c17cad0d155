-- ===== src/Namespace/Enter/Confine.antt =====
-- The calls that confine the container, behind `config_fs`, in `ChildContext::enter` of
-- src/namespace.rs.
use boxed.Prelude.{◌%◌, ◌^◌, ◌≡◌, refl, ◌∙◌, List, [], ◌∷◌, ◌++◌, length}
use boxed.Text.{Text}
use boxed.Types.{Capability}
use boxed.Error.{
  ok, failed_to_drop_capabilities, failed_to_set_no_new_privs, failed_to_apply_filter,
  command_has_null_byte, failed_to_install_filter, failed_to_block_signals, with_context,
  collect_map,
}
use boxed.Kernel.{
  Call, Io, call, lift, pure, within, ◌>>=◌, ◌>>◌, set_no_new_privs, install_seccomp, sig_block,
}
use boxed.Kernel.Script.{actions}
use boxed.Kernel.Heeds.{Heeds, Heeds-bind, Heeds-call, Heeds-lift, Heeds-within, Runs-Heeds}
use boxed.Kernel.Ensures.{
  Ensures, Exactly, Ensures-call, Ensures-lift, Ensures-within, Ensures-weaken, Ensures-bind,
  Runs-Exactly,
}
use boxed.Capabilities.{drop_capabilities, drop_steps, drop_capabilities-Runs}
use boxed.Seccomp.Libc.{Libc}
use boxed.Seccomp.Filter.{build_filter}
use boxed.Seccomp.Install.{install_filter, apply_default_filter}
use boxed.Process.{block_forwarded_signals, forwarded_signal_set}
use boxed.Namespace.{ChildContext, c_string}

drop-Exactly : (all : List Capability) → Exactly (actions (drop_steps all)) (drop_capabilities all)
drop-Exactly all =
    Runs-Exactly (drop_capabilities all) (drop_steps all) (λ m. drop_capabilities-Runs m all)

filter-Exactly :
    (l : Libc) (ctx : ChildContext)
    → Exactly
        (install_seccomp
            (length (build_filter l ctx.seccomp_profile) % 2 ^ 16)
            (build_filter l ctx.seccomp_profile)
          ∷ [])
        (apply_default_filter l ctx.seccomp_profile)
unfolding apply_default_filter install_filter
filter-Exactly l ctx =
    Ensures-within failed_to_install_filter
      (call (
        install_seccomp (length (build_filter l ctx.seccomp_profile) % 2 ^ 16)
          (build_filter l ctx.seccomp_profile)))
      (Ensures-call (
        install_seccomp (length (build_filter l ctx.seccomp_profile) % 2 ^ 16)
          (build_filter l ctx.seccomp_profile)))

-- The calls that confine the process: the drops of capabilities, no_new_privs and the filter; then
-- the signals are blocked.
abbrev pub confinement : Libc → List Capability → ChildContext → List Call
confinement l all ctx =
    let filter = build_filter l ctx.seccomp_profile in
    actions (drop_steps all)
    ++ set_no_new_privs
      ∷ install_seccomp (length filter % 2 ^ 16) filter
      ∷ sig_block forwarded_signal_set
      ∷ []

-- `prepare` behind the mount of the root.
abbrev pub confine : Libc → List Capability → ChildContext → Io (List Text)
confine l all ctx =
    within failed_to_drop_capabilities (drop_capabilities all)
    >> (within failed_to_set_no_new_privs (call set_no_new_privs)
        >> (within failed_to_apply_filter (apply_default_filter l ctx.seccomp_profile)
            >> (lift (with_context command_has_null_byte (collect_map c_string ctx.command))
                >>= λ args. block_forwarded_signals >> pure args)))

pub confine-Ensures :
    (l : Libc) (all : List Capability) (ctx : ChildContext)
    → Ensures
        (λ made args.
          (made ≡ confinement l all ctx)
          × (with_context command_has_null_byte (collect_map c_string ctx.command) ≡ ok args))
        (confine l all ctx)
unfolding block_forwarded_signals
confine-Ensures l all ctx =
    let collected = with_context command_has_null_byte (collect_map c_string ctx.command) in
    let block = call (sig_block forwarded_signal_set) in
    Ensures-weaken (confine l all ctx)
      (λ made b
          (
            u4,
            c4,
            r4,
            e4,
            q4,
            (
              u5,
              c5,
              r5,
              e5,
              q5,
              (
                u6,
                c6,
                r6,
                e6,
                q6,
                (args, c7, r7, e7, (q7, parsed), (u8, c8, r8, e8, q8, (q9, same))),
              ),
            ),
          ).
        (rw (e4, q4, e5, q5, e6, q6, e7, q7, e8, q8, q9) refl, parsed ∙ same))
      (Ensures-bind (within failed_to_drop_capabilities (drop_capabilities all)) _
        (Ensures-within failed_to_drop_capabilities (drop_capabilities all) (drop-Exactly all))
        (λ _.
          Ensures-bind (within failed_to_set_no_new_privs (call set_no_new_privs)) _
            (Ensures-within failed_to_set_no_new_privs (call set_no_new_privs)
              (Ensures-call set_no_new_privs))
            (λ _.
              Ensures-bind
                (within failed_to_apply_filter (apply_default_filter l ctx.seccomp_profile)) _
                (Ensures-within failed_to_apply_filter (apply_default_filter l ctx.seccomp_profile)
                  (filter-Exactly l ctx))
                (λ _. Ensures-bind (lift collected) _ (Ensures-lift collected) (λ args.
                  Ensures-bind (within failed_to_block_signals block) _
                    (Ensures-within failed_to_block_signals block
                      (Ensures-call (sig_block forwarded_signal_set)))
                    (λ _. Ensures-lift (ok args)))))))

pub confine-Heeds :
    (l : Libc) (all : List Capability) (ctx : ChildContext) → Heeds (confine l all ctx)
unfolding block_forwarded_signals apply_default_filter install_filter
confine-Heeds l all ctx =
    let collected = with_context command_has_null_byte (collect_map c_string ctx.command) in
    let filter = build_filter l ctx.seccomp_profile in
    Heeds-bind (within failed_to_drop_capabilities (drop_capabilities all)) _
      (Heeds-within failed_to_drop_capabilities (
        Runs-Heeds (drop_capabilities all) (λ m. drop_steps all)
          (λ m. drop_capabilities-Runs m all)))
      (λ _.
        Heeds-bind (within failed_to_set_no_new_privs (call set_no_new_privs)) _
          (Heeds-within failed_to_set_no_new_privs (Heeds-call set_no_new_privs))
          (λ _.
            Heeds-bind (within failed_to_apply_filter (apply_default_filter l ctx.seccomp_profile))
              _
              (Heeds-within failed_to_apply_filter (
                Heeds-within failed_to_install_filter
                  (Heeds-call (install_seccomp (length filter % 2 ^ 16) filter))))
              (λ _. Heeds-bind (lift collected) _ (Heeds-lift collected) (λ args.
                Heeds-bind (within failed_to_block_signals (call (sig_block forwarded_signal_set)))
                  _
                  (Heeds-within failed_to_block_signals
                    (Heeds-call (sig_block forwarded_signal_set)))
                  (λ _. Heeds-lift (ok args))))))
