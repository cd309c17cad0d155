-- ===== src/Seccomp/Faults/Texts.antt =====
-- What the errors of src/seccomp.rs say of a profile.
use boxed.Prelude.{◌≡◌, refl, true, some}
use boxed.Text.{Text, codes}
use boxed.Text.Contains.{
  contains_text, contains_text-append, contains_text-end, contains_text-inner,
}
use boxed.Error.{Error, err}
use boxed.Display.{Debug, debug_list, error_text, message_text, seccomp_text}
use boxed.Seccomp.Libc.{Libc}
use boxed.Seccomp.Profile.{SyscallRule, SeccompProfile, resolve}
use boxed.Seccomp.Faults.{
  RuleFault, without_names, with_args, with_unknown_action, with_unknown_name, ProfileFault,
  other_architecture, in_rule, with_unknown_default, resolve-Fault,
}

-- What the text of the error holds.
abbrev pub Says : Debug → Error → Text → Type 0
Says d e t = (text : Text) × (error_text d e ≡ some text) × (contains_text text t ≡ true)

RuleFault-Says : (d : Debug) (r : SyscallRule) (e : Error) (t : Text) → RuleFault r e t → Says d e t
unfolding message_text seccomp_text
RuleFault-Says d r e t (without_names h) =
    (_, refl, contains_text-end (codes "syscall rule must contain ") (codes "at least one name"))
RuleFault-Says d r e t (with_args h) = (
  _,
  refl,
  contains_text-inner (codes "syscall rule for ") (debug_list d r.names) (codes " uses ")
      (codes "arg-conditional matching") (codes ", which isn't supported yet"),
)
RuleFault-Says d r e t (with_unknown_action h) =
    (_, refl, contains_text-end (codes "unknown or unsupported action name: ") r.action)
RuleFault-Says d r e t (with_unknown_name before name behind parts known h) =
    (_, refl, contains_text-end (codes "unknown or unsupported syscall name: ") name)

ProfileFault-Says :
    (d : Debug) (p : SeccompProfile) (e : Error) (t : Text) → ProfileFault p e t → Says d e t
unfolding message_text seccomp_text
ProfileFault-Says d p e t (other_architecture h h') = (
  _,
  refl,
  contains_text-append (codes "profile does not target ") (codes "SCMP_ARCH_X86_64")
      (codes ", the only architecture boxed supports"),
)
ProfileFault-Says d p e t (in_rule before r behind parts fine fault) = RuleFault-Says d r e t fault
ProfileFault-Says d p e t (with_unknown_default h h') = (
  _,
  refl,
  contains_text-end (codes "unknown or unsupported default action name: ") p.default_action,
)

-- A rejected profile has the fault that its error names: its architectures leave out x86_64, the
-- first rule that is not supported has no names, has arguments, has an unknown action, or has an
-- unknown name, the first of its names to be unknown; or all rules are supported and the default
-- action is unknown. The text of the error holds the action or name at fault, or says what is.
pub resolve-Says :
    (l : Libc) (d : Debug) (p : SeccompProfile) {e : Error}
    → resolve l p ≡ err e
    → (t : Text) × ProfileFault p e t × Says d e t
resolve-Says l d p {e} h =
    let (t, fault) = resolve-Fault l p h in (t, fault, ProfileFault-Says d p e t fault)
