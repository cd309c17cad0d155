-- ===== src/Seccomp/Supported.antt =====
-- Which profiles src/seccomp.rs accepts, against a description of the accepted texts.
use mathlib.Core.Option
use boxed.Prelude.{
  is_empty, ◌≡◌, refl, Bool, true, false, not, ◌&&◌, ◌||◌, List, [], ◌∷◌, map, Option, none, some,
  arith, if◌then◌else◌, ◌∙◌,
}
use boxed.Text.{Text, codes, text_eq, contains, text_eq_comm}
use boxed.Error.{
  Message, Result, ok_or_else, is_ok, collect_map, unknown_syscall, unknown_action,
  unknown_default_action,
}
use boxed.Seccomp.Libc.{Libc}
use boxed.Seccomp.Syscalls.{Syscall, syscall_arms, find_arm, syscall_of}
use boxed.Seccomp.Profile.{
  SyscallRule, SeccompProfile, resolve_action, syscall_number, resolve_name, resolve_rule, resolve,
}

abbrev pub all {ℓ} : {A : Type ℓ} → (A → Bool) → List A → Bool
all f [] = true
all f (x ∷ xs) = f x && all f xs

-- The texts that a profile may use for an action, and for a system call.
abbrev pub action_names : List Text
action_names =
    codes "SCMP_ACT_ALLOW"
    ∷ codes "SCMP_ACT_ERRNO"
    ∷ codes "SCMP_ACT_KILL"
    ∷ codes "SCMP_ACT_KILL_PROCESS"
    ∷ []

pub syscall_names : List Text
syscall_names = map (λ arm. arm.0) syscall_arms

pub rule_supported : SyscallRule → Bool
rule_supported r =
    not (is_empty r.names)
    && is_empty r.args
    && contains action_names r.action
    && all (contains syscall_names) r.names

-- The profile is for x86_64 or for any architecture, each rule has a name and no arguments, and
-- every action and every system call is known.
pub supported : SeccompProfile → Bool
supported p =
    (is_empty p.architectures || contains p.architectures (codes "SCMP_ARCH_X86_64"))
    && all rule_supported p.syscalls
    && contains action_names p.default_action

is_ok-collect_map {ℓ κ} :
    {A : Type ℓ} {B : Type κ} (f : A → Result B) (xs : List A)
    → is_ok (collect_map f xs) ≡ all (λ x. is_ok (f x)) xs
unfolding collect_map
is_ok-collect_map f [] = refl
is_ok-collect_map f (x ∷ xs) = ground (arith, is_ok-collect_map f xs)

all-ext {ℓ} :
    {A : Type ℓ} (f g : A → Bool) (xs : List A) → ((x : A) → f x ≡ g x) → all f xs ≡ all g xs
all-ext f g [] h = refl
all-ext f g (x ∷ xs) h = rw (h x, all-ext f g xs h)

is_some : {A : Type 0} → Option A → Bool
is_some none = false
is_some (some a) = true

is_some-find_arm :
    (n : Text) (arms : List (Text × Syscall))
    → is_some (find_arm n arms) ≡ contains (map (λ arm. arm.0) arms) n
unfolding is_some find_arm contains
is_some-find_arm n [] = refl
is_some-find_arm n ((m, s) ∷ arms) = ground (arith, is_some-find_arm n arms, text_eq_comm n m)

is_ok-ladder :
    {A : Type 0} (m : Message) (p q r s : Bool) (a b c d : A)
    → is_ok (
        ok_or_else m (
          if p
          then some a
          else if q
          then some b
          else if r
          then some c
          else if s
          then some d
          else none))
      ≡ (p || (q || (r || (s || false))))
is_ok-ladder m true q r s a b c d = refl
is_ok-ladder m false true r s a b c d = refl
is_ok-ladder m false false true s a b c d = refl
is_ok-ladder m false false false true a b c d = refl
is_ok-ladder m false false false false a b c d = refl

module _ (l : Libc) where
  pub is_ok-resolve_name : (n : Text) → is_ok (resolve_name l n) ≡ contains syscall_names n
  unfolding resolve_name syscall_number syscall_names
  is_ok-resolve_name n = go (syscall_of n) ∙ unfold syscall_of in is_some-find_arm n syscall_arms
    where
      go :
          (o : Option Syscall)
          → is_ok (ok_or_else (unknown_syscall n) (Option.map l.number o)) ≡ is_some o
      go none = unfold is_some in refl
      go (some s) = unfold is_some in refl

  pub is_ok-resolve_action :
      (a : Text) (m : Message) → is_ok (ok_or_else m (resolve_action l a)) ≡ contains action_names a
  unfolding resolve_action contains
  is_ok-resolve_action a m =
      rw
        (
          text_eq_comm a (codes "SCMP_ACT_ALLOW"),
          text_eq_comm a (codes "SCMP_ACT_ERRNO"),
          text_eq_comm a (codes "SCMP_ACT_KILL"),
          text_eq_comm a (codes "SCMP_ACT_KILL_PROCESS"),
          resolve_action,
        )
        (is_ok-ladder m (text_eq (codes "SCMP_ACT_ALLOW") a) (text_eq (codes "SCMP_ACT_ERRNO") a)
          (text_eq (codes "SCMP_ACT_KILL") a) (text_eq (codes "SCMP_ACT_KILL_PROCESS") a)
          l.seccomp_ret_allow l.seccomp_ret_errno l.seccomp_ret_kill l.seccomp_ret_kill_process)

  pub is_ok-resolve_rule : (r : SyscallRule) → is_ok (resolve_rule l r) ≡ rule_supported r
  unfolding resolve_rule rule_supported
  is_ok-resolve_rule r = ground (
    arith,
    is_ok-resolve_action r.action (unknown_action r.action),
    is_ok-collect_map (resolve_name l) r.names,
    all-ext (λ n. is_ok (resolve_name l n)) (contains syscall_names) r.names is_ok-resolve_name,
  )

  -- A profile resolves exactly if it is supported.
  pub is_ok-resolve : (p : SeccompProfile) → is_ok (resolve l p) ≡ supported p
  unfolding resolve supported
  is_ok-resolve p = ground (
    arith,
    is_ok-resolve_action p.default_action (unknown_default_action p.default_action),
    is_ok-collect_map (resolve_rule l) p.syscalls,
    all-ext (λ r. is_ok (resolve_rule l r)) rule_supported p.syscalls is_ok-resolve_rule,
  )
