-- ===== src/Seccomp/Faults.antt =====
-- Why src/seccomp.rs rejects a profile.
pub mod Texts
use mathlib.Core.Path.{subst}
use mathlib.Core.Option
use boxed.Prelude.{
  ◌≡◌, refl, sym, ap, ◌∙◌, ◌≢◌, Bool, true, false, not, ◌&&◌, List, [], ◌∷◌, ◌++◌, All, All-map,
  Option, none, some, ℕ, is_empty, if◌then◌else◌,
}
use boxed.Text.{Text, codes, contains}
use boxed.Error.{
  Error, message, Result, ok, err, err_injective, is_ok, bail, ok_or_else, ◌>>=◌, collect_map,
  Collected, collect_map-eq-ok, collect_map-FirstFails, Collected, collect_map-eq-ok,
  profile_not_x86_64, unknown_default_action, rule_without_names, rule_with_args, unknown_action,
  unknown_syscall,
}
use boxed.Seccomp.Libc.{Libc}
use boxed.Seccomp.Profile.{
  SyscallRule, SeccompProfile, ResolveRule, ResolvedProfile, resolve_action, syscall_number,
  resolve_name, resolve_rule, resolve,
}
use boxed.Seccomp.Supported.{
  action_names, syscall_names, rule_supported, is_ok-resolve_name, is_ok-resolve_action,
  is_ok-resolve_rule,
}

-- What is wrong with a rule, by the error and the text that it has to hold.
pub data RuleFault (r : SyscallRule) : Error → Text → Type 0 where
  without_names :
      r.names ≡ [] → RuleFault r (message rule_without_names) (codes "at least one name")
  with_args :
      r.args ≢ []
      → RuleFault r (message (rule_with_args r.names)) (codes "arg-conditional matching")
  with_unknown_action :
      contains action_names r.action ≡ false
      → RuleFault r (message (unknown_action r.action)) r.action
  -- The first of the names that is unknown.
  with_unknown_name :
      (before : List Text) (name : Text) (behind : List Text)
      → r.names ≡ before ++ name ∷ behind
      → All (λ n. contains syscall_names n ≡ true) before
      → contains syscall_names name ≡ false
      → RuleFault r (message (unknown_syscall name)) name

-- What is wrong with a profile, likewise.
pub data ProfileFault (p : SeccompProfile) : Error → Text → Type 0 where
  other_architecture :
      p.architectures ≢ []
      → contains p.architectures (codes "SCMP_ARCH_X86_64") ≡ false
      → ProfileFault p (message profile_not_x86_64) (codes "SCMP_ARCH_X86_64")
  -- The first of the rules that is not supported.
  in_rule :
      {e : Error} {t : Text} (before : List SyscallRule) (r : SyscallRule)
      (behind : List SyscallRule)
      → p.syscalls ≡ before ++ r ∷ behind
      → All (λ s. rule_supported s ≡ true) before
      → RuleFault r e t
      → ProfileFault p e t
  with_unknown_default :
      All (λ s. rule_supported s ≡ true) p.syscalls
      → contains action_names p.default_action ≡ false
      → ProfileFault p (message (unknown_default_action p.default_action)) p.default_action

is_ok_err {ℓ} :
    {A : Type ℓ} (r : Result A) {e : Error} (b : Bool) → is_ok r ≡ b → r ≡ err e → b ≡ false
is_ok_err (ok a) b h h' = cc
is_ok_err (err z) b h h' = sym h

empty_of {ℓ} : {A : Type ℓ} (xs : List A) → is_empty xs ≡ true → xs ≡ []
empty_of [] h = refl
empty_of (x ∷ xs) h = cc

nonempty_of {ℓ} : {A : Type ℓ} (xs : List A) → is_empty xs ≡ false → xs ≢ []
nonempty_of [] h = cc
nonempty_of (x ∷ xs) h = cc

Collected-is_ok {ℓ κ} :
    {A : Type ℓ} {B : Type κ} (f : A → Result B) (xs : List A) (ys : List B)
    → Collected f xs ys
    → All (λ x. is_ok (f x) ≡ true) xs
Collected-is_ok f [] ys h = tt
Collected-is_ok f (x ∷ xs) ys (y, rest, same, e, more) =
    (rw same refl, Collected-is_ok f xs rest more)

abbrev resolved : List ResolveRule → ℕ → ResolvedProfile
resolved rules default_action = record { rules = rules; default_action = default_action }

module _ (l : Libc) where
  resolve_name-unknown :
      (n : Text) {e : Error}
      → resolve_name l n ≡ err e
      → (e ≡ message (unknown_syscall n)) × (contains syscall_names n ≡ false)
  unfolding resolve_name
  resolve_name-unknown n {e} h =
      (go (syscall_number l n) h, is_ok_err (resolve_name l n) _ (is_ok-resolve_name l n) h)
    where
      go :
          (o : Option ℕ)
          → ok_or_else (unknown_syscall n) o ≡ err e
          → e ≡ message (unknown_syscall n)
      go none q = sym (err_injective q)
      go (some i) q = cc

  numbers-Fault :
      (r : SyscallRule) {e : Error}
      → collect_map (resolve_name l) r.names ≡ err e
      → (t : Text) × RuleFault r e t
  numbers-Fault r {e} h =
      let (before, n, behind, parts, fine, wrong) =
        collect_map-FirstFails (resolve_name l) e r.names h in
      let (same, unknown) = resolve_name-unknown n wrong in
      let known =
        All-map (λ y. is_ok (resolve_name l y) ≡ true) (λ y. contains syscall_names y ≡ true)
          (λ y q. sym (is_ok-resolve_name l y) ∙ q) before fine in
      (
        n,
        subst (λ z. RuleFault r z n) (sym same)
            (with_unknown_name before n behind parts known unknown),
      )

  resolve_rule-Fault :
      (r : SyscallRule) {e : Error} → resolve_rule l r ≡ err e → (t : Text) × RuleFault r e t
  unfolding resolve_rule
  resolve_rule-Fault r {e} h =
      go (is_empty r.names) (is_empty r.args) (resolve_action l r.action)
        (collect_map (resolve_name l) r.names) refl refl refl refl h
    where
      go :
          (no_names no_args : Bool) (action : Option ℕ) (numbers : Result (List ℕ))
          → is_empty r.names ≡ no_names
          → is_empty r.args ≡ no_args
          → resolve_action l r.action ≡ action
          → collect_map (resolve_name l) r.names ≡ numbers
          → (if no_names
              then bail {T = ResolveRule} rule_without_names
              else if not no_args
              then bail (rule_with_args r.names)
              else (ok_or_else (unknown_action r.action) action >>= λ a.
                  ◌>>=◌ {U = ResolveRule} numbers (λ ns. ok (record { numbers = ns; action = a }))))
            ≡ err e
          → (t : Text) × RuleFault r e t
      go true no_args action numbers p q s n x = (
        codes "at least one name",
        subst (λ z. RuleFault r z (codes "at least one name")) (err_injective x)
            (without_names (empty_of r.names p)),
      )
      go false false action numbers p q s n x = (
        codes "arg-conditional matching",
        subst (λ z. RuleFault r z (codes "arg-conditional matching")) (err_injective x)
            (with_args (nonempty_of r.args q)),
      )
      go false true none numbers p q s n x =
          let unknown =
            is_ok_err (ok_or_else (unknown_action r.action) (resolve_action l r.action)) _
              (is_ok-resolve_action l r.action (unknown_action r.action))
              (ap (ok_or_else (unknown_action r.action)) s) in
          (
            r.action,
            subst (λ z. RuleFault r z r.action) (err_injective x) (with_unknown_action unknown),
          )
      go false true (some a) (err z) p q s n x = numbers-Fault r (n ∙ ap err (err_injective x))
      go false true (some a) (ok ns) p q s n x = cc

  rules_supported :
      (rules : List SyscallRule)
      → All (λ s. is_ok (resolve_rule l s) ≡ true) rules
      → All (λ s. rule_supported s ≡ true) rules
  rules_supported =
      All-map (λ s. is_ok (resolve_rule l s) ≡ true) (λ s. rule_supported s ≡ true)
        (λ s q. sym (is_ok-resolve_rule l s) ∙ q)

  rules-Fault :
      (p : SeccompProfile) {e : Error}
      → collect_map (resolve_rule l) p.syscalls ≡ err e
      → (t : Text) × ProfileFault p e t
  rules-Fault p {e} h =
      let (before, r, behind, parts, fine, wrong) =
        collect_map-FirstFails (resolve_rule l) e p.syscalls h in
      let (t, fault) = resolve_rule-Fault r wrong in
      (t, in_rule before r behind parts (rules_supported before fine) fault)

  default-Fault :
      (p : SeccompProfile) {e : Error} (rules : List ResolveRule) (default : Option ℕ)
      → collect_map (resolve_rule l) p.syscalls ≡ ok rules
      → resolve_action l p.default_action ≡ default
      → (ok_or_else (unknown_default_action p.default_action) default >>= λ a.
          ok (resolved rules a))
        ≡ err e
      → (t : Text) × ProfileFault p e t
  default-Fault p rules (some a) collected same h = cc
  default-Fault p rules none collected same h =
      let unknown =
        is_ok_err
          (ok_or_else (unknown_default_action p.default_action) (resolve_action l p.default_action))
          _ (is_ok-resolve_action l p.default_action (unknown_default_action p.default_action))
          (ap (ok_or_else (unknown_default_action p.default_action)) same) in
      let fine = rules_supported p.syscalls (
        Collected-is_ok (resolve_rule l) p.syscalls rules
          (collect_map-eq-ok (resolve_rule l) p.syscalls collected)) in
      (
        p.default_action,
        subst (λ z. ProfileFault p z p.default_action) (err_injective h)
            (with_unknown_default fine unknown),
      )

  pub resolve-Fault :
      (p : SeccompProfile) {e : Error} → resolve l p ≡ err e → (t : Text) × ProfileFault p e t
  unfolding resolve
  resolve-Fault p {e} h =
      go (is_empty p.architectures) (contains p.architectures (codes "SCMP_ARCH_X86_64"))
        (collect_map (resolve_rule l) p.syscalls) refl refl refl h
    where
      go :
          (any listed : Bool) (rules : Result (List ResolveRule))
          → is_empty p.architectures ≡ any
          → contains p.architectures (codes "SCMP_ARCH_X86_64") ≡ listed
          → collect_map (resolve_rule l) p.syscalls ≡ rules
          → (if not any && not listed
              then bail {T = ResolvedProfile} profile_not_x86_64
              else (rules >>= λ rs.
                  ok_or_else
                    (unknown_default_action p.default_action)
                    (resolve_action l p.default_action)
                  >>= λ a. ok (resolved rs a)))
            ≡ err e
          → (t : Text) × ProfileFault p e t
      go false false rules q s n x = (
        codes "SCMP_ARCH_X86_64",
        subst (λ z. ProfileFault p z (codes "SCMP_ARCH_X86_64")) (err_injective x)
            (other_architecture (nonempty_of p.architectures q) s),
      )
      go false true (err z) q s n x = rules-Fault p (n ∙ ap err (err_injective x))
      go true listed (err z) q s n x = rules-Fault p (n ∙ ap err (err_injective x))
      go false true (ok rs) q s n x = default-Fault p rs _ n refl x
      go true listed (ok rs) q s n x = default-Fault p rs _ n refl x
