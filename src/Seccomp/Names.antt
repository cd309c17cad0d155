-- ===== src/Seccomp/Names.antt =====
-- The filter of a profile, read off the texts of the profile: parsing, resolving, building and
-- running the program in one statement.
use boxed.Prelude.{
  ℕ, ◌≡◌, refl, ◌≢◌, false, List, [], ◌∷◌, sym, ap, ◌∙◌, map, Option, none, some, arith, ◌==◌,
  if◌then◌else◌, All, Bool-cases, ==_iff, inl, inr,
}
use mathlib.Core.Option
use boxed.Text.{Text, text_eq, text_eq_iff, contains}
use boxed.Error.{ok, ok_or_else, Collected, collect_map-eq-ok, collect_map, unknown_syscall}
use boxed.Seccomp.Libc.{Libc, IsLibc}
use boxed.Seccomp.Syscalls.{
  Syscall, dangerous_syscalls, syscall_of, name, syscall_of-name, syscall_of_sound,
}
use boxed.Seccomp.Profile.{
  SyscallRule, SeccompProfile, ResolveRule, ResolvedProfile, resolve_action, syscall_number,
  resolve_name, resolve_rule, resolve,
}
use boxed.Seccomp.Filter.{audit_arch_x86_64, build_filter}
use boxed.Seccomp.Vm.{Vm}
use boxed.Seccomp.Verdict.{
  member, rules_verdict, Fits, RuleFits, run-build_filter-some, run-build_filter-none,
}

pub name_injective : (s t : Syscall) → name s ≡ name t → s ≡ t
name_injective s t e = cc (syscall_of-name s, syscall_of-name t, ap syscall_of e)

-- The action text of the first rule that names the call, or the default.
unfoldable pub named_action : Text → List SyscallRule → Text → Text
named_action n [] default = default
named_action n (r ∷ rs) default = if contains r.names n then r.action else named_action n rs default

module _ (l : Libc) (lawful : IsLibc l) where
  number_ne : (s t : Syscall) → s ≢ t → (l.number s == l.number t) ≡ false
  number_ne s t h = elim (Bool-cases (l.number s == l.number t)) [
    | inl same ↦ absurd (h (lawful.number_injective s t ((==_iff _ _).0 same)))
    | inr other ↦ other
  ]

  number_eq : (s t : Syscall) → (l.number s == l.number t) ≡ text_eq (name t) (name s)
  number_eq s t = elim (Bool-cases (text_eq (name t) (name s))) [
    | inl same ↦
        rw same ((==_iff _ _).1 (ap l.number (name_injective s t (sym ((text_eq_iff _ _).0 same)))))
    | inr other ↦
        rw other
          (number_ne s t (λ e. cc (other, (text_eq_iff (name t) (name s)).1 (ap name (sym e)))))
  ]

  -- The call's number is among the numbers of the listed calls if its name is among their names.
  pub member-number :
      (s : Syscall) (ss : List Syscall)
      → member (l.number s) (map l.number ss) ≡ contains (map name ss) (name s)
  unfolding contains
  member-number s [] = refl
  member-number s (t ∷ ss) = rw (number_eq s t, member-number s ss)

  resolve_name_lem :
      (n : Text) {k : ℕ} → resolve_name l n ≡ ok k → (s : Syscall) × (n ≡ name s) × (k ≡ l.number s)
  unfolding resolve_name syscall_number
  resolve_name_lem n {k} e = go (syscall_of n) refl e
    where
      go :
          (o : Option Syscall)
          → syscall_of n ≡ o
          → ok_or_else (unknown_syscall n) (Option.map l.number o) ≡ ok k
          → (s : Syscall) × (n ≡ name s) × (k ≡ l.number s)
      go none found h = cc
      go (some s) found h = (s, syscall_of_sound n s found, cc)

  -- Resolved numbers are those of exactly the calls that the texts name.
  member-Collected :
      (s : Syscall) (ns : List Text) (ks : List ℕ)
      → Collected (resolve_name l) ns ks
      → (member (l.number s) ks ≡ contains ns (name s)) × All Fits ks
  unfolding contains
  member-Collected s [] ks e = rw e (refl, tt)
  member-Collected s (n ∷ ns) ks (k, rest, first, e, more) =
      let (t, named, numbered) = resolve_name_lem n first in
      let (ih, fits) = member-Collected s ns rest more in
      rw (e, numbered, named, ih, number_eq s t) (refl, (lawful.number_fits t, fits))

  resolve_rule_lem :
      (r : SyscallRule) {rr : ResolveRule}
      → resolve_rule l r ≡ ok rr
      → (resolve_action l r.action ≡ some rr.action)
        × (collect_map (resolve_name l) r.names ≡ ok rr.numbers)
  unfolding resolve_rule
  resolve_rule_lem r h = ground arith

  -- The same of the rules: the number is given the action that the texts give the name.
  verdict-Collected :
      (s : Syscall) (rs : List SyscallRule) (rrs : List ResolveRule) (default : Text) {d : ℕ}
      → resolve_action l default ≡ some d
      → Collected (resolve_rule l) rs rrs
      → (resolve_action l (named_action (name s) rs default)
          ≡ some (rules_verdict (l.number s) rrs d))
        × All RuleFits rrs
  unfolding named_action rules_verdict
  verdict-Collected s [] rrs default e h = rw h (e, tt)
  verdict-Collected s (r ∷ rs) rrs default e (rr, rest, first, split, more) =
      let (action, numbers) = resolve_rule_lem r first in
      let (listed, fits) =
        member-Collected s r.names rr.numbers
          (collect_map-eq-ok (resolve_name l) r.names numbers) in
      let (ih, all_fit) = verdict-Collected s rs rest default e more in
      rw (split, listed)
        (elim (Bool-cases (contains r.names (name s))) [
          | inl here ↦ rw here (action, (fits, all_fit))
          | inr past ↦ rw past (ih, (fits, all_fit))
        ])

  resolve_lem :
      (p : SeccompProfile) {r : ResolvedProfile}
      → resolve l p ≡ ok r
      → (resolve_action l p.default_action ≡ some r.default_action)
        × (collect_map (resolve_rule l) p.syscalls ≡ ok r.rules)
  unfolding resolve
  resolve_lem p h = ground arith

  member-unnamed :
      (nr : ℕ)
      → ((s : Syscall) → nr ≢ l.number s)
      → (ns : List Text) (ks : List ℕ) → Collected (resolve_name l) ns ks
      → (member nr ks ≡ false) × All Fits ks
  member-unnamed nr h [] ks e = rw e (refl, tt)
  member-unnamed nr h (n ∷ ns) ks (k, rest, first, e, more) =
      let (t, named, numbered) = resolve_name_lem n first in
      let (ih, fits) = member-unnamed nr h ns rest more in
      rw (e, numbered, ih) (ground (arith, h t), (lawful.number_fits t, fits))

  verdict-unnamed :
      (nr : ℕ)
      → ((s : Syscall) → nr ≢ l.number s)
      → (rs : List SyscallRule) (rrs : List ResolveRule) (d : ℕ) → Collected (resolve_rule l) rs rrs
      → (rules_verdict nr rrs d ≡ d) × All RuleFits rrs
  unfolding rules_verdict
  verdict-unnamed nr h [] rrs d e = rw e (refl, tt)
  verdict-unnamed nr h (r ∷ rs) rrs d (rr, rest, first, split, more) =
      let (action, numbers) = resolve_rule_lem r first in
      let (skipped, fits) =
        member-unnamed nr h r.names rr.numbers
          (collect_map-eq-ok (resolve_name l) r.names numbers) in
      let (ih, all_fit) = verdict-unnamed nr h rs rest d more in
      rw (split, skipped) (ih, (fits, all_fit))

  All-map-number : (ss : List Syscall) → All Fits (map l.number ss)
  All-map-number [] = tt
  All-map-number (s ∷ ss) = (lawful.number_fits s, All-map-number ss)

  module _ (vm : Vm l) (a : ℕ) (p : SeccompProfile) {r : ResolvedProfile}
      (resolved : resolve l p ≡ ok r) where
    -- On x86_64, the program of a profile that resolves returns, for a call that the table knows,
    -- the action of the first rule that names the call, or of the default if no rule does.
    pub run-build_filter-name :
        (s : Syscall)
        → vm.run (record { nr = l.number s; arch = audit_arch_x86_64 }) a (build_filter l (some r))
          ≡ resolve_action l (named_action (name s) p.syscalls p.default_action)
    run-build_filter-name s =
        let (default, rules) = resolve_lem p resolved in
        let (action, fits) =
          verdict-Collected s p.syscalls r.rules p.default_action default
            (collect_map-eq-ok (resolve_rule l) p.syscalls rules) in
        run-build_filter-some l vm _ a r fits refl ∙ sym action

    -- On x86_64, the program of a profile that resolves returns the default action for every
    -- number that is not the number of a call in the table, whatever the rules say.
    pub run-build_filter-unnamed :
        (nr : ℕ)
        → ((s : Syscall) → nr ≢ l.number s)
        → vm.run (record { nr = nr; arch = audit_arch_x86_64 }) a (build_filter l (some r))
          ≡ resolve_action l p.default_action
    run-build_filter-unnamed nr h =
        let (default, rules) = resolve_lem p resolved in
        let (skipped, fits) =
          verdict-unnamed nr h p.syscalls r.rules r.default_action
            (collect_map-eq-ok (resolve_rule l) p.syscalls rules) in
        run-build_filter-some l vm _ a r fits refl ∙ ap some skipped ∙ sym default

  -- On x86_64, the default program kills the process at each of the dangerous calls, and allows
  -- each other call of the table.
  pub run-build_filter-none-name :
      (vm : Vm l) (a : ℕ) (s : Syscall)
      → vm.run (record { nr = l.number s; arch = audit_arch_x86_64 }) a (build_filter l none)
        ≡ some (
            if contains (map name dangerous_syscalls) (name s)
            then l.seccomp_ret_kill_process
            else l.seccomp_ret_allow)
  run-build_filter-none-name vm a s =
      rw (← member-number s dangerous_syscalls)
        (run-build_filter-none l vm _ a (All-map-number dangerous_syscalls) refl)
