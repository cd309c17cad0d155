-- ===== src/Seccomp/Verdict.antt =====
-- What the built filter decides: the program of `build_filter` against a direct description.
use boxed.Prelude.{
  ℕ, ◌≡◌, refl, ◌≢◌, ◌%◌, ◌^◌, ◌<◌, Bool, false, ◌||◌, List, [], ◌∷◌, ◌++◌, append_assoc,
  append-nil, sym, Option, none, some, arith, ◌==◌, if◌then◌else◌, All, ◌∙◌, map, Bool-cases,
  ==_iff, inl, inr,
}
use boxed.Seccomp.Libc.{Libc}
use boxed.Seccomp.Syscalls.{Syscall, dangerous_syscalls}
use boxed.Seccomp.Profile.{ResolveRule, ResolvedProfile}
use boxed.Seccomp.Filter.{
  SockFilter, audit_arch_x86_64, stmt, jump, jump_eq, return_k, initialize_filters, push_pair,
  push_numbers, push_rules, push_dangerous, build_filter,
}
use boxed.Seccomp.Vm.{SeccompData, Vm}

abbrev pub member : ℕ → List ℕ → Bool
member nr [] = false
member nr (n ∷ ns) = nr == n || member nr ns

-- The action of the first rule that lists the number, or the default.
unfoldable pub rules_verdict : ℕ → List ResolveRule → ℕ → ℕ
rules_verdict nr [] d = d
rules_verdict nr (r ∷ rs) d = if member nr r.numbers then r.action else rules_verdict nr rs d

abbrev pub Fits : ℕ → Type 0
Fits n = n < 2 ^ 32

abbrev pub RuleFits : ResolveRule → Type 0
RuleFits r = All Fits r.numbers

module _ (l : Libc) where
  pairs : ℕ → List ℕ → List SockFilter
  pairs action [] = []
  pairs action (nr ∷ ns) =
      jump (jump_eq l) 0 1 (nr % 2 ^ 32) ∷ stmt (return_k l) action ∷ pairs action ns

  rule_pairs : List ResolveRule → List SockFilter
  rule_pairs [] = []
  rule_pairs (r ∷ rs) = pairs r.action r.numbers ++ rule_pairs rs

  push_numbers-eq-pairs :
      (prog : List SockFilter) (action : ℕ) (ns : List ℕ)
      → push_numbers l prog action ns ≡ prog ++ pairs action ns
  unfolding push_numbers pairs
  push_numbers-eq-pairs prog action [] = sym (append-nil prog)
  push_numbers-eq-pairs prog action (nr ∷ ns) =
      push_numbers-eq-pairs (push_pair l prog nr action) action ns ∙ rw append_assoc

  push_rules-eq-pairs :
      (prog : List SockFilter) (rs : List ResolveRule)
      → push_rules l prog rs ≡ prog ++ rule_pairs rs
  unfolding push_rules rule_pairs
  push_rules-eq-pairs prog [] = sym (append-nil prog)
  push_rules-eq-pairs prog (r ∷ rs) =
      push_rules-eq-pairs (push_numbers l prog r.action r.numbers) rs
      ∙ rw (push_numbers-eq-pairs, append_assoc)

  push_dangerous-eq-pairs :
      (prog : List SockFilter) (ss : List Syscall)
      → push_dangerous l prog ss ≡ prog ++ pairs l.seccomp_ret_kill_process (map l.number ss)
  unfolding push_dangerous pairs
  push_dangerous-eq-pairs prog [] = sym (append-nil prog)
  push_dangerous-eq-pairs prog (s ∷ ss) =
      push_dangerous-eq-pairs (push_pair l prog (l.number s) l.seccomp_ret_kill_process) ss
      ∙ rw append_assoc

  module _ (vm : Vm l) (d : SeccompData) where
    run-pairs :
        (action : ℕ) (ns : List ℕ) (rest : List SockFilter)
        → All Fits ns
        → vm.run d d.nr (pairs action ns ++ rest)
          ≡ (if member d.nr ns then some action else vm.run d d.nr rest)
    unfolding pairs
    run-pairs action [] rest h = refl
    run-pairs action (n ∷ ns) rest (h, hs) = rw vm.run-jump_eq (
        ground (
          arith,
          vm.run-return_k d d.nr action (pairs action ns ++ rest),
          run-pairs action ns rest hs,
        ))

    run-rule_pairs :
        (rs : List ResolveRule) (default : ℕ)
        → All RuleFits rs
        → vm.run d d.nr (rule_pairs rs ++ stmt (return_k l) default ∷ [])
          ≡ some (rules_verdict d.nr rs default)
    unfolding rule_pairs rules_verdict
    run-rule_pairs [] default h = vm.run-return_k d d.nr default []
    run-rule_pairs (r ∷ rs) default (h, hs) =
        rw (append_assoc, run-pairs r.action r.numbers _ h)
          (ground (arith, run-rule_pairs rs default hs))

    -- The gate of four instructions in front of every program.
    run-initialize_filters :
        (a : ℕ) (p : List SockFilter)
        → vm.run d a (initialize_filters l ++ p) ≡ (
            if d.arch == audit_arch_x86_64
            then vm.run d d.nr p
            else some l.seccomp_ret_kill_process)
    unfolding initialize_filters
    run-initialize_filters a p =
        rw (vm.run-load_arch, vm.run-jump_eq)
          (elim (Bool-cases (d.arch == audit_arch_x86_64)) [
            | inl same ↦ rw same (vm.run-load_nr d d.arch p)
            | inr other ↦ rw other (vm.run-return_k d d.arch l.seccomp_ret_kill_process _)
          ])

    -- On x86_64, the program of a profile returns the action of the first rule that lists the
    -- number of the call, and the default action if no rule does.
    pub run-build_filter-some :
        (a : ℕ) (profile : ResolvedProfile)
        → All RuleFits profile.rules
        → d.arch ≡ audit_arch_x86_64
        → vm.run d a (build_filter l (some profile))
          ≡ some (rules_verdict d.nr profile.rules profile.default_action)
    unfolding build_filter
    run-build_filter-some a profile fits arch =
        rw (push_rules-eq-pairs, append_assoc, run-initialize_filters)
          (ground (arith, run-rule_pairs profile.rules profile.default_action fits))

    -- Under another architecture every program returns KILL_PROCESS.
    pub run-build_filter_arch :
        (a : ℕ) (profile : Option ResolvedProfile)
        → d.arch ≢ audit_arch_x86_64
        → vm.run d a (build_filter l profile) ≡ some l.seccomp_ret_kill_process
    unfolding build_filter
    run-build_filter_arch a (some profile) arch =
        rw (push_rules-eq-pairs, append_assoc, run-initialize_filters) (ground arith)
    run-build_filter_arch a none arch =
        rw (push_dangerous-eq-pairs, append_assoc, run-initialize_filters) (ground arith)

    -- On x86_64, the default program kills the process at the numbers of the dangerous calls, and
    -- allows all other calls.
    pub run-build_filter-none :
        (a : ℕ)
        → All Fits (map l.number dangerous_syscalls)
        → d.arch ≡ audit_arch_x86_64
        → vm.run d a (build_filter l none)
          ≡ some (
              if member d.nr (map l.number dangerous_syscalls)
              then l.seccomp_ret_kill_process
              else l.seccomp_ret_allow)
    unfolding build_filter
    run-build_filter-none a fits arch =
        rw (push_dangerous-eq-pairs, append_assoc, run-initialize_filters)
          (rw ((==_iff _ _).1 arch, run-pairs _ _ _ fits)
            (elim (Bool-cases (member d.nr (map l.number dangerous_syscalls))) [
              | inl listed ↦ rw listed
              | inr free ↦ rw free (vm.run-return_k d d.nr l.seccomp_ret_allow [])
            ]))
