-- ===== src/Seccomp/Vm.antt =====
-- The kernel's evaluation of a seccomp program, for the three kinds of instruction that
-- src/seccomp.rs emits. It is a parameter of the model; the laws are those of seccomp(2).
use boxed.Prelude.{ℕ, ◌≡◌, ◌%◌, ◌^◌, List, ◌∷◌, Option, some, ◌==◌, if◌then◌else◌, drop}
use boxed.Seccomp.Libc.{Libc}
use boxed.Seccomp.Filter.{SockFilter, stmt, jump, load_word, jump_eq, return_k}

-- The fields of `seccomp_data` that a program of src/seccomp.rs loads.
pub record SeccompData : Type 0 where
  pub nr : ℕ
  pub arch : ℕ

-- `run d a p` is the value that the instructions `p` return on `d`, from the accumulator `a`.
-- Jumps go forward, so the instructions left are a part of the program.
pub record Vm (l : Libc) : Type 0 where
  pub run : SeccompData → ℕ → List SockFilter → Option ℕ
  pub run-load_arch :
      (d : SeccompData) (a : ℕ) (p : List SockFilter)
      → run d a (stmt (load_word l) (l.offset_arch % 2 ^ 32) ∷ p) ≡ run d d.arch p
  pub run-load_nr :
      (d : SeccompData) (a : ℕ) (p : List SockFilter)
      → run d a (stmt (load_word l) (l.offset_nr % 2 ^ 32) ∷ p) ≡ run d d.nr p
  pub run-jump_eq :
      (d : SeccompData) (a jt jf k : ℕ) (p : List SockFilter)
      → run d a (jump (jump_eq l) jt jf k ∷ p) ≡ run d a (drop (if a == k then jt else jf) p)
  pub run-return_k :
      (d : SeccompData) (a k : ℕ) (p : List SockFilter) → run d a (stmt (return_k l) k ∷ p) ≡ some k
