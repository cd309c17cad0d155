-- ===== src/Lib.antt =====
-- boxed, a container runtime of one binary (src/*.rs): it clones a process into new namespaces,
-- confines it, and waits for it.
--
-- Parts, in the order of a run. `main` (src/main.rs) reads the options. `SeccompProfile`
-- (src/seccomp.rs) turns a profile into system call numbers and actions. `run_in_namespace`
-- (src/namespace.rs) clones the child; the parent maps the ids of a rootless child
-- (src/rootless.rs), puts it into a cgroup (src/cgroups.rs), installs signal forwarding
-- (src/process.rs) and lets the child go on through a pipe; the child mounts its root
-- (src/overlay.rs, src/rootfs.rs), drops capabilities (src/capabilities.rs), installs the BPF
-- filter and runs the command.
--
-- Files. Prelude, Prelude/*: lists, Booleans and numbers. Text, Text/*: strings as lists of code
-- points, with the functions of the standard library that the program calls. Types: the types of
-- nix, libc and caps. Error: `anyhow` errors, with one constructor for each message text. Kernel:
-- the system calls as data, a `Machine` that answers each from the calls made so far, and `Io`, a
-- computation on them; Kernel/Script, Kernel/Makes, Kernel/Fails, Kernel/Ensures and Kernel/Heeds:
-- reasoning about `Io`; Kernel/Sample: a machine for the tests. Seccomp/Syscalls, Seccomp/Profile,
-- Seccomp/Filter: src/seccomp.rs, `resolve`, `build_filter` and the tables; Seccomp/Libc,
-- Seccomp/Vm: libc's numbers and the BPF machine as parameters; Seccomp/Names, Seccomp/Verdict,
-- Seccomp/Supported, Seccomp/Faults: the theorems; Seccomp/Linux: an instance of the parameters for
-- the tests. Cgroups/Config, Cgroups/IoMax, Cgroups/Controllers, Cgroups/Create and their children:
-- src/cgroups.rs. Rootless: src/rootless.rs. Rootfs: src/rootfs.rs. Capabilities:
-- src/capabilities.rs. Process, Process/Wait, Process/Returns: src/process.rs, with the loops on
-- waitpid; Process/Signals and its files: signals that reach the shim while it starts to forward
-- them. Overlay, Overlay/*: src/overlay.rs. Namespace, Namespace/Enter, Namespace/Command: the
-- child of src/namespace.rs; Namespace/Shim, Namespace/Shim/Returns: the parent of the command in
-- it; Namespace/Watch: its start of the forwarding of signals; Namespace/Joins: its cgroup;
-- Namespace/Run, Namespace/Run/*: the parent, `run_in_namespace`, alone and together with the
-- child; Namespace/Sync: the handshake of the two, as steps that interleave, where a wait that is
-- interrupted is no step of its own. Config: src/config.rs. Main, Main/Loads, Main/Checks,
-- Main/Filter, Main/Typos: src/main.rs, up to the filter that the command runs under. Seccomp/Load:
-- `SeccompProfile::from_file`; Seccomp/Length: the length of the program. Display: the texts of the
-- errors; Asserts: what a unit test asserts. The Unit modules, and Seccomp/TableUnit, hold the unit
-- tests of the sources under their names; the Tests modules hold the theorems at inputs.
--
-- Parameters. The numbers of libc and the machine that runs a BPF program are interfaces whose laws
-- are the documented ones. A `Machine` is arbitrary: no theorem assumes how the system answers
-- unless it says so. Paths and strings are lists of code points; a path that is not UTF-8 is not
-- modelled. Log lines are not calls of the model. What `{:?}` prints of a text is a function,
-- `Debug`. The parser of serde_json is a function from texts to profiles or errors. The options of
-- `boxed run` are what clap gives. Numbers of processes and exit codes are natural numbers; the
-- fuel of a loop on waitpid bounds its turns, and no fixed amount would be enough, since the system
-- may interrupt the call any number of times; if it interrupts at most n, then n + 1 turns are. The
-- sync pipe holds a number of bytes, and a read of it blocks as pipe(7) says; signals are held and
-- delivered as signal(7) says.
--
-- Not modelled: the parsing of the command line by clap, the parsing of JSON by serde_json, log
-- lines, the unit tests of src/process.rs that fork twice or ask whether a child still runs, and
-- the tests that run the binary.
pub mod Prelude
pub mod Text
pub mod Types
pub mod Error
pub mod Rootfs
pub mod Rootless
pub mod Capabilities
pub mod Cgroups
pub mod Kernel
pub mod Seccomp
pub mod Process
pub mod Namespace
pub mod Overlay
pub mod Config
pub mod Display
pub mod Asserts
pub mod Main
