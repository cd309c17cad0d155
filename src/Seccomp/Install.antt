-- ===== src/Seccomp/Install.antt =====
-- The installation of the filter of src/seccomp.rs.
use boxed.Prelude.{◌%◌, ◌^◌, List, Option, length}
use boxed.Error.{failed_to_install_filter}
use boxed.Kernel.{Io, call, within, install_seccomp}
use boxed.Seccomp.Libc.{Libc}
use boxed.Seccomp.Profile.{ResolvedProfile}
use boxed.Seccomp.Filter.{SockFilter, build_filter}

-- The length is cut to 16 bits.
unfoldable pub install_filter : List SockFilter → Io (Unit {0})
install_filter prog =
    within failed_to_install_filter (call (install_seccomp (length prog % 2 ^ 16) prog))

unfoldable pub apply_default_filter : Libc → Option ResolvedProfile → Io (Unit {0})
apply_default_filter l profile = install_filter (build_filter l profile)
