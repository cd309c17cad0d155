-- ===== src/Display.antt =====
-- The texts of the errors: the format strings of the messages of src/*.rs, as the user and the unit
-- tests see them.
use boxed.Prelude.{ℕ, List, ◌++◌, Option, none, some, map}
use boxed.Text.{Text, codes}
use boxed.Text.Decimal.{to_string}
use boxed.Text.Split.{join}
use boxed.Types.{
  Capability, CapSet, bounding, effective, permitted, inheritable, Signal, sigint, sigterm, sighup,
}
use boxed.Error.{
  Message, Error, message, context, failed_to_read_profile, failed_to_parse_profile,
  profile_validation_failed, profile_not_x86_64, unknown_default_action, rule_without_names,
  rule_with_args, unknown_action, unknown_syscall, failed_to_install_filter,
  failed_to_make_root_private, failed_to_mount_onto_itself, failed_to_mount_proc,
  failed_to_change_directory, failed_to_pivot_root, failed_to_detach_old_root,
  failed_to_change_to_new_root, uid_is_sentinel, gid_is_sentinel, failed_to_open_setgroups,
  failed_to_disable_setgroups, failed_to_open_uid_map, failed_to_write_uid_mapping,
  failed_to_open_gid_map, failed_to_write_gid_mapping, io_max_without_colon, io_max_empty_device,
  io_max_without_limits, io_max_without_equals, io_max_unknown_key, io_max_bad_value,
  failed_to_stat, not_a_block_device, controller_not_available, failed_to_write_controller,
  failed_to_read_controllers, cpuset_rejected, cpuset_rejected_unreadable,
  failed_to_create_cgroup_root, failed_to_enable_controllers, failed_to_create_cgroup,
  failed_to_add_process, failed_to_remove_cgroup, failed_to_drop, failed_to_install_handler,
  failed_to_block_signals, failed_to_unblock_signals, waitpid_failed, no_children_left,
  failed_to_setup_overlay, failed_to_setup_rootfs_on_overlay, failed_to_setup_rootfs,
  received_closed_pipe, failed_to_read_sync_signal, failed_to_set_hostname,
  failed_to_drop_capabilities, failed_to_set_no_new_privs, failed_to_apply_filter,
  command_has_null_byte, failed_to_fork, clone_failed, failed_to_setup_forwarding,
  failed_to_signal_child, failed_to_create_pipe, unreachable_image_and_rootfs, home_is_not_set,
  no_layers_found, failed_to_make_removable,
}
use boxed.Cgroups.IoMax.{io_max_keys}
use boxed.Cgroups.Create.{cgroup_root}

-- `{:?}` of a string or a path, with its quotes and escapes, and of what `Types` leaves unnamed.
pub record Debug : Type 0 where
  pub text : Text → Text
  pub capability : Capability → Text
  pub signal : ℕ → Text

-- `{:?}` of a list of strings.
abbrev pub debug_list : Debug → List Text → Text
debug_list d ts = codes "[" ++ (join (codes ", ") (map d.text ts) ++ codes "]")

-- The name of the set in the message of src/capabilities.rs.
abbrev set_name : CapSet → Text
set_name bounding = codes "bounding"
set_name effective = codes "effective"
set_name permitted = codes "permitted"
set_name inheritable = codes "inheritable"

abbrev debug_signal : Debug → Signal → Text
debug_signal d sigint = codes "SIGINT"
debug_signal d sigterm = codes "SIGTERM"
debug_signal d sighup = codes "SIGHUP"
debug_signal d (Signal.other n) = d.signal n

-- src/seccomp.rs
unfoldable pub seccomp_text : Debug → Message → Option Text
seccomp_text d (failed_to_read_profile path) =
    some (codes "failed to read seccomp profile at " ++ path)
seccomp_text d (failed_to_parse_profile path) =
    some (codes "failed to parse seccomp profile at " ++ path)
seccomp_text d profile_validation_failed = some (codes "seccomp profile validation failed")
seccomp_text d profile_not_x86_64 =
    some (codes "profile does not target SCMP_ARCH_X86_64, the only architecture boxed supports")
seccomp_text d (unknown_default_action action) =
    some (codes "unknown or unsupported default action name: " ++ action)
seccomp_text d rule_without_names = some (codes "syscall rule must contain at least one name")
seccomp_text d (rule_with_args names) = some (
    codes "syscall rule for "
    ++ (debug_list d names ++ codes " uses arg-conditional matching, which isn't supported yet"))
seccomp_text d (unknown_action action) =
    some (codes "unknown or unsupported action name: " ++ action)
seccomp_text d (unknown_syscall name) = some (codes "unknown or unsupported syscall name: " ++ name)
seccomp_text d failed_to_install_filter = some (codes "failed to install seccomp filter")
seccomp_text d _ = none

-- src/rootfs.rs
unfoldable pub rootfs_text : Debug → Message → Option Text
rootfs_text d failed_to_make_root_private = some (codes "failed to make / private")
rootfs_text d (failed_to_mount_onto_itself path) =
    some (codes "failed to mount " ++ (path ++ codes " onto itself"))
rootfs_text d (failed_to_mount_proc path) = some (codes "failed to mount proc on " ++ path)
rootfs_text d (failed_to_change_directory path) =
    some (codes "failed to change directory to " ++ path)
rootfs_text d (failed_to_pivot_root path) = some (codes "failed to pivot_root into " ++ path)
rootfs_text d failed_to_detach_old_root = some (codes "failed to detach old root")
rootfs_text d failed_to_change_to_new_root = some (codes "failed to change directory to new root")
rootfs_text d _ = none

-- src/rootless.rs
unfoldable pub rootless_text : Debug → Message → Option Text
rootless_text d (uid_is_sentinel want) = some (
    codes "cannot map inside uid "
    ++ (to_string want
        ++ codes ": collides with the POSIX (uid_t)-1 sentinel for \"unchanged/invalid\""))
rootless_text d (gid_is_sentinel want) = some (
    codes "cannot map inside gid "
    ++ (to_string want
        ++ codes ": collides with the POSIX (gid_t)-1 sentinel for \"unchanged/invalid\""))
rootless_text d (failed_to_open_setgroups pid) =
    some (codes "failed to open setgroups file for pid " ++ to_string pid)
rootless_text d (failed_to_disable_setgroups pid) = some (
    codes "failed to disable setgroups for pid "
    ++ (to_string pid ++ codes " (required before gid_map can be written)"))
rootless_text d (failed_to_open_uid_map pid) =
    some (codes "failed to open uid_map for pid " ++ to_string pid)
rootless_text d (failed_to_write_uid_mapping mapping pid) =
    some
      (codes "failed to write uid mapping '" ++ (mapping ++ (codes "' for pid " ++ to_string pid)))
rootless_text d (failed_to_open_gid_map pid) =
    some (codes "failed to open gid_map for pid " ++ to_string pid)
rootless_text d (failed_to_write_gid_mapping mapping pid) =
    some
      (codes "failed to write gid mapping '" ++ (mapping ++ (codes "' for pid " ++ to_string pid)))
rootless_text d _ = none

-- src/cgroups.rs
unfoldable pub cgroups_text : Debug → Message → Option Text
cgroups_text d (io_max_without_colon spec) = some (
    codes "invalid --io-max "
    ++ (d.text spec ++ codes ": expected DEVICE:KEY=VALUE, e.g. /dev/sda:wbps=1048576"))
cgroups_text d (io_max_empty_device spec) =
    some (codes "invalid --io-max " ++ (d.text spec ++ codes ": device path is empty"))
cgroups_text d (io_max_without_limits spec) =
    some (codes "invalid --io-max " ++ (d.text spec ++ codes ": no limits given after ':'"))
cgroups_text d (io_max_without_equals pair) =
    some (codes "invalid --io-max entry " ++ (d.text pair ++ codes ": expected KEY=VALUE"))
cgroups_text d (io_max_unknown_key key) = some (
    codes "invalid --io-max key "
    ++ (d.text key ++ (codes ": expected one of " ++ join (codes ", ") io_max_keys)))
cgroups_text d (io_max_bad_value value key) =
    some (codes "invalid --io-max value " ++ (d.text value ++ (codes " for " ++ key)))
cgroups_text d (failed_to_stat path) = some (codes "failed to stat " ++ path)
cgroups_text d (not_a_block_device path) = some (path ++ codes " is not a block device")
cgroups_text d (controller_not_available flag name available) = some (
    flag
    ++ (codes " requested, but the `"
        ++ (name
            ++ (codes "` controller is not available to "
                ++ (cgroup_root ++ (codes " — it lists only: " ++ join (codes " ") available))))))
cgroups_text d (failed_to_write_controller filename) = some (codes "failed to write " ++ filename)
cgroups_text d (failed_to_read_controllers path) = some (codes "failed to read " ++ path)
cgroups_text d (cpuset_rejected cpuset_type value dir allowed) = some (
    codes "--cpuset-"
    ++ (cpuset_type
        ++ (codes " "
            ++ (d.text value
                ++ (codes " was rejected; " ++ (dir ++ (codes " allows " ++ allowed)))))))
cgroups_text d (cpuset_rejected_unreadable cpuset_type value file) = some (
    codes "--cpuset-"
    ++ (cpuset_type
        ++ (codes " "
            ++ (d.text value
                ++ (codes " was rejected, and " ++ (file ++ codes " could not be read"))))))
cgroups_text d failed_to_create_cgroup_root = some (codes "failed to create boxed cgroup dir")
cgroups_text d (failed_to_enable_controllers line path) =
    some (codes "failed to write " ++ (d.text line ++ (codes " to " ++ path)))
cgroups_text d (failed_to_create_cgroup path) =
    some (codes "failed to create cgroup dir at " ++ d.text path)
cgroups_text d failed_to_add_process = some (codes "failed to add process to cgroup")
cgroups_text d (failed_to_remove_cgroup path) =
    some (codes "failed to remove cgroup at " ++ d.text path)
cgroups_text d _ = none

-- src/capabilities.rs
unfoldable pub capabilities_text : Debug → Message → Option Text
capabilities_text d (failed_to_drop c set) = some (
    codes "failed to drop "
    ++ (d.capability c ++ (codes " from " ++ (set_name set ++ codes " set"))))
capabilities_text d _ = none

-- src/process.rs
unfoldable pub process_text : Debug → Message → Option Text
process_text d (failed_to_install_handler sig) =
    some (codes "failed to install handler for " ++ debug_signal d sig)
process_text d failed_to_block_signals = some (codes "failed to block forwarded signals")
process_text d failed_to_unblock_signals = some (codes "failed to unblock forwarded signals")
process_text d waitpid_failed = some (codes "waitpid failed")
process_text d (no_children_left pid) =
    some (codes "no children left while waiting for pid " ++ to_string pid)
process_text d _ = none

-- src/namespace.rs
unfoldable pub namespace_text : Debug → Message → Option Text
namespace_text d (failed_to_setup_overlay image) =
    some (codes "Failed to setup overlay on " ++ image)
namespace_text d (failed_to_setup_rootfs_on_overlay path) =
    some (codes "Failed to setup rootfs on overlay merged path " ++ path)
namespace_text d (failed_to_setup_rootfs rootfs) =
    some (codes "Failed to setup rootfs on " ++ rootfs)
namespace_text d received_closed_pipe =
    some (codes "received 0 byte from parent process, indicating closed pipe")
namespace_text d failed_to_read_sync_signal = some (codes "failed to read sync signal from parent")
namespace_text d failed_to_set_hostname = some (codes "failed to set hostname")
namespace_text d failed_to_drop_capabilities = some (codes "failed to drop capabilities")
namespace_text d failed_to_set_no_new_privs =
    some (codes "failed to set no_new_privs for child process")
namespace_text d failed_to_apply_filter = some (codes "failed to apply default seccomp filters")
namespace_text d command_has_null_byte = some (codes "command contains an embedded null byte")
namespace_text d failed_to_fork = some (codes "failed to fork container command")
namespace_text d clone_failed = some (codes "clone failed")
namespace_text d failed_to_setup_forwarding = some (codes "failed to setup up signal forwarding")
namespace_text d failed_to_signal_child = some (codes "failed to signal child to proceed")
namespace_text d failed_to_create_pipe = some (codes "failed to create parent-child sync pipe")
namespace_text d unreachable_image_and_rootfs = some (
    codes
      "internal error: entered unreachable code: clap guarantees --image and --rootfs are mutually exclusive")
namespace_text d _ = none

-- src/config.rs
unfoldable pub config_text : Debug → Message → Option Text
config_text d home_is_not_set = some (codes "HOME environment variable is not set")
config_text d _ = none

-- src/overlay.rs
unfoldable pub overlay_text : Debug → Message → Option Text
overlay_text d (no_layers_found path) = some (codes "no layers found under " ++ path)
overlay_text d (failed_to_make_removable path) =
    some (codes "failed to make " ++ (path ++ codes " removable"))
overlay_text d _ = none

abbrev or_else : Option Text → Option Text → Option Text
or_else none other = other
or_else (some t) other = some t

-- The text of a message, which stands in one of the files.
unfoldable pub message_text : Debug → Message → Option Text
unfolding seccomp_text rootfs_text rootless_text cgroups_text capabilities_text process_text
    namespace_text config_text overlay_text
message_text d m = or_else (seccomp_text d m) (
    or_else (rootfs_text d m) (
      or_else (rootless_text d m) (
        or_else (cgroups_text d m) (
          or_else (capabilities_text d m) (
            or_else (process_text d m)
              (or_else (namespace_text d m) (or_else (config_text d m) (overlay_text d m))))))))

-- `to_string` of an error: its outermost message, if that is one of the program's.
abbrev pub error_text : Debug → Error → Option Text
error_text d (message m) = message_text d m
error_text d (context m e) = message_text d m
error_text d _ = none
