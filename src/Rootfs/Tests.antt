-- ===== src/Rootfs/Tests.antt =====
-- The theorems on src/rootfs.rs at inputs.
use boxed.Text.{codes}
use boxed.Kernel.Script.{Runs}
use boxed.Kernel.Sample.{granting}
use boxed.Rootfs.{setup, setup_steps, setup-Runs}

setup-Runs_example : Runs granting (setup (codes "/srv/root")) (setup_steps (codes "/srv/root"))
setup-Runs_example = setup-Runs granting (codes "/srv/root")
