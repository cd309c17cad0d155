-- ===== src/Rootless/Tests.antt =====
-- The theorems on src/rootless.rs at inputs.
use boxed.Prelude.{true}
use boxed.Kernel.Script.{Runs}
use boxed.Kernel.Sample.{granting}
use boxed.Rootless.{RootlessConfig, setup_mappings, setup_mappings_steps, setup_mappings-Runs}

abbrev config : RootlessConfig
config = record { enabled = true; uid = 0; gid = 5 }

setup_mappings-Runs_example :
    Runs granting (setup_mappings config 41) (setup_mappings_steps 1000 1000 41 config)
setup_mappings-Runs_example = setup_mappings-Runs granting 41 config
