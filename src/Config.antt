-- ===== src/Config.antt =====
-- src/config.rs: the directory of the configuration.
use boxed.Prelude.{Option, none, some}
use boxed.Text.{Text, codes, join_path}
use boxed.Error.{Result, ok, err, with_context, no_variable, home_is_not_set}
use boxed.Kernel.{Io, call, lift, pure, ask, ◌>>=◌, ◌>>◌, create_dir_all}

-- `env::var`
abbrev pub var : Option Text → Result Text
var none = err no_variable
var (some value) = ok value

unfoldable pub config_dir : Io Text
config_dir = do
  found ← ask (λ m. m.home)
  home ← lift (with_context home_is_not_set (var found))
  pure (join_path home (codes ".boxed"))

unfoldable pub create_config_dir : Io (Unit {0})
create_config_dir = do dir ← config_dir; call (create_dir_all dir); pure tt
