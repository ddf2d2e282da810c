-- ===== src/Config/Resolve/Tests.antt =====
-- A viper of layers, and one deployment: a flag, a variable and a file.
use cigar.Prelude.{◌≡◌, refl, true, false, Option, none, some, [], if◌then◌else◌}
use cigar.Prelude.Result.{ok}
use cigar.Text.{Text, codes, text_eq, lower}
use cigar.Config.Keys.{settings, env_name, flag_name}
use cigar.Config.Resolve.{Flag, Viper, new_from, bind_from, read_config_file, resolve}
use cigar.Config.Resolve.Documented.{
  Layers, same_key, no_layers, put, found_in, Documented, last_of,
}
use cigar.Config.Resolve.Layers.{resolve-Layered}

abbrev variables : Text → Text
variables name = if text_eq name (codes "POD_RESOLVER") then codes "prometheus" else codes ""

abbrev in_file : Text → Option Text
in_file key =
    if text_eq key (codes "pod_resolver")
    then some (codes "trace")
    else if text_eq key (codes "gitlab.url")
    then some (codes "https://gitlab.example")
    else none

abbrev flags : Text → Option Flag
flags name =
    if text_eq name (codes "log-level")
    then some (record { value = codes "debug"; changed = true })
    else some (record { value = codes ""; changed = false })

abbrev layered : Viper Text Layers
layered = record {
  empty = no_layers;
  set_default = λ key value v. record v { default = put key value v.default };
  bind_env = λ key name v. record v { variable = put key name v.variable };
  bind_flag = λ key fl v. record v { flag = put key fl v.flag };
  set_config_file = λ path v. v;
  set_config_name = λ name v. v;
  set_config_type = λ type v. v;
  add_config_path = λ path v. v;
  read_in_config = λ v. ok (record v { file = in_file });
  get_string = λ v j. found_in variables (v.flag j) (v.variable j) (v.file j) (v.default j);
}

layered-Documented : Documented layered variables
layered-Documented = record {
  layers = λ v. v;
  shadowed = λ v j. false;
  at_empty = refl;
  at_default = λ key value v. refl;
  at_env = λ key name v. refl;
  at_flag = λ key fl v. refl;
  at_config_file = λ path v. refl;
  at_config_name = λ name v. refl;
  at_config_type = λ type v. refl;
  at_config_path = λ path v. refl;
  at_read = λ v v' h. let same : record v { file = in_file } ≡ v' = cc in rw (← same) refl;
  at_get = λ v j clear. refl;
}

abbrev resolved : Layers
resolved = record (bind_from layered flags settings (new_from layered settings no_layers)) {
  file = in_file;
}

resolve-ok : resolve layered variables [] flags ≡ ok resolved
unfolding resolve read_config_file text_eq same_key lower
resolve-ok = refl

resolve-Layered_example :
    layered.get_string resolved (codes "pod_resolver")
    ≡ found_in variables
        (last_of (λ s. flags (flag_name s.key)) settings (codes "pod_resolver"))
        (last_of (λ s. some (env_name s.key)) settings (codes "pod_resolver"))
        (in_file (codes "pod_resolver"))
        (last_of (λ s. some s.default) settings (codes "pod_resolver"))
unfolding text_eq same_key lower layered-Documented
resolve-Layered_example =
    resolve-Layered layered variables layered-Documented [] flags resolved resolve-ok
      (codes "pod_resolver") refl

-- The variable wins over the file, the file over the default, and the flag over all.
from_variable : layered.get_string resolved (codes "pod_resolver") ≡ codes "prometheus"
unfolding bind_from new_from env_name flag_name text_eq same_key lower last_of
from_variable = refl

from_file : layered.get_string resolved (codes "gitlab.url") ≡ codes "https://gitlab.example"
unfolding bind_from new_from env_name flag_name text_eq same_key lower last_of
from_file = refl

from_flag : layered.get_string resolved (codes "log.level") ≡ codes "debug"
unfolding bind_from new_from env_name flag_name text_eq same_key lower last_of
from_flag = refl

from_default : layered.get_string resolved (codes "server.ops_addr") ≡ codes ":8081"
unfolding bind_from new_from env_name flag_name text_eq same_key lower last_of
from_default = refl
