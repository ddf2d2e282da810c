-- ===== src/Config/Resolve.antt =====
-- internal/config/config.go: `New`, `BindFlags`, `Resolve` and `readConfigFile`, which lay the command
-- line, the environment, a file and the defaults over each other. Viper and the flags of cobra are an
-- interface.
pub mod Documented
mod Tests
pub mod Loops
pub mod Layers
use cigar.Prelude.{Bool, true, false, Option, none, some, List, [], ◌∷◌, map, if◌then◌else◌}
use cigar.Prelude.Result.{Result, ok, err, ◌>>=◌}
use cigar.Text.{Text, codes, is_empty}
use cigar.Config.Keys.{Setting, settings, setting, env_name, flag_name}

-- A flag behind the parsing of the command line.
pub record Flag : Type 0 where
  pub value : Text
  pub changed : Bool

pub data ReadError (E : Type 0) : Type 0 where
  not_found : ReadError E
  unreadable : E → ReadError E

-- What the program calls of viper, on its state `V`.
pub record Viper (E V : Type 0) : Type 0 where
  pub empty : V
  pub set_default : (key value : Text) → V → V
  pub bind_env : (key name : Text) → V → V
  pub bind_flag : (key : Text) → Flag → V → V
  pub set_config_file : (path : Text) → V → V
  pub set_config_name : (name : Text) → V → V
  pub set_config_type : (type : Text) → V → V
  pub add_config_path : (path : Text) → V → V
  pub read_in_config : V → Result (ReadError E) V
  pub get_string : V → (key : Text) → Text

pub data ResolveError (E : Type 0) : Type 0 where
  file_failed : (path : Text) → ReadError E → ResolveError E
  search_failed : E → ResolveError E

-- `BindFlags`: the names, defaults and usages of the flags that it registers.
abbrev pub bound_flags : List Setting
bound_flags =
    setting (codes "config") [] (
      codes
        "config file path (default search: ./config.yaml then /etc/cigar/config.yaml; also $CIGAR_CONFIG)")
    ∷ map (λ (s : Setting). setting (flag_name s.key) s.default s.usage) settings

module _ {E V : Type 0} (vp : Viper E V) where
  -- The loop of `New`.
  unfoldable pub new_from : List Setting → V → V
  new_from [] v = v
  new_from (s ∷ rest) v =
      new_from rest (vp.bind_env s.key (env_name s.key) (vp.set_default s.key s.default v))

  abbrev pub new : V
  new = new_from settings vp.empty

  abbrev pub bind_or_not : Text → Option Flag → V → V
  bind_or_not key none v = v
  bind_or_not key (some fl) v = vp.bind_flag key fl v

  -- The loop of `Resolve`, with the lookup of a persistent flag.
  unfoldable pub bind_from : (Text → Option Flag) → List Setting → V → V
  bind_from lookup [] v = v
  bind_from lookup (s ∷ rest) v =
      bind_from lookup rest (bind_or_not s.key (lookup (flag_name s.key)) v)

  abbrev pub or_file_failed : Text → Result (ReadError E) V → Result (ResolveError E) V
  or_file_failed path (ok v) = ok v
  or_file_failed path (err e) = err (file_failed path e)

  -- A file that the search does not find may be missing.
  abbrev pub or_optional : V → Result (ReadError E) V → Result (ResolveError E) V
  or_optional old (ok v) = ok v
  or_optional old (err not_found) = ok old
  or_optional old (err (unreadable e)) = err (search_failed e)

  abbrev pub searched : V → V
  searched v = vp.add_config_path (codes "/etc/cigar") (
      vp.add_config_path (codes ".")
        (vp.set_config_type (codes "yaml") (vp.set_config_name (codes "config") v)))

  -- `readConfigFile`, with the value of the flag `config`.
  unfoldable pub read_config_file :
      (env : Text → Text) (flag : Text) → V → Result (ResolveError E) V
  read_config_file env flag v =
      let path = if is_empty flag then env (codes "CIGAR_CONFIG") else flag in
      if is_empty path
      then or_optional (searched v) (vp.read_in_config (searched v))
      else or_file_failed path (vp.read_in_config (vp.set_config_file path v))

  unfoldable pub resolve :
      (env : Text → Text) (flag : Text) (lookup : Text → Option Flag) → Result (ResolveError E) V
  resolve env flag lookup = read_config_file env flag (bind_from lookup settings new)
