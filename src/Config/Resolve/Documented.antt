-- ===== src/Config/Resolve/Documented.antt =====
-- config.go: the layers that viper keeps, by its documentation, and what the table of settings has for a
-- key.
use cigar.Prelude.{◌≡◌, Bool, false, Option, none, some, List, [], ◌∷◌, if◌then◌else◌}
use cigar.Prelude.Result.{ok}
use cigar.Text.{Text, text_eq, to_lower}
use cigar.Config.Keys.{Setting}
use cigar.Config.Resolve.{Flag, Viper}

-- What viper holds for each key: a flag, the name of a variable, the text in the file, a default.
pub record Layers : Type 0 where
  pub flag : Text → Option Flag
  pub variable : Text → Option Text
  pub file : Text → Option Text
  pub default : Text → Option Text

-- Keys are the same whatever the case of their letters.
unfoldable pub same_key : Text → Text → Bool
same_key key j = text_eq (to_lower key) (to_lower j)

abbrev pub put : {A : Type 0} → Text → A → (Text → Option A) → Text → Option A
put key a m = λ j. if same_key key j then some a else m j

abbrev pub no_layers : Layers
no_layers = record { flag = λ j. none; variable = λ j. none; file = λ j. none; default = λ j. none }

abbrev pub or_text : Option Text → Text → Text
or_text none s = s
or_text (some t) s = t

abbrev pub unless_empty : Text → Text → Text
unless_empty [] s = s
unless_empty (c ∷ t) s = c ∷ t

-- A variable that is set and not empty.
abbrev pub of_variable : (Text → Text) → Option Text → Text → Text
of_variable env none s = s
of_variable env (some name) s = unless_empty (env name) s

abbrev pub if_changed : Option Flag → Text → Text
if_changed none s = s
if_changed (some fl) s = if fl.changed then fl.value else s

abbrev pub flag_default : Option Flag → Text
flag_default none = []
flag_default (some fl) = fl.value

-- Viper's documented order: a changed flag, a variable, the file, a default, the flag's own default.
abbrev pub found_in : (Text → Text) → Option Flag → Option Text → Option Text → Option Text → Text
found_in env flag variable file default =
    if_changed flag (of_variable env variable (or_text file (or_text default (flag_default flag))))

-- The documented behaviour of viper. A key is shadowed where a shorter one, which it extends by a dot,
-- has a flag, a variable or a value that is no table: then it has no value.
pub record Documented {E V : Type 0} (vp : Viper E V) (env : Text → Text) : Type 0 where
  pub layers : V → Layers
  pub shadowed : V → (key : Text) → Bool
  pub at_empty : layers vp.empty ≡ no_layers
  pub at_default :
      (key value : Text) (v : V)
      → layers (vp.set_default key value v)
        ≡ record (layers v) { default = put key value (layers v).default }
  pub at_env :
      (key name : Text) (v : V)
      → layers (vp.bind_env key name v)
        ≡ record (layers v) { variable = put key name (layers v).variable }
  pub at_flag :
      (key : Text) (fl : Flag) (v : V)
      → layers (vp.bind_flag key fl v) ≡ record (layers v) { flag = put key fl (layers v).flag }
  pub at_config_file : (path : Text) (v : V) → layers (vp.set_config_file path v) ≡ layers v
  pub at_config_name : (name : Text) (v : V) → layers (vp.set_config_name name v) ≡ layers v
  pub at_config_type : (type : Text) (v : V) → layers (vp.set_config_type type v) ≡ layers v
  pub at_config_path : (path : Text) (v : V) → layers (vp.add_config_path path v) ≡ layers v
  pub at_read :
      (v v' : V)
      → vp.read_in_config v ≡ ok v'
      → layers v' ≡ record (layers v) { file = (layers v').file }
  pub at_get :
      (v : V) (j : Text)
      → shadowed v j ≡ false
      → vp.get_string v j
        ≡ found_in env
            ((layers v).flag j)
            ((layers v).variable j)
            ((layers v).file j)
            ((layers v).default j)

abbrev pub first_some : {A : Type 0} → Option A → Option A → Option A
first_some none o = o
first_some (some a) o = some a

-- What the last setting with the key has.
unfoldable pub last_of : {A : Type 0} → (Setting → Option A) → List Setting → Text → Option A
last_of f [] j = none
last_of f (s ∷ rest) j = first_some (last_of f rest j) (if same_key s.key j then f s else none)
