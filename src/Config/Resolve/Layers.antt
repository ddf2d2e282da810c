-- ===== src/Config/Resolve/Layers.antt =====
-- config.go: which layer a setting comes from.
use cigar.Prelude.{◌≡◌, refl, false, Option, none, some, if◌then◌else◌, Bool-cases, inl, inr}
use cigar.Prelude.Result.{Result, ok, err}
use cigar.Text.{Text, codes, is_empty}
use cigar.Config.Keys.{settings, env_name, flag_name}
use cigar.Config.Resolve.{
  Flag, Viper, ReadError, not_found, unreadable, new, bind_from, or_file_failed, or_optional,
  searched, read_config_file, resolve,
}
use cigar.Config.Resolve.Documented.{found_in, Documented, last_of}
use cigar.Config.Resolve.Loops.{
  first_some-none, Kept, new_from-default, new_from-variable, new_from-flag, bind_from-flag,
  bind_from-Kept,
}

module _ {E V : Type 0} (vp : Viper E V) (env : Text → Text) (doc : Documented vp env) where
  -- A file changes its own layer alone.
  record FileOnly (v v' : V) : Type 0 where
    kept : Kept vp env doc v v'
    flag : (doc.layers v').flag ≡ (doc.layers v).flag

  read_in_config-FileOnly :
      (old v v' : V) → doc.layers v ≡ doc.layers old → vp.read_in_config v ≡ ok v' → FileOnly old v'
  read_in_config-FileOnly old v v' same h = record {
    kept = record {
      variable = rw (doc.at_read v v' h, same) refl;
      default = rw (doc.at_read v v' h, same) refl;
    };
    flag = rw (doc.at_read v v' h, same) refl;
  }

  searched-same : (v : V) → doc.layers (searched vp v) ≡ doc.layers v
  searched-same v =
      rw
        (
          doc.at_config_path (codes "/etc/cigar") _,
          doc.at_config_path (codes ".") _,
          doc.at_config_type (codes "yaml") _,
          doc.at_config_name (codes "config") v,
        )
        refl

  or_optional-FileOnly :
      (old v v' : V) (o : Result (ReadError E) V)
      → doc.layers v ≡ doc.layers old
      → vp.read_in_config v ≡ o
      → or_optional vp v o ≡ ok v'
      → FileOnly old v'
  or_optional-FileOnly old v v' (ok w) same e h =
      let e' : vp.read_in_config v ≡ ok v' = cc in read_in_config-FileOnly old v v' same e'
  or_optional-FileOnly old v v' (err not_found) same e h =
      let same' : doc.layers v' ≡ doc.layers old = cc in
      record {
        kept = record { variable = rw same' refl; default = rw same' refl };
        flag = rw same' refl;
      }
  or_optional-FileOnly old v v' (err (unreadable x)) same e h = cc

  or_file_failed-FileOnly :
      (path : Text) (old v v' : V) (o : Result (ReadError E) V)
      → doc.layers v ≡ doc.layers old
      → vp.read_in_config v ≡ o
      → or_file_failed vp path o ≡ ok v'
      → FileOnly old v'
  or_file_failed-FileOnly path old v v' (ok w) same e h =
      let e' : vp.read_in_config v ≡ ok v' = cc in read_in_config-FileOnly old v v' same e'
  or_file_failed-FileOnly path old v v' (err x) same e h = cc

  read_config_file-FileOnly :
      (flag : Text) (v v' : V) → read_config_file vp env flag v ≡ ok v' → FileOnly v v'
  unfolding read_config_file
  read_config_file-FileOnly flag v v' =
      elim (Bool-cases (is_empty (if is_empty flag then env (codes "CIGAR_CONFIG") else flag))) [
        | inl search ↦ rw search (
            or_optional-FileOnly v (searched vp v) v' (vp.read_in_config (searched vp v))
              (searched-same v) refl)
        | inr given ↦ rw given (
            or_file_failed-FileOnly _ v (vp.set_config_file _ v) v' (vp.read_in_config _)
              (doc.at_config_file _ v) refl)
      ]

  new-Layers :
      (j : Text)
      → ((doc.layers (new vp)).default j ≡ last_of (λ s. some s.default) settings j)
        × ((doc.layers (new vp)).variable j ≡ last_of (λ s. some (env_name s.key)) settings j)
  new-Layers j = (
    rw (new_from-default vp env doc settings vp.empty j, doc.at_empty) (first_some-none _),
    rw (new_from-variable vp env doc settings vp.empty j, doc.at_empty) (first_some-none _),
  )

  new-flag : (j : Text) → (doc.layers (new vp)).flag j ≡ none
  new-flag j = rw (new_from-flag vp env doc settings vp.empty, doc.at_empty) refl

  -- Where `Resolve` succeeds, a key that no shorter key shadows, its letters in any case, has the
  -- value of its setting's flag if the command line changes that, else its variable if that is not
  -- empty, else what the file has, else its default, and the flag's own default where there is none of
  -- these. The flag, the variable and the default are those that the table of settings has for the key.
  -- Viper is as documented.
  pub resolve-Layered :
      (flag : Text) (lookup : Text → Option Flag) (v' : V)
      → resolve vp env flag lookup ≡ ok v'
      → (j : Text) → doc.shadowed v' j ≡ false
      → vp.get_string v' j
        ≡ found_in env
            (last_of (λ s. lookup (flag_name s.key)) settings j)
            (last_of (λ s. some (env_name s.key)) settings j)
            ((doc.layers v').file j)
            (last_of (λ s. some s.default) settings j)
  unfolding resolve
  resolve-Layered flag lookup v' h j clear =
      let read = read_config_file-FileOnly flag (bind_from vp lookup settings (new vp)) v' h in
      let bound = bind_from-Kept vp env doc lookup settings (new vp) in
      let (d, w) = new-Layers j in
      rw
        (
          doc.at_get v' j clear,
          read.flag,
          read.kept.variable,
          read.kept.default,
          bound.variable,
          bound.default,
          d,
          w,
          bind_from-flag vp env doc lookup settings (new vp) j,
          new-flag j,
          first_some-none (last_of (λ s. lookup (flag_name s.key)) settings j),
        )
        refl
