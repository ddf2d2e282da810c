-- ===== src/Config/Resolve/Loops.antt =====
-- config.go: the layers behind the loops over the settings.
use cigar.Prelude.{
  ◌≡◌, refl, ◌∙◌, Option, none, some, List, [], ◌∷◌, if◌then◌else◌, Bool-cases, inl, inr,
}
use cigar.Text.{Text}
use cigar.Config.Keys.{Setting, env_name, flag_name}
use cigar.Config.Resolve.{Flag, Viper, new_from, bind_or_not, bind_from}
use cigar.Config.Resolve.Documented.{same_key, put, Documented, first_some, last_of}

first_some_assoc :
    {A : Type 0} (o p q : Option A) → first_some o (first_some p q) ≡ first_some (first_some o p) q
first_some_assoc none p q = refl
first_some_assoc (some a) p q = refl

pub first_some-none : {A : Type 0} (o : Option A) → first_some o none ≡ o
first_some-none none = refl
first_some-none (some a) = refl

-- One more setting in front.
last_of-put :
    {A : Type 0} (f : Setting → Option A) (s : Setting) (rest : List Setting) (j : Text) (a : A)
    (m : Text → Option A)
    → f s ≡ some a
    → first_some (last_of f rest j) (put s.key a m j) ≡ first_some (last_of f (s ∷ rest) j) (m j)
unfolding last_of
last_of-put f s rest j a m e = elim (Bool-cases (same_key s.key j)) [
  | inl same ↦ rw (same, e) (first_some_assoc (last_of f rest j) (some a) (m j))
  | inr other ↦ rw other (first_some_assoc (last_of f rest j) none (m j))
]

module _ {E V : Type 0} (vp : Viper E V) (env : Text → Text) (doc : Documented vp env) where
  pub new_from-default :
      (l : List Setting) (v : V) (j : Text)
      → (doc.layers (new_from vp l v)).default j
        ≡ first_some (last_of (λ s. some s.default) l j) ((doc.layers v).default j)
  unfolding new_from last_of
  new_from-default [] v j = refl
  new_from-default (s ∷ rest) v j =
      rw
        (
          new_from-default rest _ j,
          doc.at_env s.key (env_name s.key) _,
          doc.at_default s.key s.default v,
        )
        (last_of-put (λ s. some s.default) s rest j s.default (doc.layers v).default refl)

  pub new_from-variable :
      (l : List Setting) (v : V) (j : Text)
      → (doc.layers (new_from vp l v)).variable j
        ≡ first_some (last_of (λ s. some (env_name s.key)) l j) ((doc.layers v).variable j)
  unfolding new_from last_of
  new_from-variable [] v j = refl
  new_from-variable (s ∷ rest) v j =
      rw
        (
          new_from-variable rest _ j,
          doc.at_env s.key (env_name s.key) _,
          doc.at_default s.key s.default v,
        )
        (last_of-put (λ s. some (env_name s.key)) s rest j (env_name s.key) (doc.layers v).variable
          refl)

  pub new_from-flag :
      (l : List Setting) (v : V) → (doc.layers (new_from vp l v)).flag ≡ (doc.layers v).flag
  unfolding new_from
  new_from-flag [] v = refl
  new_from-flag (s ∷ rest) v =
      rw
        (
          new_from-flag rest _,
          doc.at_env s.key (env_name s.key) _,
          doc.at_default s.key s.default v,
        )
        refl

  bind_or_not-flag :
      (key : Text) (o : Option Flag) (v : V) (j : Text)
      → (doc.layers (bind_or_not vp key o v)).flag j
        ≡ first_some (if same_key key j then o else none) ((doc.layers v).flag j)
  bind_or_not-flag key none v j = elim (Bool-cases (same_key key j)) [
    | inl same ↦ rw same refl
    | inr other ↦ rw other refl
  ]
  bind_or_not-flag key (some fl) v j = elim (Bool-cases (same_key key j)) [
    | inl same ↦ rw (doc.at_flag key fl v, same) refl
    | inr other ↦ rw (doc.at_flag key fl v, other) refl
  ]

  -- The variables and the defaults stay.
  pub record Kept (v v' : V) : Type 0 where
    pub variable : (doc.layers v').variable ≡ (doc.layers v).variable
    pub default : (doc.layers v').default ≡ (doc.layers v).default

  bind_or_not-Kept : (key : Text) (o : Option Flag) (v : V) → Kept v (bind_or_not vp key o v)
  bind_or_not-Kept key none v = record { variable = refl; default = refl }
  bind_or_not-Kept key (some fl) v = record {
    variable = rw (doc.at_flag key fl v) refl;
    default = rw (doc.at_flag key fl v) refl;
  }

  module _ (lookup : Text → Option Flag) where
    pub bind_from-flag :
        (l : List Setting) (v : V) (j : Text)
        → (doc.layers (bind_from vp lookup l v)).flag j
          ≡ first_some (last_of (λ s. lookup (flag_name s.key)) l j) ((doc.layers v).flag j)
    unfolding bind_from last_of
    bind_from-flag [] v j = refl
    bind_from-flag (s ∷ rest) v j =
        rw (bind_from-flag rest _ j, bind_or_not-flag s.key (lookup (flag_name s.key)) v j)
          (first_some_assoc (last_of (λ s. lookup (flag_name s.key)) rest j) _
            ((doc.layers v).flag j))

    pub bind_from-Kept : (l : List Setting) (v : V) → Kept v (bind_from vp lookup l v)
    unfolding bind_from
    bind_from-Kept [] v = record { variable = refl; default = refl }
    bind_from-Kept (s ∷ rest) v =
        let first = bind_or_not-Kept s.key (lookup (flag_name s.key)) v in
        let others = bind_from-Kept rest (bind_or_not vp s.key (lookup (flag_name s.key)) v) in
        record {
          variable = others.variable ∙ first.variable;
          default = others.default ∙ first.default;
        }
