-- ===== src/Telemetry/LogCore.antt =====
-- internal/telemetry/logcore.go: the core that counts warnings. The cores and the logger of the logging
-- library are modelled by what they document: a logger asks a core whether a level is enabled, and only
-- then gives it the entry to check.
use cigar.Prelude.{
  ◌≡◌, refl, ap, Bool, true, false, ◌&&◌, ◌||◌, List, [], ◌∷◌, if◌then◌else◌, Bool-cases, inl, inr,
}
use cigar.Prelude.Int.{ℤ, pos, leb_ℤ}
use cigar.Text.{Text, codes, is_empty}
use cigar.Telemetry.{Counter, increment}

-- A level is the number that the library gives it: -1 debug, 0 info, 1 warn, 2 error.
pub record Entry : Type 0 where
  pub level : ℤ
  pub logger_name : Text
  pub message : Text

-- `writes` says that `Check` adds the core, which then writes the entry.
pub record Core : Type 0 where
  pub enabled : ℤ → Bool
  pub writes : Entry → Bool

abbrev pub log_count_level : ℤ
log_count_level = pos 1

implied : (e w : Bool) → (w ≡ true → e ≡ true) → w ≡ (e && w)
implied true w h = refl
implied false true h = cc (h refl)
implied false false h = refl

-- `zapcore.Level.String`, an argument of what follows, gives the label.
module _ (level_name : ℤ → Text) where
  unfoldable pub record_log : Counter → ℤ → Text → Counter
  record_log c level name =
      increment c (level_name level) (if is_empty name then codes "root" else name)

  -- `countingCore.Enabled`.
  abbrev pub counting_enabled : Core → ℤ → Bool
  counting_enabled core level = leb_ℤ log_count_level level || core.enabled level

  -- `countingCore.Check`: the counter behind it, and whether the entry is written.
  unfoldable pub counting_check : Core → Counter → Entry → Counter × Bool
  unfolding record_log
  counting_check core c ent = (
    if leb_ℤ log_count_level ent.level then record_log c ent.level ent.logger_name else c,
    core.writes ent,
  )

  -- A call of a logger on the bare core: whether the entry is written.
  abbrev pub bare_call : Core → Entry → Bool
  bare_call core ent = core.enabled ent.level && core.writes ent

  -- A call of a logger on the counting core.
  unfoldable pub counted_call : Core → Counter → Entry → Counter × Bool
  counted_call core c ent =
      if counting_enabled core ent.level then counting_check core c ent else (c, false)

  -- A run of log calls: the counter and the entries written, in their order.
  unfoldable pub counted_run : Core → Counter → List Entry → Counter × List Entry
  counted_run core c [] = (c, [])
  counted_run core c (ent ∷ ents) =
      let (c', written) = counted_call core c ent in
      let (c'', rest) = counted_run core c' ents in (c'', if written then ent ∷ rest else rest)

  abbrev pub bare_run : Core → List Entry → List Entry
  bare_run core [] = []
  bare_run core (ent ∷ ents) =
      if bare_call core ent then ent ∷ bare_run core ents else bare_run core ents

  -- The counter after the warnings among the entries.
  abbrev pub count_warnings : Counter → List Entry → Counter
  count_warnings c [] = c
  count_warnings c (ent ∷ ents) =
      count_warnings
        (if leb_ℤ log_count_level ent.level then record_log c ent.level ent.logger_name else c) ents

  counted_call-bare :
      (core : Core) (c : Counter) (ent : Entry)
      → ((e : Entry) → core.writes e ≡ true → core.enabled e.level ≡ true)
      → counted_call core c ent ≡ (
        if leb_ℤ log_count_level ent.level then record_log c ent.level ent.logger_name else c,
        bare_call core ent,
      )
  unfolding counted_call counting_check
  counted_call-bare core c ent honest = elim (Bool-cases (leb_ℤ log_count_level ent.level)) [
    | inl warns ↦ rw (warns) (
        ap (λ w. (record_log c ent.level ent.logger_name, w))
          (implied (core.enabled ent.level) (core.writes ent) (honest ent)))
    | inr quiet ↦ elim (Bool-cases (core.enabled ent.level)) [
      | inl shown ↦ rw (quiet, shown) refl
      | inr hidden ↦ rw (quiet, hidden) refl
    ]
  ]

  -- Where the core writes only what it has enabled, the counting core writes the same entries in the same
  -- order, and counts each warning or worse, also those that the level of the core hides.
  pub counted_run-bare :
      (core : Core) (c : Counter) (ents : List Entry)
      → ((e : Entry) → core.writes e ≡ true → core.enabled e.level ≡ true)
      → counted_run core c ents ≡ (count_warnings c ents, bare_run core ents)
  unfolding counted_run
  counted_run-bare core c [] honest = refl
  counted_run-bare core c (ent ∷ ents) honest =
      rw
        (
          counted_call-bare core c ent honest,
          counted_run-bare core
              (if leb_ℤ log_count_level ent.level
                then record_log c ent.level ent.logger_name
                else c)
              ents honest,
        )
        refl
