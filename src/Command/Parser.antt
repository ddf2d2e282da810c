-- ===== src/Command/Parser.antt =====
-- `parse_line` decides the grammar, and `parse` looks at the first line that is not blank.
use mathlib.Core.Option.{some-injective}
use cigar.Prelude.{
  ◌≡◌, ◌≢◌, ◌↔◌, sym, ap, ◌∙◌, true, false, none, some, [], ◌++◌, arith, Option-cases, Bool-cases,
  inl, inr, append-nil, subst,
}
use cigar.Text.{Text, text_eq_iff}
use cigar.Command.{
  Command, target_job, first_some, whole_name, match_help, match_plain, match_details, match_job,
  match_advise, details_command, advise_command, help_command, parse_line, parse,
  first_non_empty_line,
}
use cigar.Command.Words.{whole_name-IsName, Stops-IsName}
use cigar.Command.Grammar.{
  Spells, help, details, details_of, advise_all, advise, advise_job, Stops-word,
  match_target-written, match_target-name, match_job-written, match_job-name, resolve_target-word,
  resolve_target-nil, not_help, not_details, match_details-written, match_advise-written,
  match_advise_whole,
}
use cigar.Command.Readings.{match_details_sound, match_advise_sound}

parse_line-help : (line : Text) → match_help line ≡ true → parse_line line ≡ some help_command
unfolding parse_line
parse_line-help line h = rw h

parse_line-details :
    (line : Text) (m : Text × Text)
    → match_help line ≡ false
    → match_details line ≡ some m
    → parse_line line ≡ some (details_command m)
unfolding parse_line
parse_line-details line m h e = rw (h, e)

parse_line-advise :
    (line name : Text)
    → match_help line ≡ false
    → match_details line ≡ none
    → match_advise line ≡ some name
    → parse_line line ≡ some (advise_command name)
unfolding parse_line
parse_line-advise line name h d e = rw (h, d, e)

parse_line-none :
    (line : Text) (c : Command)
    → match_help line ≡ false
    → match_details line ≡ none
    → match_advise line ≡ none
    → parse_line line ≢ some c
unfolding parse_line
parse_line-none line c h d e p = cc (rw (h, d, e, parse_line) at p)

parse_line_complete : (line : Text) (c : Command) → Spells line c → parse_line line ≡ some c
parse_line_complete line c (help h e) =
    parse_line-help line (unfold match_help in (text_eq_iff _ _).1 h) ∙ ap some (sym e)
parse_line_complete line c (details w sp name e hw hs hn ec) =
    let found : match_details (w ++ (sp ++ name)) ≡ some ([], name) =
      match_details-written w sp name hw hs (Stops-IsName name hn.1)
      ∙ rw (match_target-name name hn) (unfold match_plain in rw (whole_name-IsName name hn)) in
    rw e (
      parse_line-details _ _ (not_help _ _ w (sp ++ name) hw (omega arith)) found
      ∙ rw (resolve_target-nil name) (ap some (sym ec)))
parse_line_complete line c (details_of w sp t sp' name k e hw hs ht hs' hn ec) =
    let rest = t ++ (sp' ++ name) in
    let found : match_details (w ++ (sp ++ rest)) ≡ some (t, name) =
      match_details-written w sp rest hw hs (Stops-word k t _ ht)
      ∙ rw (match_target-written k t sp' name ht hs' hn) in
    rw e (
      parse_line-details _ _ (not_help _ _ w (sp ++ rest) hw (omega arith)) found
      ∙ rw (resolve_target-word k t name ht) (ap some (sym ec)))
parse_line_complete line c (advise_all h e) =
    parse_line-advise line [] (rw append-nil at (not_help _ _ line [] h (omega arith)))
      (rw append-nil at (not_details _ line [] h)) (match_advise_whole line h)
    ∙ ap some (sym e)
parse_line_complete line c (advise w sp name e hw hs hn ec) =
    let chosen : first_some (match_job name) (whole_name name) ≡ some name =
      rw (match_job-name name hn, whole_name-IsName name hn) in
    rw e (
      parse_line-advise _ name (not_help _ _ w (sp ++ name) hw (omega arith))
        (not_details _ w (sp ++ name) hw)
        (match_advise-written w sp name name hw hs (Stops-IsName name hn.1) chosen)
      ∙ ap some (sym ec))
parse_line_complete line c (advise_job w sp t sp' name e hw hs ht hs' hn ec) =
    let rest = t ++ (sp' ++ name) in
    let chosen : first_some (match_job rest) (whole_name rest) ≡ some name =
      rw (match_job-written t sp' name ht hs' hn) in
    rw e (
      parse_line-advise _ name (not_help _ _ w (sp ++ rest) hw (omega arith))
        (not_details _ w (sp ++ rest) hw)
        (match_advise-written w sp rest name hw hs (Stops-word target_job t _ ht) chosen)
      ∙ ap some (sym ec))

parse_line_sound : (line : Text) (c : Command) → parse_line line ≡ some c → Spells line c
parse_line_sound line c h = elim (Bool-cases (match_help line)) [
  | inl e ↦
      help (unfold match_help in (text_eq_iff _ _).0 e)
        (sym (some-injective _ _ (sym (parse_line-help line e) ∙ h)))
  | inr e ↦ elim (Option-cases (match_details line)) [
    | inr (m, e') ↦
        subst (Spells line) (some-injective _ _ (sym (parse_line-details line m e e') ∙ h))
          (match_details_sound line m e')
    | inl e' ↦ elim (Option-cases (match_advise line)) [
      | inr (name, e'') ↦
          subst (Spells line) (some-injective _ _ (sym (parse_line-advise line name e e' e'') ∙ h))
            (match_advise_sound line name e'')
      | inl e'' ↦ absurd (parse_line-none line c e e' e'' h)
    ]
  ]
]

-- A note is a command exactly when its first line that is not blank, without the white space at its
-- ends, spells that command in the grammar of `help`, `details` and `advise`.
pub parse_iff :
    (body : Text) (c : Command) → (parse body ≡ some c) ↔ Spells (first_non_empty_line body) c
unfolding parse
parse_iff body c = (parse_line_sound _ c, parse_line_complete _ c)
