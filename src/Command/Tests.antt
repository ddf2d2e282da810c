-- ===== src/Command/Tests.antt =====
-- Commands as users write them.
use cigar.Prelude.{◌≡◌, refl, none, some}
use cigar.Command.Grammar.{Spells}
use cigar.Command.Parser.{parse_iff}
use cigar.Text.{codes, trim_space, split_lines, text_eq, re_space, lower, span, starts_with}
use cigar.Command.{
  kind_details, target_pod, target_job, parse, first_non_empty, first_non_empty_line, parse_line,
  match_help, match_details, match_word, gap_name, fold_case, match_target, whole_name,
  resolve_target, match_plain, match_advise, match_argument, match_job, auto_target,
}

mixed_case :
    parse (codes " \n\tDetails  POD runner-1 \r\nthanks")
    ≡ some (record { kind = kind_details; target = target_pod; name = codes "runner-1" })
unfolding parse first_non_empty_line first_non_empty split_lines trim_space parse_line match_help
    text_eq match_details match_word gap_name fold_case re_space match_target whole_name
    resolve_target span lower
mixed_case = refl

job_is_a_name :
    parse (codes "details job")
    ≡ some (record { kind = kind_details; target = target_job; name = codes "job" })
unfolding parse first_non_empty_line first_non_empty split_lines trim_space parse_line match_help
    text_eq match_details match_word gap_name fold_case re_space match_target match_plain whole_name
    resolve_target span lower auto_target starts_with
job_is_a_name = refl

two_names : parse (codes "advise job a b") ≡ none
unfolding parse first_non_empty_line first_non_empty split_lines trim_space parse_line match_help
    text_eq match_details match_word gap_name fold_case re_space match_advise match_argument
    match_job whole_name span
two_names = refl

parse_iff_example :
    Spells
      (first_non_empty_line (codes " \n\tDetails  POD runner-1 \r\nthanks"))
      (record { kind = kind_details; target = target_pod; name = codes "runner-1" })
parse_iff_example =
    (parse_iff (codes " \n\tDetails  POD runner-1 \r\nthanks")
        (record { kind = kind_details; target = target_pod; name = codes "runner-1" })).0
      mixed_case
