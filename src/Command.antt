-- ===== src/Command.antt =====
-- internal/command/command.go: the commands that users write as replies to a report note.
-- The four regular expressions are matched by hand, in the order in which Go's engine tries the
-- alternatives; `(?i)` folds case, and takes the long s and the Kelvin sign for their letters.
pub mod Grammar
pub mod Handler
pub mod Readings
pub mod Parser
pub mod Words
mod Tests
use cigar.Prelude.{
  ℕ, ◌+◌, Bool, true, false, not, ◌&&◌, ◌||◌, Option, none, some, List, [], ◌∷◌, ◌++◌, ◌==◌,
  if◌then◌else◌, ◌>>=◌, any,
}
use cigar.Text.{
  Text, codes, text_eq, is_empty, within, re_space, to_lower, starts_with, some_span, trim_space,
  split_lines,
}

pub data Kind : Type 0 where
  kind_help kind_details kind_advise : Kind

pub data TargetType : Type 0 where
  target_job target_pod : TargetType

-- `Kind.String`.
unfoldable pub kind_label : Kind → Text
kind_label kind_help = codes "help"
kind_label kind_details = codes "details"
kind_label kind_advise = codes "advise"

-- A field that the source leaves out has Go's zero value.
pub record Command : Type 0 where
  pub kind : Kind
  pub target : TargetType
  pub name : Text

unfoldable pub fold_case : ℕ → ℕ
fold_case c =
    if within b'A' b'Z' c
    then c + 32
    else if c == 0x17f
    then b's'
    else if c == 0x212a
    then b'k'
    else c

abbrev pub fold_text : Text → Text
fold_text [] = []
fold_text (c ∷ s) = fold_case c ∷ fold_text s

abbrev pub cons_matched : ℕ → Option (Text × Text) → Option (Text × Text)
cons_matched c none = none
cons_matched c (some (m, rest)) = some (c ∷ m, rest)

-- A word in small letters under `(?i)`: what it takes, and the rest.
unfoldable pub match_word : Text → Text → Option (Text × Text)
match_word [] s = some ([], s)
match_word (a ∷ p) [] = none
match_word (a ∷ p) (b ∷ s) = if fold_case b == a then cons_matched b (match_word p s) else none

abbrev pub first_some {ℓ} : {A : Type ℓ} → Option A → Option A → Option A
first_some (some a) _ = some a
first_some none r = r

-- `\S+$`.
unfoldable pub whole_name : Text → Option Text
whole_name s = if is_empty s || any re_space s then none else some s

-- `(?i)^help$`.
unfoldable pub match_help : Text → Bool
match_help line = text_eq (fold_text line) (codes "help")

-- `\s+(\S+)$`.
unfoldable pub gap_name : Text → Option Text
gap_name s = do (sp, b) ← some_span re_space s; whole_name b

-- `(job|pod)\s+(\S+)$`.
unfoldable pub match_target : Text → Option (Text × Text)
match_target s = do
  (t, a) ← first_some (match_word (codes "job") s) (match_word (codes "pod") s)
  name ← gap_name a
  some (t, name)

-- `(\S+)$`, with a first group that takes no part.
unfoldable pub match_plain : Text → Option (Text × Text)
match_plain s = do name ← whole_name s; some ([], name)

-- `(?i)^details\s+(?:(job|pod)\s+)?(\S+)$`.
unfoldable pub match_details : Text → Option (Text × Text)
match_details line = do
  (w, a) ← match_word (codes "details") line
  (sp, b) ← some_span re_space a
  first_some (match_target b) (match_plain b)

-- `job\s+(\S+)$`.
unfoldable pub match_job : Text → Option Text
match_job s = do (t, a) ← match_word (codes "job") s; gap_name a

-- `\s+(?:job\s+)?(\S+)$`.
unfoldable pub match_argument : Text → Option Text
match_argument s = do (sp, b) ← some_span re_space s; first_some (match_job b) (whole_name b)

-- `(?i)^advise(?:\s+(?:job\s+)?(\S+))?$`.
unfoldable pub match_advise : Text → Option Text
match_advise line = do
  (w, a) ← match_word (codes "advise") line
  first_some (match_argument a) (if is_empty a then some [] else none)

-- `runner-*` is a pod, anything else a job.
unfoldable pub auto_target : Text → TargetType
auto_target name = if starts_with (codes "runner-") name then target_pod else target_job

-- The switch on `strings.ToLower(m[1])`.
unfoldable pub resolve_target : Text → Text → TargetType
resolve_target t name =
    if text_eq (to_lower t) (codes "job")
    then target_job
    else if text_eq (to_lower t) (codes "pod")
    then target_pod
    else auto_target name

abbrev pub details_command : Text × Text → Command
details_command (t, name) = record {
  kind = kind_details;
  target = resolve_target t name;
  name = name;
}

abbrev pub advise_command : Text → Command
advise_command name = record { kind = kind_advise; target = target_job; name = name }

abbrev pub help_command : Command
help_command = record { kind = kind_help; target = target_job; name = [] }

-- `Parse` behind the choice of the line.
unfoldable pub parse_line : Text → Option Command
parse_line line =
    if match_help line
    then some help_command
    else first_some (do m ← match_details line; some (details_command m))
        (do name ← match_advise line; some (advise_command name))

unfoldable pub first_non_empty : List Text → Text
first_non_empty [] = []
first_non_empty (l ∷ ls) =
    let rest = first_non_empty ls in let t = trim_space l in if is_empty t then rest else t

unfoldable pub first_non_empty_line : Text → Text
first_non_empty_line body = first_non_empty (split_lines body)

unfoldable pub parse : Text → Option Command
parse body = parse_line (first_non_empty_line body)

abbrev pub help_text : Text
help_text =
    codes
      "**cigar commands**\n\n- `help` — show this message\n- `details job <name>` — CPU / memory / network charts for a job in this report\n- `details pod <runner-...>` — same, for a runner pod in this report\n- `details <name>` — auto-detects job vs pod\n- `advise` — recommendations for every job in this report\n- `advise <job>` — recommendations for one job\n"
