-- ===== src/Advice/BuildTool.antt =====
-- internal/advice/java_threads.go: the build tool that a trace shows. The regular expressions are matched
-- by hand: all are under `(?i)`, and where one has a choice of lengths its next part decides it. The trace
-- is a text in UTF-8.
use cigar.Prelude.{
  ℕ, ◌+◌, Bool, true, false, not, ◌&&◌, ◌||◌, Option, none, some, [], ◌∷◌, if◌then◌else◌, ◌==◌,
  zero, suc, length,
}
use cigar.Text.{Text, codes, is_empty, within, is_digit, re_space, span}
use cigar.Command.{match_word}

-- What `\b` counts as part of a word, and `\w` under `(?i)`.
abbrev pub is_word : ℕ → Bool
is_word c = is_digit c || within b'a' b'z' c || within b'A' b'Z' c || c == b'_'

abbrev pub is_word_folded : ℕ → Bool
is_word_folded c = is_word c || c == 0x17f || c == 0x212a

-- `\b` behind a letter.
abbrev pub ends_word : Text → Bool
ends_word [] = true
ends_word (c ∷ s) = not (is_word c)

-- A pattern tried at every place; it is told whether a letter stands in front.
unfoldable pub found : (Bool → Text → Bool) → Bool → Text → Bool
found p before [] = p before []
found p before (c ∷ s) = p before (c ∷ s) || found p (is_word c) s

abbrev pub after_phrase : Text → (Text → Bool) → Text → Bool
after_phrase w next s = elim (match_word w s) [ none ↦ false | some r ↦ next r.1 ]

abbrev pub anything : Text → Bool
anything s = true

-- `\b<w>w?\b`
abbrev pub tool_word : Text → Bool → Text → Bool
tool_word w before s =
    not before && after_phrase w (λ r. after_phrase (codes "w") ends_word r || ends_word r) s

abbrev pub phrase : Text → Bool → Text → Bool
phrase w before s = after_phrase w anything s

-- `-plugin` behind `\w+`.
abbrev pub plugin_name : Text → Bool
plugin_name r =
    let (word, rest) = span is_word_folded r in
    not (is_empty word) && after_phrase (codes "-plugin") anything rest

-- `-` behind `\s+`.
abbrev pub flag_after : Text → Bool
flag_after r =
    let (gap, rest) = span re_space r in
    not (is_empty gap) && after_phrase (codes "-") anything rest

-- `(?i)\bmvnw?\b|\[INFO\] Scanning for projects|maven-\w+-plugin`
unfoldable pub is_maven : Text → Bool
unfolding found
is_maven s =
    found (tool_word (codes "mvn")) false s
    || found (phrase (codes "[info] scanning for projects")) false s
    || found (λ before r. after_phrase (codes "maven-") plugin_name r) false s

-- `(?i)\bgradlew?\b|Welcome to Gradle|Starting a Gradle Daemon`
unfoldable pub is_gradle : Text → Bool
unfolding found
is_gradle s =
    found (tool_word (codes "gradle")) false s
    || found (phrase (codes "welcome to gradle")) false s
    || found (phrase (codes "starting a gradle daemon")) false s

-- `(?i)\bjava\s+-|openjdk`
unfoldable pub is_java : Text → Bool
unfolding found
is_java s =
    found (λ before r. not before && after_phrase (codes "java") flag_after r) false s
    || found (phrase (codes "openjdk")) false s

-- The length of a match of `\x1b\[[0-9;?]*[ -/]*[@-~]` behind its first two code points.
abbrev pub final_of : ℕ → Text → Option ℕ
final_of n [] = none
final_of n (c ∷ s) = if within b'@' b'~' c then some (n + 1) else none

abbrev pub sequence_length : Text → Option ℕ
sequence_length s =
    let (params, a) = span (λ c. is_digit c || c == b';' || c == b'?') s in
    let (middle, b) = span (within 0x20 b'/') a in final_of (length params + length middle) b

abbrev pub escape_length : Text → Option ℕ
escape_length (esc ∷ bracket ∷ s) =
    if esc == 0x1b && bracket == b'[' then sequence_length s else none
escape_length _ = none

-- `ansiRE.ReplaceAllString(s, "")`, with the number of code points still to drop; an escape of
-- `n` code points behind the bracket has `n + 2`.
unfoldable pub strip_ansi : ℕ → Text → Text
strip_ansi k [] = []
strip_ansi (suc k) (c ∷ s) = strip_ansi k s
strip_ansi zero (c ∷ s) = elim (escape_length (c ∷ s)) [
  | some n ↦ strip_ansi (n + 1) s
  | none ↦ c ∷ strip_ansi zero s
]

pub data Tool : Type 0 where
  maven gradle java : Tool

abbrev pub tool_name : Tool → Text
tool_name maven = codes "Maven"
tool_name gradle = codes "Gradle"
tool_name java = codes "Java"

-- The loop over `buildTools`.
unfoldable pub first_tool : Text → Option Tool
first_tool s =
    if is_maven s
    then some maven
    else if is_gradle s
    then some gradle
    else if is_java s
    then some java
    else none

unfoldable pub detect_build_tool : Text → Option Tool
unfolding first_tool strip_ansi
detect_build_tool trace = if is_empty trace then none else first_tool (strip_ansi zero trace)
