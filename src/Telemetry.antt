-- ===== src/Telemetry.antt =====
-- internal/telemetry/telemetry.go: the program's own metrics. A counter of the metrics library is the
-- number that it shows for two labels; a nil `*Metrics` is `none`. The registration of the collectors
-- and the HTTP handler are the library's.
pub mod Counts
pub mod LogCore
mod Tests
use cigar.Prelude.{
  ℕ, ◌+◌, Bool, true, false, ◌&&◌, ◌||◌, Option, none, some, List, [], ◌∷◌, any, length,
  if◌then◌else◌,
}
use cigar.Prelude.Int.{ℤ, pos, eqb_ℤ, leb_ℤ}
use cigar.Text.{Text, text_eq}
use cigar.Text.Decimal.{format_int, format_nat}
use cigar.Time.{Duration}

abbrev pub Counter : Type 0
Counter = Text → Text → ℕ

-- `c.WithLabelValues(a, b).Inc()`.
unfoldable pub increment : Counter → Text → Text → Counter
increment c a b a' b' = if text_eq a a' && text_eq b b' then c a' b' + 1 else c a' b'

-- The total of the queries is kept as the durations that were added to it, the newest first.
pub record Metrics : Type 0 where
  pub webhook_calls : Counter
  pub command_calls : Counter
  pub log_calls : Counter
  pub queries : List Duration
  pub users_active : ℕ
  pub users : List ℤ

-- `New`.
abbrev pub new_metrics : Metrics
new_metrics = record {
  webhook_calls = λ a b. 0;
  command_calls = λ a b. 0;
  log_calls = λ a b. 0;
  queries = [];
  users_active = 0;
  users = [];
}

unfoldable pub record_webhook : Option Metrics → ℤ → ℕ → Option Metrics
record_webhook none project_id status = none
record_webhook (some m) project_id status = some (record m {
  webhook_calls = increment m.webhook_calls (format_int project_id) (format_nat status);
})

unfoldable pub record_command : Option Metrics → ℤ → Text → Option Metrics
record_command none project_id kind = none
record_command (some m) project_id kind =
    some (record m { command_calls = increment m.command_calls (format_int project_id) kind })

unfoldable pub observe_query : Option Metrics → Duration → Option Metrics
observe_query none d = none
observe_query (some m) d = some (record m { queries = d ∷ m.queries })

abbrev pub is_known : List ℤ → ℤ → Bool
is_known users id = any (eqb_ℤ id) users

unfoldable pub record_user : Option Metrics → ℤ → Option Metrics
record_user none user_id = none
record_user (some m) user_id =
    if leb_ℤ user_id (pos 0)
    then some m
    else if is_known m.users user_id
    then some m
    else some (record m { users = user_id ∷ m.users; users_active = length (user_id ∷ m.users) })
