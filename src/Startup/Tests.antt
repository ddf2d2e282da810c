-- ===== src/Startup/Tests.antt =====
-- Examples for the start of the server: one GitLab, and a Prometheus that is down.
use cigar.Prelude.{◌≡◌, refl, true, Option, none, some, ℕ, [], ◌∷◌, List, arith, ◌*◌, if◌then◌else◌}
use cigar.Prelude.Int.{pos}
use cigar.Prelude.Result.{Result, ok, err}
use cigar.Text.{Text, codes, text_eq, trim_space, lower, split_lines, strip_prefix}
use cigar.Config.{Config, load, parse_ratio, parse_duration, parse_bool, parse_go_bool, checked}
use cigar.Command.{help_command}
use cigar.Command.Handler.{Handler, after}
use cigar.Command.Handler.Execution.{handle_command, execute, count_command}
use cigar.Gitlab.{Discussion}
use cigar.Reporter.{Post, process_pipeline, job_usage}
use cigar.Startup.{
  Outside, PromApi, StartError, Served, start, new_reporter, choose_resolver, handler_if,
  new_command_handler, new_advice_engine,
}
use cigar.Advice.{new_engine}
use cigar.Worker.{build_authenticator}
use cigar.Chart.{parse_format}
use cigar.Report.{has_usage}
use cigar.Report.Render.{render}
use cigar.Correlate.Trace.{trace_pod, scan_lines, find_runner, match_runner, strip_colors}
use cigar.Startup.Loaded.{OnError, Reasonable, loaded-start}
use cigar.Startup.Serving.{posted_then_obeyed}
use cigar.Startup.Minimal.{minimal, Understood, minimal-serves}
use cigar.Time.{Duration}
use cigar.Float.{Float}
use cigar.Webhook.Auth.{secret_auth}
use cigar.Webhook.Event.{NoteEvent}
use cigar.Fixtures.{
  whole, toy_hmac, a_client, a_reporter, a_renderer, a_handler_in, is_help, no_marker, a_setting,
  a_secret, seconds_only, a_config,
}

abbrev down : PromApi Text ℕ
down = record {
  pods = λ query ts. err (codes "down");
  instant = λ query ts. err (codes "down");
  range = λ query start end step. err (codes "down");
}

abbrev an_outside : Discussion → Outside Text ℕ
an_outside disc = record {
  new_gitlab = λ url token. ok (a_client disc);
  new_prometheus = λ url. ok down;
  quote = λ name. name;
  now = 30_000_000_000_000;
  wrap_trace = λ e. codes "trace";
  wrap_pod = λ e. codes "pod";
  wrap_usage = λ e. codes "usage";
  wrap_range = λ e. codes "range";
}

abbrev no_thread : Discussion
no_thread = record { root_note_author_id = pos 99; root_note_body = [] }

loaded-start_example : OnError Reasonable (start (an_outside no_thread) a_config)
unfolding load parse_ratio parse_duration parse_bool parse_go_bool checked
    cigar.Config.auth_method_of text_eq cigar.Text.trim_space cigar.Text.lower
    cigar.Text.Decimal.parse_int
loaded-start_example =
    loaded-start seconds_only a_setting a_secret true a_config (an_outside no_thread) refl

abbrev served_or : Result (StartError Text) (Served Text ℕ) → Served Text ℕ
served_or (ok s) = s
served_or (err e) = record { reporter = a_reporter; handler = none; auth = secret_auth [] }

abbrev post_or : List Post → Post
post_or [] = record { project_id = pos 0; mr_iid = pos 0; marker = []; body = [] }
post_or (p ∷ posts) = p

abbrev the_post : Post
the_post =
    post_or
      (process_pipeline toy_hmac (served_or (start (an_outside no_thread) a_config)).reporter
        (pos 3) (pos 12) (pos 0) (codes "main") (codes "success")).posts

-- The thread that the report opens, and the server whose GitLab has it.
abbrev the_thread : Discussion
the_thread = record { root_note_author_id = pos 99; root_note_body = the_post.body }

abbrev the_server : Served Text ℕ
the_server = served_or (start (an_outside the_thread) a_config)

abbrev handler_or : Option (Handler Text ℕ) → Handler Text ℕ
handler_or none = a_handler_in the_thread
handler_or (some h) = h

abbrev help_note : NoteEvent
help_note = record {
  project_id = pos 3;
  mr_iid = pos 7;
  note_id = pos 5;
  discussion_id = codes "d";
  author_id = pos 1;
  body = codes "Help";
}

the_server_starts : start (an_outside the_thread) a_config ≡ ok the_server
unfolding start new_reporter choose_resolver text_eq handler_if new_command_handler parse_format
    trim_space lower new_advice_engine new_engine build_authenticator
the_server_starts = refl

the_server_handles : the_server.handler ≡ some (handler_or the_server.handler)
unfolding start new_reporter choose_resolver text_eq handler_if new_command_handler parse_format
    trim_space lower new_advice_engine new_engine build_authenticator
the_server_handles = refl

the_post_made :
    (process_pipeline toy_hmac the_server.reporter
      (pos 3)
      (pos 12)
      (pos 0)
      (codes "main")
      (codes "success")).posts
    ≡ the_post ∷ []
unfolding start new_reporter choose_resolver text_eq handler_if new_command_handler parse_format
    trim_space lower new_advice_engine new_engine build_authenticator process_pipeline render
    job_usage trace_pod split_lines scan_lines find_runner match_runner strip_colors has_usage
    strip_prefix
the_post_made = refl

the_post_mr : pos 7 ≡ the_post.mr_iid
unfolding start new_reporter choose_resolver text_eq handler_if new_command_handler parse_format
    trim_space lower new_advice_engine new_engine build_authenticator process_pipeline render
    job_usage trace_pod split_lines scan_lines find_runner match_runner strip_colors has_usage
    strip_prefix
the_post_mr = refl

posted_then_obeyed_example :
    handle_command a_renderer (handler_or the_server.handler) toy_hmac help_note
    ≡ after
        (count_command a_renderer (handler_or the_server.handler) help_note help_command)
        (execute a_renderer (handler_or the_server.handler) help_note (pos 12) help_command)
unfolding start new_reporter choose_resolver text_eq handler_if new_command_handler parse_format
    trim_space lower new_advice_engine new_engine build_authenticator
posted_then_obeyed_example =
    posted_then_obeyed (an_outside the_thread) a_config toy_hmac a_renderer the_server
      (handler_or the_server.handler) (pos 3) (pos 12) (pos 0) (codes "main") (codes "success")
      the_post help_note help_command the_thread the_server_starts the_server_handles
      (12, refl, omega arith) (λ ne. absurd (ne refl)) (λ m e. (7, cc, omega arith)) the_post_made
      is_help no_marker the_post_mr refl refl refl

-- Numbers in hundredths.
abbrev hundredths : Float ℕ
hundredths = record whole {
  of_uint = λ n. n * 100;
  parse = λ s. if text_eq s (codes "0.25") then some 25 else some 90;
}

abbrev half_minutes : Text → Option Duration
half_minutes s =
    if text_eq s (codes "30s") then some (pos 30_000_000_000) else some (pos 600_000_000_000)

abbrev secrets : Text → Text
secrets name = codes "s3cret"

understood :
    Understood ⦃fl = hundredths⦄ half_minutes 25 90 (pos 30_000_000_000) (pos 600_000_000_000)
unfolding text_eq
understood = record {
  throttle_in = (refl, refl, refl, λ h. ground (arith, h));
  pressure_in = (refl, refl, refl, λ h. refl);
  scrape_in = (refl, omega arith);
  long_in = (refl, omega arith);
}

minimal-serves_example :
    (cfg : Config ℕ) × (served : Served Text ℕ) × (load ⦃fl = hundredths⦄ half_minutes
        (minimal (codes "http://prometheus"))
        secrets
        true
      ≡ ok cfg)
    × (start ⦃fl = hundredths⦄ (an_outside no_thread) cfg ≡ ok served)
    × (served.handler ≡ none)
    × (served.auth ≡ secret_auth (codes "s3cret"))
minimal-serves_example =
    minimal-serves ⦃fl = hundredths⦄ half_minutes secrets (codes "http://prometheus") 25 90
      (pos 30_000_000_000) (pos 600_000_000_000) true (an_outside no_thread) (a_client no_thread)
      down understood refl refl (λ e. cc e) (λ e. cc e) (λ e. cc e)
