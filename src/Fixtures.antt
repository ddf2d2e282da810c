-- ===== src/Fixtures.antt =====
-- Concrete values of the interfaces, for the examples: a checksum in place of HMAC-SHA256, whole
-- numbers in place of `float64`, and one project of GitLab.
use cigar.Prelude.{
  ℕ, zero, suc, ◌+◌, ◌*◌, ◌/◌, ◌%◌, ◌^◌, ◌<◌, ◌≡◌, refl, ap, Bool, false, none, some, [], ◌∷◌, ◌++◌,
  arith, ltb, leb, ◌==◌, length, All, ◌-◌, min, max, Option, if◌then◌else◌,
}
use cigar.Prelude.Int.{pos, pos_part}
use cigar.Prelude.Result.{ok, err}
use cigar.Text.{Text, codes, text_eq, contains, starts_with, split_lines, trim_space}
use cigar.Time.{Duration}
use cigar.Config.{Config}
use cigar.Text.Decimal.{format_nat, parse_int, ParsedInt}
use cigar.Crypto.{Hmac}
use cigar.Chart.{Renderers, png}
use cigar.Reporter.{Reporter}
use cigar.Command.Handler.{Handler}
use cigar.Command.{
  help_command, parse, first_non_empty, first_non_empty_line, parse_line, match_help, fold_case,
}
use cigar.Report.Marker.{marker_prefix}
use cigar.Float.{Float}
use cigar.Metrics.{JobUsage, Source}
use cigar.Correlate.{Resolver}
use cigar.Gitlab.{Job, Discussion}
use cigar.Gitlab.Client.{Client}

abbrev pub repeat : ℕ → ℕ → Text
repeat zero b = []
repeat (suc n) b = b ∷ repeat n b

pub length-repeat : (n b : ℕ) → length (repeat n b) ≡ n
length-repeat zero b = refl
length-repeat (suc n) b = ap suc (length-repeat n b)

pub repeat-All : (n b : ℕ) → b < 256 → All (λ c. c < 256) (repeat n b)
repeat-All zero b h = tt
repeat-All (suc n) b h = (h, repeat-All n b h)

abbrev pub checksum : Text → ℕ
checksum [] = 0
checksum (c ∷ s) = (c + 31 * checksum s) % 256

pub checksum_small : (s : Text) → checksum s % 256 < 256
checksum_small s = omega arith

abbrev pub toy_hmac : Hmac
toy_hmac = record {
  sum = λ key message. repeat 32 (checksum (key ++ message) % 256);
  sum_length = λ key message. length-repeat 32 (checksum (key ++ message) % 256);
  sum_bytes = λ key message.
      repeat-All 32 (checksum (key ++ message) % 256) (checksum_small (key ++ message));
}

-- The number that a text of digits writes, its sign left aside.
abbrev whole_of : ParsedInt → Option ℕ
whole_of p = if p.valid then some (pos_part p.int) else none

instance abbrev pub whole : Float ℕ
whole = record {
  of_uint = λ n. n;
  half = 0;
  add = λ a b. a + b;
  mul = λ a b. a * b;
  div = λ a b. a / b;
  lt = ltb;
  le = leb;
  eq = λ a b. a == b;
  to_int = pos;
  to_uint = λ n. n % 2 ^ 64;
  format0 = format_nat;
  format1 = λ n. format_nat n ++ codes ".0";
  format3g = format_nat;
  parse = λ s. whole_of (parse_int s);
  of_int = pos_part;
  inf = 2 ^ 62;
  neg_inf = 0;
  sub = λ a b. a - b;
  abs = λ a. a;
  min = min;
  max = max;
  round = λ a. a;
}

abbrev pub a_usage : JobUsage ℕ
a_usage = record {
  cpu_seconds = 12;
  peak_memory_bytes = 3000000;
  throttled_ratio = 1;
  network_rx_bytes = 1024;
  network_tx_bytes = 0;
  disk_read_bytes = 5;
  disk_write_bytes = 0;
  cpu_request_cores = 1;
  cpu_limit_cores = 2;
  memory_request_bytes = 0;
  memory_limit_bytes = 4000000;
  low_confidence = Bool.false;
}

abbrev pub build_job : Job
build_job = record {
  id = pos 11;
  stage = codes "build";
  name = codes "compile";
  started_at = 1000000000;
  finished_at = 61000000000;
}

abbrev pub skipped_job : Job
skipped_job = record {
  id = pos 12;
  stage = codes "deploy";
  name = codes "ship";
  started_at = 0;
  finished_at = 0;
}

-- Every pipeline has the two jobs, every branch the merge request 7, whose discussions are those of
-- `disc`; every write is taken.
abbrev pub a_client : Discussion → Client Text
a_client disc = record {
  pipeline_jobs = λ project pipeline. ok (build_job ∷ skipped_job ∷ []);
  merge_request_for_branch = λ project branch. ok (some (pos 7));
  upsert_note = λ project mr marker body. none;
  job_trace = λ project job. ok (codes "mvn verify");
  current_user = ok (pos 99);
  merge_request_discussion = λ project mr id. ok disc;
  upload_file = λ project name content. ok name;
  create_discussion_reply = λ project mr id body. none;
}

abbrev pub a_resolver : Resolver Text
a_resolver = record { pod_for_job = λ project job start end. ok (some (codes "runner-1")) }

abbrev pub a_source : Source Text ℕ
a_source = record { pod_usage = λ pod start end. ok (some a_usage) }

abbrev pub a_renderer : Renderers Text ℕ
a_renderer = record {
  render_svg = λ title lines. ok title;
  render_markdown = λ title unit lines. ok title;
  render_png = λ title lines. ok title;
}

abbrev pub a_reporter : Reporter Text ℕ
a_reporter = record {
  gitlab = a_client (record { root_note_author_id = pos 99; root_note_body = [] });
  resolver = a_resolver;
  metrics = a_source;
  throttle_warn_ratio = 1;
  signing_key = codes "key";
}

-- The command handler in a thread; the series source is down.
abbrev pub a_handler_in : Discussion → Handler Text ℕ
a_handler_in disc = record {
  gitlab = a_client disc;
  resolver = a_resolver;
  series = record {
    pod_series = λ pod start end. err (codes "down");
    pod_active_span = λ pod. ok none;
  };
  advisor = none;
  signing_key = codes "key";
  bot_user_id = pos 99;
  chart_format = png;
  counts = Bool.true;
}

-- The settings of one deployment, its secrets, and its durations, which are all ten seconds.
abbrev pub a_setting : Text → Text
a_setting key =
    if text_eq key (codes "report.throttle_warn_ratio")
    then codes "1"
    else if text_eq key (codes "report.memory_pressure_ratio")
    then codes "1"
    else if text_eq key (codes "commands.enabled")
    then codes "true"
    else if text_eq key (codes "commands.chart_format")
    then codes "Markdown"
    else if text_eq key (codes "pod_resolver")
    then codes "trace"
    else if text_eq key (codes "webhook.auth_method")
    then codes " Secret "
    else codes "https://example.org"

abbrev pub a_secret : Text → Text
a_secret name = codes "s3cret"

abbrev pub seconds_only : Text → Option Duration
seconds_only raw = some (pos 10_000_000_000)

abbrev pub a_config : Config ℕ
a_config = record {
  webhook_secret = codes "s3cret";
  webhook_signing_token = codes "s3cret";
  auth_method = codes "secret";
  gitlab_url = codes "https://example.org";
  gitlab_token = codes "s3cret";
  prometheus_url = codes "https://example.org";
  throttle_warn_ratio = 1;
  long_job_duration = pos 10_000_000_000;
  memory_pressure_ratio = 1;
  scrape_interval = pos 10_000_000_000;
  listen_addr = codes "https://example.org";
  ops_addr = codes "https://example.org";
  pod_resolver = codes "trace";
  commands_enabled = Bool.true;
  commands_signing_key = codes "s3cret";
  chart_format = codes "markdown";
}

pub is_help : parse (codes "Help") ≡ some help_command
unfolding parse first_non_empty_line first_non_empty split_lines trim_space parse_line match_help
    text_eq fold_case
is_help = refl

pub no_marker : contains (codes "Help") marker_prefix ≡ false
unfolding contains starts_with
no_marker = refl
