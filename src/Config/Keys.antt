-- ===== src/Config/Keys.antt =====
-- internal/config/config.go: the settings with their keys, and the names that are derived from a key.
use cigar.Prelude.{ℕ, ◌-◌, ◌==◌, List, [], ◌∷◌, map, if◌then◌else◌}
use cigar.Text.{Text, codes, within}

pub record Setting : Type 0 where
  pub key : Text
  pub default : Text
  pub usage : Text

abbrev pub setting : Text → Text → Text → Setting
setting key default usage = record { key = key; default = default; usage = usage }

abbrev pub settings : List Setting
settings =
    setting (codes "gitlab.url") (codes "https://gitlab.com") (codes "GitLab instance base URL")
    ∷ setting (codes "prometheus.url") []
        (codes "Prometheus base URL (cadvisor + kube-state-metrics)")
    ∷ setting (codes "prometheus.scrape_interval") (codes "30s")
        (codes "Prometheus scrape interval; query windows are padded by one interval")
    ∷ setting (codes "pod_resolver") (codes "trace")
        (codes "Pod-correlation strategy: trace or prometheus")
    ∷ setting (codes "webhook.auth_method") (codes "secret")
        (codes "Webhook auth method: secret or signing_token")
    ∷ setting (codes "report.throttle_warn_ratio") (codes "0.25")
        (codes "Throttled-periods ratio above which a job gets a warning")
    ∷ setting (codes "report.long_job_duration") (codes "10m")
        (codes "Job duration above which advice suggests splitting the job")
    ∷ setting (codes "report.memory_pressure_ratio") (codes "0.9")
        (codes "Peak-memory-to-limit ratio above which OOMKill risk is warned")
    ∷ setting (codes "commands.enabled") (codes "false")
        (codes "Enable interactive report commands")
    ∷ setting (codes "commands.chart_format") (codes "png")
        (codes "Chart format for command replies: png, svg or markdown")
    ∷ setting (codes "server.listen_addr") (codes ":8080") (codes "Webhook listen address")
    ∷ setting (codes "server.ops_addr") (codes ":8081")
        (codes "Health/metrics (ops) listen address")
    ∷ setting (codes "log.level") (codes "info") (codes "Log verbosity: debug, info, warn or error")
    ∷ []

-- `strings.ReplaceAll` of one code point by another.
abbrev pub replace_code : ℕ → ℕ → Text → Text
replace_code from to s = map (λ c. if c == from then to else c) s

-- `strings.ToUpper` on one code point: the dotless i and the long s have ASCII images.
abbrev upper : ℕ → ℕ
upper c =
    if within b'a' b'z' c
    then c - 32
    else if c == 0x131
    then b'I'
    else if c == 0x17f
    then b'S'
    else c

unfoldable pub env_name : Text → Text
env_name key = map upper (replace_code b'.' b'_' key)

unfoldable pub flag_name : Text → Text
flag_name key = replace_code b'_' b'-' (replace_code b'.' b'-' key)
