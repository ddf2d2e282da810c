-- ===== src/Telemetry/Counts.antt =====
-- telemetry.go: what the counters and the gauge of users show after any calls.
use cigar.Prelude.{
  ℕ, ◌+◌, ◌≡◌, refl, Bool, false, not, ◌&&◌, ◌||◌, Option, some, List, [], ◌∷◌, arith, length,
  if◌then◌else◌, Bool-cases, inl, inr,
}
use cigar.Prelude.Int.{ℤ, pos, eqb_ℤ, leb_ℤ, eqb_ℤ_iff}
use cigar.Text.{Text, text_eq}
use cigar.Text.Decimal.{format_int, format_nat}
use cigar.Time.{Duration}
use cigar.Telemetry.{
  Metrics, increment, new_metrics, record_webhook, record_command, observe_query, record_user,
  is_known,
}

-- A call of one of the recording methods.
pub data Call : Type 0 where
  webhook : (project_id : ℤ) → (status : ℕ) → Call
  command : (project_id : ℤ) → (kind : Text) → Call
  query : Duration → Call
  user : ℤ → Call

unfoldable pub make_call : Option Metrics → Call → Option Metrics
unfolding record_webhook record_command observe_query record_user
make_call m (webhook project_id status) = record_webhook m project_id status
make_call m (command project_id kind) = record_command m project_id kind
make_call m (query d) = observe_query m d
make_call m (user id) = record_user m id

-- The calls, the newest first.
unfoldable pub after_calls : Option Metrics → List Call → Option Metrics
unfolding make_call
after_calls m [] = m
after_calls m (c ∷ calls) = make_call (after_calls m calls) c

-- Whether a user was recorded whose identifier is positive.
abbrev pub was_recorded : List Call → ℤ → Bool
was_recorded [] id = false
was_recorded (user i ∷ calls) id = (eqb_ℤ id i && not (leb_ℤ i (pos 0))) || was_recorded calls id
was_recorded (webhook p s ∷ calls) id = was_recorded calls id
was_recorded (command p k ∷ calls) id = was_recorded calls id
was_recorded (query d ∷ calls) id = was_recorded calls id

-- How many deliveries, and how many commands, bear two labels.
abbrev pub deliveries : List Call → Text → Text → ℕ
deliveries [] a b = 0
deliveries (webhook p s ∷ calls) a b =
    if text_eq (format_int p) a && text_eq (format_nat s) b
    then deliveries calls a b + 1
    else deliveries calls a b
deliveries (user i ∷ calls) a b = deliveries calls a b
deliveries (command p k ∷ calls) a b = deliveries calls a b
deliveries (query d ∷ calls) a b = deliveries calls a b

abbrev pub commands : List Call → Text → Text → ℕ
commands [] a b = 0
commands (command p k ∷ calls) a b =
    if text_eq (format_int p) a && text_eq k b then commands calls a b + 1 else commands calls a b
commands (user i ∷ calls) a b = commands calls a b
commands (webhook p s ∷ calls) a b = commands calls a b
commands (query d ∷ calls) a b = commands calls a b

abbrev pub NoneTwice : List ℤ → Type 0
NoneTwice [] = Unit
NoneTwice (i ∷ ids) = (is_known ids i ≡ false) × NoneTwice ids

-- What the metrics show of the calls.
pub record Counts (calls : List Call) (m : Metrics) : Type 0 where
  pub gauge : m.users_active ≡ length m.users
  pub once : NoneTwice m.users
  pub known : (id : ℤ) → is_known m.users id ≡ was_recorded calls id
  pub webhooks : (a b : Text) → m.webhook_calls a b ≡ deliveries calls a b
  pub commanded : (a b : Text) → m.command_calls a b ≡ commands calls a b

user-Counts :
    (calls : List Call) (m : Metrics) (id : ℤ)
    → Counts calls m
    → (m' : Metrics) × (record_user (some m) id ≡ some m') × Counts (user id ∷ calls) m'
unfolding record_user
user-Counts calls m id v = elim (Bool-cases (leb_ℤ id (pos 0))) [
  | inl ignored ↦ (
    m,
    rw (ignored) refl,
    record {
      gauge = v.gauge;
      once = v.once;
      known = λ i. ground (arith, v.known i, ignored);
      webhooks = v.webhooks;
      commanded = v.commanded;
    },
  )
  | inr positive ↦ elim (Bool-cases (is_known m.users id)) [
    | inl seen ↦ (
      m,
      rw (positive, seen) refl,
      record {
        gauge = v.gauge;
        once = v.once;
        known = λ i. ground (arith, v.known i, v.known id, seen, positive, eqb_ℤ_iff i id);
        webhooks = v.webhooks;
        commanded = v.commanded;
      },
    )
    | inr new ↦ (
      record m { users = id ∷ m.users; users_active = length (id ∷ m.users) },
      rw (positive, new) refl,
      record {
        gauge = refl;
        once = (new, v.once);
        known = λ i. ground (arith, v.known i, positive, eqb_ℤ_iff i id);
        webhooks = v.webhooks;
        commanded = v.commanded;
      },
    )
  ]
]

call-Counts :
    (calls : List Call) (m : Metrics) (c : Call)
    → Counts calls m
    → (m' : Metrics) × (make_call (some m) c ≡ some m') × Counts (c ∷ calls) m'
unfolding make_call record_webhook record_command observe_query increment
call-Counts calls m (user id) v = user-Counts calls m id v
call-Counts calls m (query d) v = (
  _,
  refl,
  record {
    gauge = v.gauge;
    once = v.once;
    known = v.known;
    webhooks = v.webhooks;
    commanded = v.commanded;
  },
)
call-Counts calls m (webhook p s) v = (
  _,
  refl,
  record {
    gauge = v.gauge;
    once = v.once;
    known = v.known;
    webhooks = λ a b. ground (arith, v.webhooks a b);
    commanded = v.commanded;
  },
)
call-Counts calls m (command p k) v = (
  _,
  refl,
  record {
    gauge = v.gauge;
    once = v.once;
    known = v.known;
    webhooks = v.webhooks;
    commanded = λ a b. ground (arith, v.commanded a b);
  },
)

-- After any calls on the metrics that `New` builds, each counter of deliveries and of commands shows how
-- many of the calls bear its labels; and the gauge of users shows the number of different positive
-- identifiers that were recorded, however often each was.
pub after_calls-Counts :
    (calls : List Call)
    → (m : Metrics) × (after_calls (some new_metrics) calls ≡ some m) × Counts calls m
unfolding after_calls
after_calls-Counts [] = (
  new_metrics,
  refl,
  record {
    gauge = refl;
    once = tt;
    known = λ id. refl;
    webhooks = λ a b. refl;
    commanded = λ a b. refl;
  },
)
after_calls-Counts (c ∷ calls) =
    let (m, e, v) = after_calls-Counts calls in
    let (m', e', v') = call-Counts calls m c v in (m', rw (e) e', v')
