-- ===== src/Startup/Loaded.antt =====
-- deps.go and serve.go: a configuration that `Load` returned never meets the branches for unknown words.
use cigar.Prelude.{◌≡◌, refl, inl, inr, Bool, true, false, Option, [], ◌∷◌, if◌then◌else◌}
use cigar.Prelude.Result.{Result, ok, err, ◌>>=◌}
use cigar.Text.{Text, codes, text_eq, lower, trim_space}
use cigar.Time.{Duration}
use cigar.Float.{Float}
use cigar.Gitlab.Client.{Client}
use cigar.Config.{Config, load}
use cigar.Config.Accepts.{Accepted, load_iff}
use cigar.Chart.{Format, png, svg, markdown, parse_format}
use cigar.Webhook.Auth.{
  Authenticator, TokenError, new_signing_token_auth, default_timestamp_tolerance,
}
use cigar.Worker.{
  no_secret, no_signing_token, bad_token, unknown_method, token_or_error, build_authenticator,
}
use cigar.Reporter.{Reporter}
use cigar.Command.Handler.{Handler}
use cigar.Startup.{
  Outside, StartError, client_failed, prometheus_failed, no_bot_user, unknown_resolver,
  unknown_format, unknown_rule, no_signing_key, bad_auth, or_error, choose_resolver, new_reporter,
  new_advice_engine, new_command_handler, handler_if, start,
}

-- What holds of the error of a result, if it is one.
pub data OnError {X A : Type 0} (P : X → Type 0) : Result X A → Type 0 where
  on_ok : (a : A) → OnError P (ok a)
  on_err : (x : X) → P x → OnError P (err x)

bind-OnError :
    {X A B : Type 0} (P : X → Type 0) (m : Result X A) (f : A → Result X B)
    → OnError P m
    → ((a : A) → OnError P (f a))
    → OnError P (m >>= f)
bind-OnError P (ok a) f h k = k a
bind-OnError P (err x) f (on_err _ p) k = on_err x p

or_error-OnError :
    {X Y A : Type 0} (P : Y → Type 0) (wrap : X → Y) (m : Result X A)
    → ((x : X) → P (wrap x))
    → OnError P (or_error wrap m)
or_error-OnError P wrap (ok a) h = on_ok a
or_error-OnError P wrap (err x) h = on_err (wrap x) (h x)

if-OnError :
    {X A : Type 0} (P : X → Type 0) (b : Bool) (m n : Result X A)
    → OnError P m
    → OnError P n
    → OnError P (if b then m else n)
if-OnError P true m n h k = h
if-OnError P false m n h k = k

-- The errors of a client, or of a credential that is not there or is malformed.
abbrev pub Reasonable : {E : Type 0} → StartError E → Type 0
Reasonable (client_failed e) = Unit
Reasonable (prometheus_failed e) = Unit
Reasonable (no_bot_user e) = Unit
Reasonable no_signing_key = Unit
Reasonable (bad_auth no_secret) = Unit
Reasonable (bad_auth no_signing_token) = Unit
Reasonable (bad_auth (bad_token e)) = Unit
Reasonable (bad_auth (unknown_method m)) = ⊥
Reasonable (unknown_resolver m) = ⊥
Reasonable (unknown_format m) = ⊥
Reasonable (unknown_rule m) = ⊥

module _ {F : Type 0} (cfg : Config F) (a : Accepted cfg) where
  format_known : (f : Format) × (parse_format cfg.chart_format ≡ ok f)
  unfolding parse_format text_eq trim_space lower
  format_known = elim a.chart_format [
    | inl e ↦ (png, rw (e) refl)
    | inr (inl e) ↦ (svg, rw (e) refl)
    | inr (inr (inl e)) ↦ (markdown, rw (e) refl)
    | inr (inr (inr (inl e))) ↦ (markdown, rw (e) refl)
    | inr (inr (inr (inr h))) ↦ absurd h
  ]

-- The two known methods, with a credential that may be missing or malformed.
secret-Reasonable :
    {E : Type 0} (s t : Text)
    → OnError Reasonable
        (or_error {E = StartError E} bad_auth (build_authenticator (codes "secret") s t))
unfolding build_authenticator text_eq
secret-Reasonable [] t = on_err _ tt
secret-Reasonable (c ∷ s) t = on_ok _

token-Reasonable :
    {E : Type 0} (r : Result TokenError Authenticator)
    → OnError Reasonable (or_error {E = StartError E} bad_auth (token_or_error r))
token-Reasonable (ok m) = on_ok m
token-Reasonable (err e) = on_err _ tt

signing_token-Reasonable :
    {E : Type 0} (s t : Text)
    → OnError Reasonable
        (or_error {E = StartError E} bad_auth (build_authenticator (codes "signing_token") s t))
unfolding build_authenticator text_eq
signing_token-Reasonable s [] = on_err _ tt
signing_token-Reasonable s (c ∷ t) =
    token-Reasonable (new_signing_token_auth (c ∷ t) default_timestamp_tolerance)

module _ {E F : Type 0} ⦃fl : Float F⦄ (o : Outside E F) (cfg : Config F) (a : Accepted cfg) where
  choose_resolver-Reasonable : (gl : Client E) → OnError Reasonable (choose_resolver o cfg gl)
  unfolding choose_resolver text_eq
  choose_resolver-Reasonable gl = elim a.pod_resolver [
    | inl e ↦ rw (e) (search (bind-OnError, or_error-OnError, on_ok))
    | inr (inl e) ↦ rw (e) (on_ok _)
    | inr (inr h) ↦ absurd h
  ]

  new_reporter-Reasonable : OnError Reasonable (new_reporter o cfg)
  unfolding new_reporter
  new_reporter-Reasonable =
      search (bind-OnError, or_error-OnError, choose_resolver-Reasonable, on_ok) depth 12

  parse_format-Reasonable :
      OnError Reasonable
        (or_error {E = StartError E} unknown_format (parse_format cfg.chart_format))
  parse_format-Reasonable = let (f, e) = format_known cfg a in rw (e) (on_ok f)

  advice_engine-Reasonable :
      OnError Reasonable (or_error {E = StartError E} unknown_rule (new_advice_engine o cfg))
  unfolding new_advice_engine cigar.Advice.new_engine
  advice_engine-Reasonable = on_ok _

  new_command_handler-Reasonable :
      (rep : Reporter E F) → OnError Reasonable (new_command_handler o cfg rep)
  unfolding new_command_handler
  new_command_handler-Reasonable rep =
      search
        (
          bind-OnError, or_error-OnError, choose_resolver-Reasonable, parse_format-Reasonable,
          advice_engine-Reasonable, on_ok,
        )
        depth 20

  auth-Reasonable : OnError Reasonable (
      or_error {E = StartError E} bad_auth
        (build_authenticator cfg.auth_method cfg.webhook_secret cfg.webhook_signing_token))
  auth-Reasonable = elim a.auth_method [
    | inl e ↦ rw (e) (secret-Reasonable _ _)
    | inr (inl e) ↦ rw (e) (signing_token-Reasonable _ _)
    | inr (inr h) ↦ absurd h
  ]

  handler_if-Reasonable : (rep : Reporter E F) → OnError Reasonable (handler_if o cfg rep)
  unfolding handler_if
  handler_if-Reasonable rep =
      let refused : OnError {A = Option (Handler E F)} (Reasonable {E = E}) (err no_signing_key) =
        on_err _ tt in
      search (if-OnError, bind-OnError, refused, new_command_handler-Reasonable, on_ok)

  start-Reasonable : OnError Reasonable (start o cfg)
  unfolding start
  start-Reasonable =
      search (bind-OnError, new_reporter-Reasonable, handler_if-Reasonable, auth-Reasonable, on_ok)
        depth 12

-- On a configuration that `Load` returned, the start of the server fails only by an error of a client,
-- for commands that are enabled without a signing key, or for a webhook credential that is not set or
-- malformed: no pod resolver, chart format, advice rule or authentication method is unknown.
pub loaded-start :
    {E F : Type 0} ⦃fl : Float F⦄ (parse_go_duration : Text → Option Duration)
    (get env : Text → Text) (token_first : Bool) (cfg : Config F) (o : Outside E F)
    → load parse_go_duration get env token_first ≡ ok cfg
    → OnError Reasonable (start o cfg)
loaded-start parse_go_duration get env token_first cfg o h =
    start-Reasonable o cfg ((load_iff parse_go_duration get env token_first cfg).0 h).1
