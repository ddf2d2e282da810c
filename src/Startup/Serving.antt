-- ===== src/Startup/Serving.antt =====
-- serve.go: how the reporter and the command handler of a running server fit together.
use cigar.Prelude.{◌≡◌, ◌≢◌, sym, ap, subst, ◌∙◌, false, some, [], ◌∷◌, arith, All}
use cigar.Prelude.Int.{ℤ, pos}
use cigar.Prelude.Result.{ok}
use cigar.Text.{Text, is_empty, contains}
use cigar.Float.{Float}
use cigar.Crypto.{Hmac}
use cigar.Chart.{Renderers}
use cigar.Gitlab.{Discussion}
use cigar.Config.{Config}
use cigar.Command.{Command, parse}
use cigar.Command.Handler.{Handler, after}
use cigar.Command.Handler.Execution.{handle_command, execute, count_command}
use cigar.Command.Handler.Authority.{Obeyed, discussion_of, handle_command-Obeyed}
use cigar.Report.Marker.{marker_prefix}
use cigar.Reporter.{Reporter, Post, process_pipeline}
use cigar.Reporter.Posting.{IsId, IsSigned, process_pipeline-Signed}
use cigar.Webhook.Event.{NoteEvent}
use cigar.Startup.{Outside, new_reporter, new_command_handler, handler_if, Served, start}

module _ {E F : Type 0} ⦃fl : Float F⦄ (o : Outside E F) (cfg : Config F) where
  reporter-key :
      (rep : Reporter E F)
      → new_reporter o cfg ≡ ok rep
      → rep.signing_key ≡ cfg.commands_signing_key
  unfolding new_reporter
  reporter-key rep h = ground arith

  handler-key :
      (rep : Reporter E F) (h : Handler E F)
      → new_command_handler o cfg rep ≡ ok h
      → h.signing_key ≡ cfg.commands_signing_key
  unfolding new_command_handler
  handler-key rep h e = ground arith

  start-parts :
      (s : Served E F)
      → start o cfg ≡ ok s
      → (new_reporter o cfg ≡ ok s.reporter) × (handler_if o cfg s.reporter ≡ ok s.handler)
  unfolding start
  start-parts s e = ground arith

  handler_if-key :
      (rep : Reporter E F) (h : Handler E F)
      → handler_if o cfg rep ≡ ok (some h)
      → (is_empty cfg.commands_signing_key ≡ false) × (h.signing_key ≡ cfg.commands_signing_key)
  unfolding handler_if
  handler_if-key rep h e = ground (arith, handler-key rep h)

  -- Commands are served only with a signing key, which the reporter and the handler share.
  start-shares :
      (s : Served E F) (h : Handler E F)
      → start o cfg ≡ ok s
      → s.handler ≡ some h
      → (is_empty s.reporter.signing_key ≡ false) × (h.signing_key ≡ s.reporter.signing_key)
  start-shares s h e q =
      let (er, eh) = start-parts s e in
      let (full, key) = handler_if-key s.reporter h (eh ∙ ap ok q) in
      let same = reporter-key s.reporter er in (ap is_empty same ∙ full, key ∙ sym same)

  -- In a server that has started with commands, a command is executed on the pipeline of the report
  -- when it answers a thread that the bot opened with that report: for each note that the reporter
  -- posts, with identifiers in the range of an `int64`, and each later note, on the same merge
  -- request, that is a command and bears no marker.
  pub posted_then_obeyed :
      (mac : Hmac) (r : Renderers E F) (s : Served E F) (h : Handler E F) (project pid mr : ℤ)
      (ref status : Text) (p : Post) (ev : NoteEvent) (cmd : Command) (disc : Discussion)
      → start o cfg ≡ ok s
      → s.handler ≡ some h
      → IsId pid
      → (mr ≢ pos 0 → IsId mr)
      → ((m : ℤ) → s.reporter.gitlab.merge_request_for_branch project ref ≡ ok (some m) → IsId m)
      → (process_pipeline mac s.reporter project pid mr ref status).posts ≡ p ∷ []
      → parse ev.body ≡ some cmd
      → contains ev.body marker_prefix ≡ false
      → ev.mr_iid ≡ p.mr_iid
      → discussion_of r h mac ev ≡ ok disc
      → disc.root_note_author_id ≡ h.bot_user_id
      → disc.root_note_body ≡ p.body
      → handle_command r h mac ev ≡ after (count_command r h ev cmd) (execute r h ev pid cmd)
  unfolding Obeyed
  posted_then_obeyed mac r s h project pid mr ref status p ev cmd disc started served ip im ib
        posted parsed plain same_mr read author body =
      let (full, key) = start-shares s h started served in
      let signed : All (IsSigned mac s.reporter pid) (p ∷ []) =
        subst (All (IsSigned mac s.reporter pid)) posted
          (process_pipeline-Signed mac s.reporter project pid mr ref status full ip im ib) in
      handle_command-Obeyed r h mac ev cmd pid
        (parsed, plain, (disc, read, author, rw (body, key, same_mr) signed.0.1))
