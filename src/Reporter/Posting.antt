-- ===== src/Reporter/Posting.antt =====
-- reporter.go: what `ProcessPipeline` posts, and what it reports of it.
use cigar.Prelude.{
  subst, ℕ, ◌^◌, ◌<◌, ◌≡◌, ◌≢◌, refl, sym, ap, ◌∙◌, ◌⊎◌, inl, inr, Bool, true, false, Option, none,
  some, [], ◌∷◌, ◌++◌, arith, All, Bool-cases, bind-eq-some, append_assoc, if◌then◌else◌,
}
use cigar.Prelude.Int.{ℤ, pos, eqb_ℤ, eqb_ℤ_iff}
use cigar.Prelude.Result.{Result, ok, err}
use cigar.Text.{Text, codes, contains, is_empty}
use cigar.Text.Search.{contains_prefix, contains-append_right}
use cigar.Crypto.{Hmac}
use cigar.Float.{Float}
use cigar.Report.{Data}
use cigar.Report.Marker.{marker_prefix, signed_marker, parse_signed_marker, lead_text}
use cigar.Report.Marker.Signed.{parse_signed_marker-signed}
use cigar.Report.Render.{render, note_marker_of, heading, no_data, no_data_notice, tables}
use cigar.Reporter.{
  Reporter, Post, Outcome, ReportError, build, prepared, upserted, post_body, post_data,
  post_report, post_resolved, process_pipeline,
}

module _ (F : Type 0) ⦃fl : Float F⦄ where
  render-eq-some :
      (d : Data F) (body : Text)
      → render F d ≡ some body
      → (rest : Text) × (body ≡ note_marker_of F d ++ heading F d ++ rest)
  unfolding render
  render-eq-some d body e =
      let (rest, _, q) =
        bind-eq-some (if no_data F d then some no_data_notice else tables F d) _ e in
      (rest, ground (arith, q))

-- An identifier of GitLab: positive, in the range of an `int64`.
abbrev pub IsId : ℤ → Type 0
IsId i = (n : ℕ) × (i ≡ pos n) × (n < 2 ^ 63)

module _ {E F : Type 0} ⦃fl : Float F⦄ (h : Hmac) (r : Reporter E F) where
  -- A post under this pipeline: `UpsertNote` looks for its marker and it bears it, and the command
  -- handler reads from it the pipeline and the merge request that it is posted on.
  abbrev pub IsSigned : ℤ → Post → Type 0
  IsSigned pipeline_id p =
      (contains p.body p.marker ≡ true)
      × (parse_signed_marker h p.body r.signing_key ≡ some (pipeline_id, p.mr_iid))

  signed_body-IsSigned :
      (pid m : ℤ) (rest : Text)
      → IsId pid
      → IsId m
      → (contains (signed_marker h pid m r.signing_key ++ rest) marker_prefix ≡ true)
        × (parse_signed_marker h (signed_marker h pid m r.signing_key ++ rest) r.signing_key
            ≡ some (pid, m))
  unfolding signed_marker
  signed_body-IsSigned pid m rest (i, ei, hi) (j, ej, hj) = (
    contains-append_right marker_prefix _ rest (
        contains-append_right marker_prefix lead_text _
          (contains_prefix marker_prefix (codes " p="))),
    rw (ei, ej) (parse_signed_marker-signed h i j r.signing_key rest hi hj),
  )

  marker-kept :
      (pid m : ℤ) (d : Data F)
      → d.note_marker ≡ signed_marker h pid m r.signing_key
      → note_marker_of F d ≡ signed_marker h pid m r.signing_key
  unfolding signed_marker
  marker-kept pid m d e = rw (e) refl

  post_body-Signed :
      (project pid m : ℤ) (d : Data F) (o : Option Text)
      → IsId pid
      → IsId m
      → d.note_marker ≡ signed_marker h pid m r.signing_key
      → render F d ≡ o
      → All (IsSigned pid) (post_body h r project m o).posts
  post_body-Signed project pid m d none ip im em er = tt
  post_body-Signed project pid m d (some body) ip im em er =
      let (rest, e) = render-eq-some F d body er in
      let same : body ≡ signed_marker h pid m r.signing_key ++ (heading F d ++ rest) =
        e
        ∙ append_assoc (note_marker_of F d) (heading F d) rest
        ∙ ap (λ k. k ++ (heading F d ++ rest)) (marker-kept pid m d em) in
      (rw (same) (signed_body-IsSigned pid m (heading F d ++ rest) ip im), tt)

  post_data-Signed :
      (project pid m : ℤ) (status : Text) (d : Result (ReportError E) (Data F))
      → IsId pid
      → IsId m
      → is_empty r.signing_key ≡ false
      → All (IsSigned pid) (post_data h r project pid m status d).posts
  post_data-Signed project pid m status (err e) ip im key = tt
  post_data-Signed project pid m status (ok d) ip im key =
      post_body-Signed project pid m (prepared h r pid m status d) _ ip im (rw (key) refl) refl

  post_report-Signed :
      (project pid m : ℤ) (status : Text)
      → IsId pid
      → IsId m
      → is_empty r.signing_key ≡ false
      → All (IsSigned pid) (post_report h r project pid m status).posts
  unfolding post_report
  post_report-Signed project pid m status =
      post_data-Signed project pid m status (build r project pid)

  post_resolved-Signed :
      (project pid : ℤ) (status : Text) (iid : Result E (Option ℤ))
      → IsId pid
      → ((m : ℤ) → iid ≡ ok (some m) → IsId m)
      → is_empty r.signing_key ≡ false
      → All (IsSigned pid) (post_resolved h r project pid status iid).posts
  post_resolved-Signed project pid status (err e) ip im key = tt
  post_resolved-Signed project pid status (ok none) ip im key = tt
  post_resolved-Signed project pid status (ok (some m)) ip im key =
      post_report-Signed project pid m status ip (im m refl) key

  -- With a signing key, and with identifiers in the range of an `int64`, every note that
  -- `ProcessPipeline` posts contains the marker that `UpsertNote` looks for, and the command handler
  -- reads from it the pipeline, and the merge request that it is posted on.
  pub process_pipeline-Signed :
      (project pid mr : ℤ) (ref status : Text)
      → is_empty r.signing_key ≡ false
      → IsId pid
      → (mr ≢ pos 0 → IsId mr)
      → ((m : ℤ) → r.gitlab.merge_request_for_branch project ref ≡ ok (some m) → IsId m)
      → All (IsSigned pid) (process_pipeline h r project pid mr ref status).posts
  unfolding process_pipeline
  process_pipeline-Signed project pid mr ref status key ip im ib =
      elim (Bool-cases (eqb_ℤ mr (pos 0))) [
        | inl absent ↦ rw (absent) (post_resolved-Signed project pid status _ ip ib key)
        | inr given ↦ rw (given) (
            post_report-Signed project pid mr status ip
              (im (λ z. ground (arith, eqb_ℤ_iff mr (pos 0), given, z))) key)
      ]

  -- One note was posted under this number, and GitLab took it.
  abbrev pub Accepted : ℤ → ℤ → Outcome E → Type 0
  Accepted project m o =
      (p : Post) × (o.posts ≡ p ∷ [])
      × (p.project_id ≡ project)
      × (p.mr_iid ≡ m)
      × (r.gitlab.upsert_note project m marker_prefix p.body ≡ none)

  upserted-ok : (u : Option E) (b : Bool) → upserted h r u ≡ ok b → (u ≡ none) × (b ≡ true)
  upserted-ok none b e = ground (arith, e)
  upserted-ok (some x) b e = cc

  post_data-ok :
      (project pid m : ℤ) (status : Text) (d : Result (ReportError E) (Data F)) (b : Bool)
      → (post_data h r project pid m status d).result ≡ ok b
      → Accepted project m (post_data h r project pid m status d) × (b ≡ true)
  post_data-ok project pid m status (err e) b q = cc
  post_data-ok project pid m status (ok d) b q = post_body-ok project m _ b q
    where
      post_body-ok :
          (project m : ℤ) (o : Option Text) (b : Bool)
          → (post_body h r project m o).result ≡ ok b
          → Accepted project m (post_body h r project m o) × (b ≡ true)
      post_body-ok project m none b q = cc
      post_body-ok project m (some body) b q =
          let (none_e, true_e) = upserted-ok _ b q in ((_, refl, refl, refl, none_e), true_e)

  -- Which merge request the note goes to: the one of the call, or, for 0, the branch's open one.
  abbrev pub Chosen : ℤ → ℤ → Text → ℤ → Type 0
  Chosen project mr ref m =
      ((mr ≢ pos 0) × (m ≡ mr))
      ⊎ ((mr ≡ pos 0) × (r.gitlab.merge_request_for_branch project ref ≡ ok (some m)))

  -- What the result of `ProcessPipeline` says of its posts.
  abbrev pub Tells : ℤ → ℤ → Text → Outcome E → Bool → Type 0
  Tells project mr ref o true = (m : ℤ) × Chosen project mr ref m × Accepted project m o
  Tells project mr ref o false =
      (mr ≡ pos 0) × (r.gitlab.merge_request_for_branch project ref ≡ ok none) × (o.posts ≡ [])

  report-Tells :
      (project pid mr m : ℤ) (ref status : Text) (b : Bool)
      → Chosen project mr ref m
      → (post_report h r project pid m status).result ≡ ok b
      → Tells project mr ref (post_report h r project pid m status) b
  unfolding post_report
  report-Tells project pid mr m ref status b c q =
      let (a, t) = post_data-ok project pid m status (build r project pid) b q in
      subst (Tells project mr ref (post_data h r project pid m status (build r project pid)))
        (sym t) (m, c, a)

  resolved-Tells :
      (project pid mr : ℤ) (ref status : Text) (iid : Result E (Option ℤ)) (b : Bool)
      → mr ≡ pos 0
      → r.gitlab.merge_request_for_branch project ref ≡ iid
      → (post_resolved h r project pid status iid).result ≡ ok b
      → Tells project mr ref (post_resolved h r project pid status iid) b
  resolved-Tells project pid mr ref status (err e) b z f q = cc
  resolved-Tells project pid mr ref status (ok none) true z f q = cc
  resolved-Tells project pid mr ref status (ok none) false z f q = (z, f, refl)
  resolved-Tells project pid mr ref status (ok (some m)) b z f q =
      report-Tells project pid mr m ref status b (inr (z, f)) q

  -- The result is true only if one note was posted, on the merge request of the call, or, for 0, on
  -- the branch's open one, and GitLab took it; it is false only if the call names no merge request
  -- and the branch has none open, and then nothing is posted.
  pub process_pipeline-Tells :
      (project pid mr : ℤ) (ref status : Text) (b : Bool)
      → (process_pipeline h r project pid mr ref status).result ≡ ok b
      → Tells project mr ref (process_pipeline h r project pid mr ref status) b
  unfolding process_pipeline
  process_pipeline-Tells project pid mr ref status b = elim (Bool-cases (eqb_ℤ mr (pos 0))) [
    | inl absent ↦
        rw (absent)
          (resolved-Tells project pid mr ref status _ b ((eqb_ℤ_iff mr (pos 0)).0 absent) refl)
    | inr given ↦ rw (given) (
        report-Tells project pid mr mr ref status b
          (inl (λ z. ground (arith, eqb_ℤ_iff mr (pos 0), given, z), refl)))
  ]
