-- ===== src/Gitlab/Upsert/Idempotent.antt =====
-- One report note per merge request: what a second `UpsertNote` finds after a first one.
use mathlib.Core.Option.{some-injective}
use cigar.Prelude.{
  ℕ, ◌<◌, ◌≡◌, refl, ap, sym, subst, ◌∙◌, true, false, Option, none, some, List, [], ◌∷◌, ◌++◌,
  Option-cases, inl, inr, ◌⊎◌, length, suc,
}
use cigar.Prelude.Int.{ℤ}
use cigar.Text.{Text, contains}
use cigar.Gitlab.Paging.{Pages}
use cigar.Gitlab.Upsert.{
  Note, Thread, reusable_note, first_reusable, Write, update_note, create_note, Api, upsert_note,
  perform, issue,
}
use cigar.Gitlab.Upsert.Edits.{edit_threads, first_reusable-head, edit_first}
use cigar.Gitlab.Upsert.Scan.{
  choice_of, upsert_note-chosen, First, first_reusable-cases, first_reusable-append_none,
}

-- What GitLab documents of its two write calls, as far as the list of discussions shows it.
pub record Server : Type 0 where
  pub after : Write → List Thread → List Thread
  pub new_id : List Thread → ℤ
  pub after_update :
      (id : ℤ) (body : Text) (ds : List Thread)
      → after (update_note id body) ds ≡ edit_threads id body ds
  pub after_create :
      (body : Text) (ds : List Thread)
      → after (create_note body) ds
        ≡ ds ++ ((record { id = new_id ds; system = false; body = body } ∷ []) ∷ [])

chosen-First :
    (marker : Text) (ds : List Thread) (root : Note)
    → first_reusable marker ds ≡ some root
    → First marker root ds
chosen-First marker ds root e = elim (first_reusable-cases marker ds) [
  | inl (found, first, e') ↦
      subst (λ (m : Note). First marker m ds) (some-injective _ _ (sym e' ∙ e)) first
  | inr (nowhere, e') ↦ cc (sym e' ∙ e)
]

issued : {E : Type 0} (api : Api E) (w : Write) → (issue api w).0 ≡ w ∷ []
issued api w = elim (Option-cases (api.write w)) [
  | inl e ↦ rw (e, issue)
  | inr (x, e) ↦ rw (e, issue)
]

-- The write of a choice.
abbrev pub write_of : Option Note → Text → Write
write_of none body = create_note body
write_of (some root) body = update_note root.id body

performed :
    {E : Type 0} (api : Api E) (body : Text) (o : Option Note)
    → (perform api body (choice_of o)).0 ≡ write_of o body ∷ []
performed api body none = issued api (create_note body)
performed api body (some root) = issued api (update_note root.id body)

module _ (server : Server) where
  open server use {after, new_id, after_update, after_create}

  -- The number of the note that is written.
  abbrev id_of : Option Note → List Thread → ℤ
  id_of none ds = new_id ds
  id_of (some root) ds = root.id

  reusable_after :
      (marker body : Text) (ds : List Thread) (o : Option Note)
      → first_reusable marker ds ≡ o
      → contains body marker ≡ true
      → (root : Note) × (first_reusable marker (after (write_of o body) ds) ≡ some root)
        × (root.id ≡ id_of o ds)
  reusable_after marker body ds none e has =
      let new : Note = record { id = new_id ds; system = false; body = body } in
      (
        new,
        rw (after_create body ds) (
            first_reusable-append_none marker ds ((new ∷ []) ∷ []) e
            ∙ first_reusable-head marker (new ∷ []) [] new (unfold reusable_note in rw has refl)),
        refl,
      )
  reusable_after marker body ds (some root) e has =
      rw (after_update root.id body ds) (edit_first marker body ds root has e)

  -- The one write replaces the body of the note `id`, or creates the note `id`.
  abbrev pub Wrote : ℤ → Text → List Thread → List Write → Type 0
  Wrote id body ds ws =
      (ws ≡ update_note id body ∷ []) ⊎ ((ws ≡ create_note body ∷ []) × (id ≡ new_id ds))

  write_of-Wrote :
      (id : ℤ) (body : Text) (ds : List Thread) (o : Option Note)
      → id ≡ id_of o ds
      → Wrote id body ds (write_of o body ∷ [])
  write_of-Wrote id body ds none e = inr (refl, e)
  write_of-Wrote id body ds (some root) e = inl (rw e refl)

  pub settle : List Write → List Thread → List Thread
  settle [] ds = ds
  settle (w ∷ ws) ds = settle ws (after w ds)

  settle_one : (w : Write) (ds : List Thread) → settle (w ∷ []) ds ≡ after w ds
  unfolding settle
  settle_one w ds = refl

  writes :
      {E : Type 0} (api : Api E) (marker body : Text) (fuel n : ℕ) (ds : List Thread)
      → n < fuel
      → Pages api.discussions 0 n ds
      → (upsert_note api fuel marker body).0 ≡ write_of (first_reusable marker ds) body ∷ []
  writes api marker body fuel n ds h p =
      rw (upsert_note-chosen api marker body fuel n ds h p)
        (performed api body (first_reusable marker ds))

  length-edit :
      (id : ℤ) (body : Text) (ds : List Thread) → length (edit_threads id body ds) ≡ length ds
  length-edit id body [] = refl
  length-edit id body (d ∷ ds) = ap suc (length-edit id body ds)

  module _ {E : Type 0} (first second : Api E) (marker body body' : Text) (fuel fuel' n n' : ℕ)
      (ds : List Thread) where
    -- After one `UpsertNote` without error, with a body that bears the marker, a second one puts its
    -- body into the note that the first one wrote, and adds none; that note is then the first of the
    -- discussions that is the root of a thread without a reply, is no system note and bears the
    -- marker. Both read all the pages of the discussions that the server has at that time.
    pub upsert_note_twice :
        contains body marker ≡ true
        → (upsert_note first fuel marker body).1 ≡ none
        → n < fuel
        → Pages first.discussions 0 n ds
        → let ds' = settle (upsert_note first fuel marker body).0 ds in
          n' < fuel'
          → Pages second.discussions 0 n' ds'
          → (root : Note) × First marker root ds'
            × Wrote root.id body ds (upsert_note first fuel marker body).0
            × ((upsert_note second fuel' marker body').0 ≡ update_note root.id body' ∷ [])
            × (length (settle (upsert_note second fuel' marker body').0 ds') ≡ length ds')
    upsert_note_twice has done h p h' p' =
        let o = first_reusable marker ds in
        let ds' = settle (upsert_note first fuel marker body).0 ds in
        let wrote = writes first marker body fuel n ds h p in
        let now : ds' ≡ after (write_of o body) ds = rw wrote (settle_one (write_of o body) ds) in
        let (root, found, same) = reusable_after marker body ds o refl has in
        let found' : first_reusable marker ds' ≡ some root = rw now found in
        let wrote' : (upsert_note second fuel' marker body').0 ≡ update_note root.id body' ∷ [] =
          writes second marker body' fuel' n' ds' h' p'
          ∙ ap (λ (x : Option Note). write_of x body' ∷ []) found' in
        (
          root,
          chosen-First marker ds' root found',
          subst (Wrote root.id body ds) (sym wrote) (write_of-Wrote root.id body ds o same),
          wrote',
          rw wrote' (
              rw (settle_one (update_note root.id body') ds')
                (rw (after_update root.id body' ds') (length-edit root.id body' ds'))),
        )
