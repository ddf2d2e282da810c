-- ===== src/Gitlab/Upsert/Edits.antt =====
-- An edit of one note, in the discussions of a merge request: which note `first_reusable` of
-- gitlab.go finds afterwards.
use mathlib.Core.Option.{some-injective}
use cigar.Prelude.{
  ◌≡◌, refl, ap, sym, subst, ◌∙◌, true, false, some, List, [], ◌∷◌, map, arith, if◌then◌else◌, inl,
  inr, Bool-cases,
}
use cigar.Prelude.Int.{ℤ, eqb_ℤ, eqb_ℤ_iff}
use cigar.Text.{Text, contains}
use cigar.Gitlab.Upsert.{Note, Thread, reusable_note, first_reusable}
use cigar.Gitlab.Upsert.Scan.{IsReport, reusable_note-cases}

abbrev pub edit_note : ℤ → Text → Note → Note
edit_note id body n = if eqb_ℤ n.id id then record n { body = body } else n

abbrev pub edit_threads : ℤ → Text → List Thread → List Thread
edit_threads id body = map (map (edit_note id body))

edit_note-id : (id : ℤ) (body : Text) (n : Note) → (edit_note id body n).id ≡ n.id
edit_note-id id body n = elim (Bool-cases (eqb_ℤ n.id id)) [
  | inl same ↦ rw (same, edit_note) refl
  | inr other ↦ rw (other, edit_note) refl
]

abbrev head_or : Note → Thread → Note
head_or n [] = n
head_or n (m ∷ d) = m

-- An edit makes a report of a thread only where it edits the thread's root.
edited_root :
    (marker body : Text) (id : ℤ) (d : Thread) (root : Note)
    → (IsReport marker d → ⊥)
    → map (edit_note id body) d ≡ root ∷ []
    → IsReport marker (root ∷ [])
    → root.id ≡ id
edited_root marker body id [] root no_report e is = cc
edited_root marker body id (n ∷ m ∷ d) root no_report e is = cc
edited_root marker body id (n ∷ []) root no_report e is =
    let is_root : edit_note id body n ≡ root = ap (head_or n) e in
    elim (Bool-cases (eqb_ℤ n.id id)) [
      | inl same ↦
          ap (λ (m : Note). m.id) (sym is_root)
          ∙ (edit_note-id id body n ∙ (eqb_ℤ_iff n.id id).0 same)
      | inr other ↦
          let kept : edit_note id body n ≡ n = rw (other, edit_note) refl in
          absurd
            (no_report (subst (λ (m : Note). IsReport marker (m ∷ [])) (sym is_root ∙ kept) is))
    ]

edited_is_reusable :
    (marker body : Text) (root : Note)
    → root.system ≡ false
    → contains body marker ≡ true
    → reusable_note marker (edit_note root.id body root ∷ []) ≡ some (edit_note root.id body root)
unfolding reusable_note
edited_is_reusable marker body root sys has = ground (arith, eqb_ℤ_iff root.id root.id)

pub first_reusable-head :
    (marker : Text) (d : Thread) (ds : List Thread) (root : Note)
    → reusable_note marker d ≡ some root
    → first_reusable marker (d ∷ ds) ≡ some root
unfolding first_reusable
first_reusable-head marker d ds root e = ground (arith, e)

-- After the edit of the first report the first one is still the note that was edited.
pub edit_first :
    (marker body : Text) (ds : List Thread) (root : Note)
    → contains body marker ≡ true
    → first_reusable marker ds ≡ some root
    → (root' : Note) × (first_reusable marker (edit_threads root.id body ds) ≡ some root')
      × (root'.id ≡ root.id)
unfolding first_reusable
edit_first marker body [] root has h = cc
edit_first marker body (d ∷ ds) root has h = elim (reusable_note-cases marker d) [
  | inl (found, alone, is, e) ↦
      let chosen = some-injective _ _ (sym e ∙ (e ∙ (rw (e, first_reusable) at h))) in
      let is' = subst (λ (m : Note). IsReport marker (m ∷ [])) chosen is in
      let edited = edit_note root.id body in
      let alone' = alone ∙ ap (λ (m : Note). m ∷ []) chosen in
      (
        edit_note root.id body root,
        rw alone' (
            first_reusable-head marker (map edited (root ∷ [])) (map (map edited) ds) _
              (edited_is_reusable marker body root is'.0 has)),
        edit_note-id root.id body root,
      )
  | inr (no_report, e) ↦ elim (reusable_note-cases marker (map (edit_note root.id body) d)) [
    | inl (root', alone, is, e') ↦
        (root', ground (arith, e'), edited_root marker body root.id d root' no_report alone is)
    | inr (still, e') ↦
        let (root', e'', same) = edit_first marker body ds root has (rw (e, first_reusable) at h) in
        (root', ground (arith, e', e''), same)
  ]
]
