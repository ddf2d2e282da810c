-- ===== src/Gitlab/Upsert/Scan.antt =====
-- Which note `UpsertNote` writes, over all the pages of discussions.
use cigar.Prelude.{
  ℕ, zero, suc, ◌<◌, ◌≡◌, refl, ap, Option, none, some, List, [], ◌∷◌, ◌++◌, arith, Option-cases,
  inl, inr, ◌⊎◌, All, Bool-cases, true, false,
}
use cigar.Text.{Text, contains}
use cigar.Gitlab.Paging.{Pages, last, more}
use cigar.Gitlab.Upsert.{
  Note, Thread, reusable_note, first_reusable, Choice, update, create, Api, choose, upsert_note,
  perform, Write, update_note, create_note, UpsertError, write_error, issue,
}

-- The choice over one list of discussions.
abbrev pub choice_of : {E : Type 0} → Option Note → Choice E
choice_of none = create
choice_of (some root) = update root.id

first_reusable-append_some :
    (marker : Text) (xs ys : List Thread) (root : Note)
    → first_reusable marker xs ≡ some root
    → first_reusable marker (xs ++ ys) ≡ some root
unfolding first_reusable
first_reusable-append_some marker [] ys root h = cc
first_reusable-append_some marker (d ∷ xs) ys root h =
    ground (arith, first_reusable-append_some marker xs ys root)

pub first_reusable-append_none :
    (marker : Text) (xs ys : List Thread)
    → first_reusable marker xs ≡ none
    → first_reusable marker (xs ++ ys) ≡ first_reusable marker ys
unfolding first_reusable
first_reusable-append_none marker [] ys h = refl
first_reusable-append_none marker (d ∷ xs) ys h =
    ground (arith, first_reusable-append_none marker xs ys)

-- A report that nobody has answered: the root of a thread, alone, no system note, with the marker.
abbrev pub IsReport : Text → Thread → Type 0
IsReport marker [] = ⊥
IsReport marker (root ∷ []) = (root.system ≡ false) × (contains root.body marker ≡ true)
IsReport marker (root ∷ reply ∷ notes) = ⊥

-- The first such thread.
abbrev pub First : Text → Note → List Thread → Type 0
First marker root ds =
    (before : List Thread) × (after : List Thread) × (ds ≡ before ++ (root ∷ []) ∷ after)
    × All (λ d. IsReport marker d → ⊥) before
    × IsReport marker (root ∷ [])

abbrev pub error_of : {E : Type 0} → Option E → Option (UpsertError E)
error_of none = none
error_of (some e) = some (write_error e)

pub reusable_note-cases :
    (marker : Text) (d : Thread)
    → ((root : Note) × (d ≡ root ∷ [])
        × IsReport marker (root ∷ [])
        × (reusable_note marker d ≡ some root))
      ⊎ ((IsReport marker d → ⊥) × (reusable_note marker d ≡ none))
unfolding reusable_note
reusable_note-cases marker [] = inr (λ p. p, refl)
reusable_note-cases marker (root ∷ reply ∷ notes) = inr (λ p. p, refl)
reusable_note-cases marker (root ∷ []) = elim (Bool-cases root.system) [
  | inl system ↦ inr (λ p. cc, ground (arith, system))
  | inr plain ↦ elim (Bool-cases (contains root.body marker)) [
    | inl bears ↦ inl (root, refl, (plain, bears), ground (arith, plain, bears))
    | inr bare ↦ inr (λ p. cc, ground (arith, plain, bare))
  ]
]

pub first_reusable-cases :
    (marker : Text) (ds : List Thread)
    → ((root : Note) × First marker root ds × (first_reusable marker ds ≡ some root))
      ⊎ (All (λ d. IsReport marker d → ⊥) ds × (first_reusable marker ds ≡ none))
unfolding first_reusable
first_reusable-cases marker [] = inr (tt, refl)
first_reusable-cases marker (d ∷ ds) = elim (reusable_note-cases marker d) [
  | inl (root, alone, is, e) ↦
      inl (root, ([], ds, ap (λ (x : Thread). x ∷ ds) alone, tt, is), ground (arith, e))
  | inr (is_not, e) ↦ elim (first_reusable-cases marker ds) [
    | inl (root, (before, after, split, nots, is), e') ↦
        inl (root, (d ∷ before, after, ap (◌∷◌ d) split, (is_not, nots), is), ground (arith, e, e'))
    | inr (nots, e') ↦ inr ((is_not, nots), ground (arith, e, e'))
  ]
]

module _ {E : Type 0} (api : Api E) where
  pub choose-Pages :
      (marker : Text) (fuel page n : ℕ) (threads : List Thread)
      → n < fuel
      → Pages api.discussions page n threads
      → choose api marker fuel page ≡ choice_of (first_reusable marker threads)
  unfolding choose
  choose-Pages marker zero page n threads h p = absurd (omega arith)
  choose-Pages marker (suc fuel) page n threads h (last xs e same) =
      elim (Option-cases (first_reusable marker xs)) [
        | inl f ↦ rw same (rw (e, f, choose))
        | inr (root, f) ↦ rw same (rw (e, f, choose))
      ]
  choose-Pages marker (suc fuel) page n threads h
        (more {n = k} {rest = rest} xs next e ne ps same) =
      elim (Option-cases (first_reusable marker xs)) [
        | inl f ↦ ground (
          arith,
          first_reusable-append_none marker xs rest f,
          choose-Pages marker fuel next k rest,
        )
        | inr (root, f) ↦ ground (arith, first_reusable-append_some marker xs rest root f)
      ]

  pub upsert_note-chosen :
      (marker body : Text) (fuel n : ℕ) (threads : List Thread)
      → n < fuel
      → Pages api.discussions 0 n threads
      → upsert_note api fuel marker body
        ≡ perform api body (choice_of (first_reusable marker threads))
  unfolding upsert_note
  upsert_note-chosen marker body fuel n threads h p =
      ap (perform api body) (choose-Pages marker fuel 0 n threads h p)

  -- The one write, and its error.
  abbrev pub Writes : Write → List Write × Option (UpsertError E) → Type 0
  Writes w (ws, e) = (ws ≡ w ∷ []) × (e ≡ error_of (api.write w))

  issue-Writes : (w : Write) → Writes w (issue api w)
  issue-Writes w = elim (Option-cases (api.write w)) [
    | inl taken ↦ (rw (taken, issue) refl, rw (taken, issue) refl)
    | inr (x, refused) ↦ (rw (refused, issue) refl, rw (refused, issue) refl)
  ]

  -- The first thread that the report may reuse has its note's body replaced; or there is none, and a
  -- note is created.
  abbrev pub Upserts :
      (marker body : Text) → List Thread → List Write × Option (UpsertError E) → Type 0
  Upserts marker body threads o =
      ((root : Note) × First marker root threads × Writes (update_note root.id body) o)
      ⊎ (All (λ d. IsReport marker d → ⊥) threads × Writes (create_note body) o)

  -- With fuel for all the pages, `UpsertNote` asks for one write, and returns its error: the new body
  -- for the first note, over all the pages, that is the root of a thread without a reply, is no system
  -- note and bears the marker; or a new note with the body, if there is no such note.
  pub upsert_note-Pages :
      (marker body : Text) (fuel n : ℕ) (threads : List Thread)
      → n < fuel
      → Pages api.discussions 0 n threads
      → Upserts marker body threads (upsert_note api fuel marker body)
  upsert_note-Pages marker body fuel n threads h p =
      rw (upsert_note-chosen marker body fuel n threads h p)
        (elim (first_reusable-cases marker threads) [
          | inl (root, first, e) ↦ rw e (inl (root, first, issue-Writes (update_note root.id body)))
          | inr (nowhere, e) ↦ rw e (inr (nowhere, issue-Writes (create_note body)))
        ])
