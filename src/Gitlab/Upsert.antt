-- ===== src/Gitlab/Upsert.antt =====
-- internal/gitlab/gitlab.go: `UpsertNote`, the single report note of a merge request.
pub mod Scan
pub mod Edits
pub mod Idempotent
use cigar.Prelude.{
  ℕ, zero, suc, Bool, true, false, not, ◌||◌, Option, none, some, List, [], ◌∷◌, ◌==◌,
  if◌then◌else◌,
}
use cigar.Prelude.Int.{ℤ}
use cigar.Prelude.Result.{Result, ok, err}
use cigar.Text.{Text, contains}
use cigar.Gitlab.Paging.{Page}

pub record Note : Type 0 where
  pub id : ℤ
  pub system : Bool
  pub body : Text

-- A thread of notes, its root first.
abbrev pub Thread : Type 0
Thread = List Note

-- The note of a thread that the report may replace: the root, if it is no system note, bears the
-- marker, and has no replies.
unfoldable pub reusable_note : Text → Thread → Option Note
reusable_note marker [] = none
reusable_note marker (root ∷ []) =
    if root.system || not (contains root.body marker) then none else some root
reusable_note marker (root ∷ reply ∷ notes) = none

-- The loop over one page.
unfoldable pub first_reusable : Text → List Thread → Option Note
unfolding reusable_note
first_reusable marker [] = none
first_reusable marker (d ∷ ds) = elim (reusable_note marker d) [
  | some root ↦ some root
  | none ↦ first_reusable marker ds
]

-- What the loop over the pages comes to. Fuel is the model's own.
pub data Choice (E : Type 0) : Type 0 where
  update : ℤ → Choice E
  create : Choice E
  list_failed : E → Choice E
  out_of_fuel : Choice E

-- A write that the API is asked for.
pub data Write : Type 0 where
  update_note : ℤ → Text → Write
  create_note : Text → Write

pub data UpsertError (E : Type 0) : Type 0 where
  list_error write_error : E → UpsertError E
  no_fuel : UpsertError E

pub record Api (E : Type 0) : Type 0 where
  pub discussions : ℕ → Result E (Page Thread)
  pub write : Write → Option E

module _ {E : Type 0} (api : Api E) where
  unfoldable pub choose : Text → ℕ → ℕ → Choice E
  unfolding first_reusable
  choose marker zero page = out_of_fuel
  choose marker (suc fuel) page = elim (api.discussions page) [
    | err e ↦ list_failed e
    | ok p ↦ elim (first_reusable marker p.items) [
      | some root ↦ update root.id
      | none ↦
          let rest = choose marker fuel p.next_page in if p.next_page == 0 then create else rest
    ]
  ]

  -- The writes that are asked for, and the error that is returned, if any.
  abbrev pub issue : Write → List Write × Option (UpsertError E)
  issue w = elim (api.write w) [ none ↦ (w ∷ [], none) | some e ↦ (w ∷ [], some (write_error e)) ]

  abbrev pub perform : Text → Choice E → List Write × Option (UpsertError E)
  perform body (update id) = issue (update_note id body)
  perform body create = issue (create_note body)
  perform body (list_failed e) = ([], some (list_error e))
  perform body out_of_fuel = ([], some no_fuel)

  unfoldable pub upsert_note : ℕ → Text → Text → List Write × Option (UpsertError E)
  unfolding choose
  upsert_note fuel marker body = perform body (choose marker fuel 0)
