-- ===== src/Advice/Selection.antt =====
-- advice.go: which rules an engine gets, and which names are refused.
use cigar.Prelude.{
  ◌≡◌, refl, Bool, true, false, not, ◌&&◌, Option, List, [], ◌∷◌, map, arith, filter, find,
  if◌then◌else◌, Bool-cases, inl, inr,
}
use cigar.Text.{Text, text_eq, text_eq_iff}
use cigar.Advice.{Rule, Thresholds, listed, remove, first_listed, choose, engine_or, new_engine}
use cigar.Advice.Order.{Distinct}

listed-remove :
    (m : Text) (names : List Text) (n : Text)
    → listed (remove m names) n ≡ (listed names n && not (text_eq m n))
listed-remove m [] n = refl
listed-remove m (x ∷ names) n =
    ground (arith, listed-remove m names n, text_eq_iff m x, text_eq_iff n x, text_eq_iff m n)

abbrev pub is_empty_list : List Text → Bool
is_empty_list [] = true
is_empty_list (n ∷ names) = false

module _ {F : Type 0} where
  abbrev pub names_of : List (Rule F) → List Text
  names_of rules = map (λ r. r.name) rules

  -- The rules of the registry that the row names.
  abbrev pub named : List Text → List (Rule F) → List (Rule F)
  named want rules = filter (λ r. listed want r.name) rules

  named-remove :
      (m : Text) (want : List Text) (rules : List (Rule F))
      → listed (names_of rules) m ≡ false
      → named (remove m want) rules ≡ named want rules
  named-remove m want [] h = refl
  named-remove m want (r ∷ rules) h =
      ground (arith, named-remove m want rules, listed-remove m want r.name, text_eq_iff m r.name)

  choose-named :
      (rules : List (Rule F)) (want : List Text)
      → Distinct (names_of rules)
      → (choose rules want).0 ≡ named want rules
  unfolding choose
  choose-named [] want d = refl
  choose-named (r ∷ rules) want (new, d) = elim (Bool-cases (listed want r.name)) [
    | inl e ↦
        rw (e, choose-named rules (remove r.name want) d, named-remove r.name want rules new) refl
    | inr e ↦ rw (e, choose-named rules want d) refl
  ]

  choose-left :
      (rules : List (Rule F)) (want : List Text) (n : Text)
      → listed (choose rules want).1 n ≡ (listed want n && not (listed (names_of rules) n))
  unfolding choose
  choose-left [] want n = ground arith
  choose-left (r ∷ rules) want n = elim (Bool-cases (listed want r.name)) [
    | inl e ↦
        rw (e, choose-left rules (remove r.name want) n, listed-remove r.name want n)
          (ground (arith, text_eq_iff n r.name, text_eq_iff r.name n))
    | inr e ↦ rw (e, choose-left rules want n) (ground (arith, e, text_eq_iff n r.name))
  ]

  -- The first name that no rule has.
  abbrev pub first_unknown : List (Rule F) → List Text → Option Text
  first_unknown registry names = find (λ n. not (listed (names_of registry) n)) names

  first_listed-unknown :
      (registry : List (Rule F)) (left names : List Text)
      → ((n : Text) → listed names n ≡ true → listed left n ≡ not (listed (names_of registry) n))
      → first_listed left names ≡ first_unknown registry names
  unfolding first_listed
  first_listed-unknown registry left [] h = refl
  first_listed-unknown registry left (n ∷ names) h =
      let here = h n (ground (arith, text_eq_iff n n)) in
      let rest = first_listed-unknown registry left names (λ m e. h m (ground (arith, e))) in
      rw (here, rest) refl

  -- On a registry of distinct names `New` with a selection fails on the first name, in the
  -- selection's order, that no rule has, or else gives the rules of the registry that the selection
  -- names, in the registry's order; without a selection it gives them all.
  pub new_engine-named :
      (registry : List (Rule F)) (th : Thresholds F) (names : List Text)
      → Distinct (names_of registry)
      → new_engine registry th names
        ≡ engine_or th
            (if is_empty_list names then registry else named names registry)
            (first_unknown registry names)
  unfolding new_engine
  new_engine-named registry th [] d = refl
  new_engine-named registry th (n ∷ names) d =
      let left = (choose registry (n ∷ names)).1 in
      rw
        (
          choose-named registry (n ∷ names) d,
          first_listed-unknown registry left (n ∷ names)
              (λ m e. rw (choose-left registry (n ∷ names) m, e) refl),
        )
        refl
