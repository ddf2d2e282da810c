-- ===== src/Chart/Downsample.antt =====
-- internal/chart/markdown.go: `downsample`, the means of contiguous buckets.
use cigar.Prelude.{
  ℕ, zero, suc, ◌+◌, ◌-◌, ◌*◌, ◌/◌, ◌≤◌, ◌<◌, ◌≡◌, refl, sym, ap, ◌∙◌, List, [], ◌∷◌, ◌++◌, map,
  arith, leb, length, if◌then◌else◌, Bool-cases, inl, inr, All, ◌⊎◌,
}
use native.Mathlib.Nat.{
  le-div_iff_mul-le, div-mul-le_self, div-le_of_le-mul, mul-div_right, zero-add, suc-add, zero-mul,
  zero-div,
}
use cigar.Float.{Float}

-- The end of a bucket: at least one element behind its beginning.
abbrev pub bucket_end : ℕ → ℕ → ℕ
bucket_end lo hi = if leb hi lo then lo + 1 else hi

-- The first `n` elements, and the rest.
module _ {A : Type 0} where
  abbrev pub take : ℕ → List A → List A
  take zero xs = []
  take (suc n) [] = []
  take (suc n) (x ∷ xs) = x ∷ take n xs

  abbrev pub drop : ℕ → List A → List A
  drop zero xs = xs
  drop (suc n) [] = []
  drop (suc n) (x ∷ xs) = drop n xs

  -- The elements of bucket `i` of `n`.
  abbrev pub bucket : List A → ℕ → ℕ → List A
  bucket v n i =
      let lo = i * length v / n in
      let hi = bucket_end lo ((i + 1) * length v / n) in take (hi - lo) (drop lo v)

  -- The buckets from `i` on, `left` of them.
  unfoldable pub buckets : List A → ℕ → ℕ → ℕ → List (List A)
  buckets v n i zero = []
  buckets v n i (suc left) = bucket v n i ∷ buckets v n (i + 1) left

module _ {F : Type 0} ⦃fl : Float F⦄ where
  abbrev pub sum_from : F → List F → F
  sum_from acc [] = acc
  sum_from acc (v ∷ vs) = sum_from (fl.add acc v) vs

  abbrev pub mean : List F → F
  mean vs = fl.div (sum_from (fl.of_uint 0) vs) (fl.of_uint (length vs))

  unfoldable pub downsample : List F → ℕ → List F
  unfolding buckets
  downsample v n = if leb (length v) n then v else map mean (buckets v n 0 n)

module _ {A : Type 0} where
  abbrev pub concat : List (List A) → List A
  concat [] = []
  concat (xs ∷ xss) = xs ++ concat xss

  take-drop : (n : ℕ) (xs : List A) → take n xs ++ drop n xs ≡ xs
  take-drop zero xs = refl
  take-drop (suc n) [] = refl
  take-drop (suc n) (x ∷ xs) = ap (λ ys. x ∷ ys) (take-drop n xs)

  drop_nil : (n : ℕ) → drop {A = A} n [] ≡ []
  drop_nil zero = refl
  drop_nil (suc n) = refl

  drop-drop : (m n : ℕ) (xs : List A) → drop m (drop n xs) ≡ drop (n + m) xs
  drop-drop m zero xs = rw (zero-add m) refl
  drop-drop m (suc n) [] = drop_nil m ∙ sym (drop_nil (suc n + m))
  drop-drop m (suc n) (x ∷ xs) = rw (suc-add n m) (drop-drop m n xs)

  drop_all : (xs : List A) → drop (length xs) xs ≡ []
  drop_all [] = refl
  drop_all (x ∷ xs) = drop_all xs

  length-drop : (n : ℕ) (xs : List A) → length (drop n xs) ≡ length xs - n
  length-drop zero xs = omega arith
  length-drop (suc n) [] = omega arith
  length-drop (suc n) (x ∷ xs) = omega (arith, length-drop n xs)

  take_some : (n : ℕ) (xs : List A) → 0 < n → 0 < length xs → 0 < length (take n xs)
  take_some zero xs h k = absurd (omega arith)
  take_some (suc n) [] h k = absurd (omega arith)
  take_some (suc n) (x ∷ xs) h k = omega arith

-- The marks between buckets, `i * l / n`, rise strictly where there is an element for each bucket.
mark-lt : (l n i : ℕ) → 0 < n → n ≤ l → i * l / n < (i + 1) * l / n
mark-lt l n i h k = grind (
  arith,
  (le-div_iff_mul-le {k = n} {x = i * l / n + 1} {y = (i + 1) * l} h).1,
  div-mul-le_self (i * l) n,
)

mark-le : (l n i : ℕ) → i ≤ n → i * l / n ≤ l
mark-le l n i h = div-le_of_le-mul n (grind arith)

first_mark : (l n : ℕ) → 0 * l / n ≡ 0
first_mark l n = rw (zero-mul l) (zero-div n)

module _ {A : Type 0} where
  bucket-drop :
      (v : List A) (n i : ℕ)
      → 0 < n
      → n ≤ length v
      → bucket v n i ++ drop ((i + 1) * length v / n) v ≡ drop (i * length v / n) v
  bucket-drop v n i h k =
      let lo = i * length v / n in
      let hi = (i + 1) * length v / n in
      let rises : lo < hi = mark-lt (length v) n i h k in
      let same : bucket_end lo hi ≡ hi = ground arith in
      let gap : lo + (hi - lo) ≡ hi = omega arith in
      rw (same) (
        ap (λ k. take (hi - lo) (drop lo v) ++ k)
          (sym (drop-drop (hi - lo) lo v ∙ ap (λ m. drop m v) gap))
        ∙ take-drop (hi - lo) (drop lo v))

  buckets-concat :
      (v : List A) (n i left : ℕ)
      → 0 < n
      → n ≤ length v
      → i + left ≡ n
      → concat (buckets v n i left) ≡ drop (i * length v / n) v
  unfolding buckets
  buckets-concat v n i zero h k e =
      let whole : i * length v / n ≡ length v =
        ap (λ m. m * length v / n) (omega arith) ∙ mul-div_right (length v) h in
      rw (whole) (sym (drop_all v))
  buckets-concat v n i (suc left) h k e =
      ap (λ rest. bucket v n i ++ rest) (buckets-concat v n (i + 1) left h k (omega arith))
      ∙ bucket-drop v n i h k

  length-buckets : (v : List A) (n i left : ℕ) → length (buckets v n i left) ≡ left
  unfolding buckets
  length-buckets v n i zero = refl
  length-buckets v n i (suc left) = ap suc (length-buckets v n (i + 1) left)

  buckets_some :
      (v : List A) (n i left : ℕ)
      → 0 < n
      → n ≤ length v
      → i + left ≡ n
      → All (λ b. 0 < length b) (buckets v n i left)
  unfolding buckets
  buckets_some v n i zero h k e = tt
  buckets_some v n i (suc left) h k e =
      let lo = i * length v / n in
      let hi = (i + 1) * length v / n in
      let rises : lo < hi = mark-lt (length v) n i h k in
      let inside : hi ≤ length v = mark-le (length v) n (i + 1) (omega arith) in
      let same : bucket_end lo hi ≡ hi = ground arith in
      (
        rw (same) (take_some (hi - lo) (drop lo v) (omega arith) (omega (arith, length-drop lo v))),
        buckets_some v n (i + 1) left h k (omega arith),
      )

length-map : {A B : Type 0} (f : A → B) (xs : List A) → length (map f xs) ≡ length xs
length-map f [] = refl
length-map f (x ∷ xs) = ap suc (length-map f xs)

-- A series with more than `n` values, and `n` not 0, is cut into `n` buckets, none of them empty, which
-- put together are the series: each value counts in one mean, in its order. A shorter one is kept.
pub downsample-buckets :
    {F : Type 0} ⦃fl : Float F⦄ (v : List F) (n : ℕ)
    → 0 < n
    → ((length v ≤ n) × (downsample v n ≡ v))
      ⊎ ((cut : List (List F)) × (n < length v)
          × (downsample v n ≡ map mean cut)
          × (length cut ≡ n)
          × All (λ b. 0 < length b) cut
          × (concat cut ≡ v))
unfolding downsample
downsample-buckets v n h = elim (Bool-cases (leb (length v) n)) [
  | inl short ↦ inl (ground arith, rw (short) refl)
  | inr long ↦ inr (
      let k : n < length v = ground arith in
      (
        buckets v n 0 n,
        k,
        rw (long) refl,
        length-buckets v n 0 n,
        buckets_some v n 0 n h (omega arith) (omega arith),
        buckets-concat v n 0 n h (omega arith) (omega arith)
            ∙ ap (λ m. drop m v) (first_mark (length v) n),
      ))
]

pub length-downsample-le :
    {F : Type 0} ⦃fl : Float F⦄ (v : List F) (n : ℕ) → length (downsample v n) ≤ n
unfolding downsample
length-downsample-le v n = ground (arith, length-map mean (buckets v n 0 n), length-buckets v n 0 n)

pub downsample_some :
    {F : Type 0} ⦃fl : Float F⦄ (v : List F) (n : ℕ)
    → 0 < n
    → 0 < length v
    → 0 < length (downsample v n)
unfolding downsample
downsample_some v n h k = ground (arith, length-map mean (buckets v n 0 n), length-buckets v n 0 n)
