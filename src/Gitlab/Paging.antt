-- ===== src/Gitlab/Paging.antt =====
-- The loops over numbered pages: `for { page, resp, err := list(opts); ...; opts.Page = resp.NextPage }`.
-- Page 0 is the request that names no page, and 0 as the next page ends the loop.
use cigar.Prelude.{ℕ, suc, ◌≡◌, ◌≢◌, List, ◌++◌}
use cigar.Prelude.Result.{Result, ok}

pub record Page (A : Type 0) : Type 0 where
  pub items : List A
  pub next_page : ℕ

module _ {E A : Type 0} (fetch : ℕ → Result E (Page A)) where
  -- From page `p` on there are `n` more pages to fetch after it, and these items in all.
  pub data Pages : ℕ → ℕ → List A → Type 0 where
    last :
        {p : ℕ} {xs : List A} (items : List A)
        → fetch p ≡ ok (record { items = items; next_page = 0 })
        → xs ≡ items
        → Pages p 0 xs
    more :
        {p n : ℕ} {xs rest : List A} (items : List A) (next : ℕ)
        → fetch p ≡ ok (record { items = items; next_page = next })
        → next ≢ 0
        → Pages next n rest
        → xs ≡ items ++ rest
        → Pages p (suc n) xs
