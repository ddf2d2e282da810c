-- ===== src/Webhook/Auth/Fresh.antt =====
-- The test of the timestamp, with the wrap-around of `int64`.
use cigar.Prelude.{ℕ, ◌+◌, ◌^◌, ◌≤◌, ◌<◌, ◌≡◌, ◌↔◌, ◌⊎◌, false, arith}
use cigar.Prelude.Int.{ℤ, pos, negsuc, pos_part, neg_part, IsInt64, sub64, neg64, wrap64, ◌-ℤ◌}
use cigar.Webhook.Auth.{is_skewed}

-- The timestamp lies at most the tolerance before or behind the clock.
abbrev pub IsFresh : ℕ → ℕ → ℤ → Type 0
IsFresh tolerance now ts =
    (pos_part ts ≤ now + tolerance + neg_part ts) × (now + neg_part ts ≤ pos_part ts + tolerance)

-- A timestamp passes exactly when it is fresh, or lies 2^63 seconds before the clock: there the
-- difference and its negation are both the least `int64`.
pub is_skewed_iff :
    (tolerance now : ℕ) (ts : ℤ)
    → tolerance < 2 ^ 62
    → now < 2 ^ 62
    → IsInt64 ts
    → (is_skewed tolerance (pos now) ts ≡ false)
      ↔ (IsFresh tolerance now ts ⊎ (now + neg_part ts ≡ 2 ^ 63))
unfolding is_skewed sub64 neg64 wrap64 ◌-ℤ◌
is_skewed_iff tolerance now (pos t) ht hn hi = ground arith
is_skewed_iff tolerance now (negsuc t) ht hn hi = ground arith
