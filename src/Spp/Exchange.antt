-- ===== src/Spp/Exchange.antt =====
-- pallets/spp/src/lib.rs: the exchange between a currency and its receipts.
use versus_project_metaverse.Prelude.{
  ℕ, ◌+◌, ◌*◌, ◌/◌, ◌≤◌, ◌<◌, ◌≡◌, ok, arith, ◌==◌, u128_max, u256_max, Bool-cases, inl, inr,
}
use versus_project_metaverse.Primitives.{Balance}
use versus_project_metaverse.Spp.Pools.{exchange, receipts}

product_bound : (a b : ℕ) → a ≤ u128_max → b ≤ u128_max → a * b ≤ u256_max
product_bound a b p q = grind arith

quotient_bounds : (n d : ℕ) → 0 < d → (n / d * d ≤ n) × (n < (n / d + 1) * d)
quotient_bounds n d pos = (grind arith, grind arith)

-- With u128 amounts, `exchange` is the rounded down quotient of the product.
pub exchange_bounds :
    (a b d n : Balance)
    → a ≤ u128_max
    → b ≤ u128_max
    → exchange a b d ≡ ok n
    → (n * d ≤ a * b) × (a * b < (n + 1) * d)
unfolding exchange
exchange_bounds a b d n p q e =
    let small = product_bound a b p q in
    elim (Bool-cases (d == 0)) [
      | inl zero ↦ absurd (ground arith)
      | inr pos ↦
          let e' : n ≡ a * b / d = ground (arith, small) in
          let h = quotient_bounds (a * b) d (ground arith) in rw e' (h.0, h.1)
    ]

rate_lem :
    (a r n issuance ledger : ℕ)
    → r * ledger ≤ a * issuance
    → n * (issuance + r) ≤ r * (ledger + a)
    → n * (issuance + r) ≤ a * (issuance + r)
rate_lem a r n issuance ledger p q = grind arith

positive : (m k d : ℕ) → m < k * d → 0 < d
positive m k d p = grind arith

cancel : (n a d : ℕ) → n * d ≤ a * d → 0 < d → n ≤ a
cancel n a d p pos = grind arith

-- Nobody gains by depositing and redeeming at once, where the ledger is not empty and the new
-- ledger and issuance fit a u128: the receipts for an amount, redeemed against the ledger and the
-- issuance after the deposit, are worth at most the amount.
pub redeem-receipts :
    (a issuance ledger r n : Balance)
    → ledger + a ≤ u128_max
    → issuance + r ≤ u128_max
    → 0 < ledger
    → receipts a issuance ledger ≡ ok r
    → exchange r (ledger + a) (issuance + r) ≡ ok n
    → n ≤ a
unfolding receipts
redeem-receipts a issuance ledger r n p q pos e e' =
    let given = exchange_bounds a issuance ledger r (omega arith) (omega arith) (ground arith) in
    let back = exchange_bounds r (ledger + a) (issuance + r) n (omega arith) p e' in
    cancel n a (issuance + r) (rate_lem a r n issuance ledger given.0 back.0)
      (positive (r * (ledger + a)) (n + 1) (issuance + r) back.1)
