-- ===== src/Payment/Fees.antt =====
-- `PaymentService._calculate_fees`: the platform's fee and the freelancer's part, each rounded half
-- up to a hundredth of an IQD.
use kaasb.Common.{ℕ, ◌+◌, ◌-◌, ◌*◌, ◌/◌, ◌≤◌, ◌≡◌, arith}

-- `(n / d).quantize(Decimal("0.01"), ROUND_HALF_UP)` in ten-thousandths, where `n / d` counts
-- hundredths.
unfoldable pub quantize : ℕ → ℕ → ℕ
quantize n d = 100 * ((2 * n + d) / (2 * d))

pub record Fees : Type 0 where
  pub amount : ℕ
  pub platform_fee : ℕ
  pub net_amount : ℕ

-- `fee_percent` is in hundredths of a percent.
unfoldable pub calculate_fees : ℕ → ℕ → Fees
calculate_fees fee_percent amount =
    let fee = quantize (amount * fee_percent) 1_000_000 in
    record { amount = amount; platform_fee = fee; net_amount = quantize (amount - fee) 100 }

-- `int(Decimal(amount).quantize(Decimal("1"), ROUND_HALF_UP))`: whole IQD for the gateways.
unfoldable pub whole_iqd : ℕ → ℕ
whole_iqd amount = (2 * amount + 10_000) / 20_000

percent_le : (a p : ℕ) → p ≤ 10_000 → a * p ≤ 10_000 * a
percent_le a p h = grind arith

module _ (p a : ℕ) (at_most_all : p ≤ 10_000) where
  fee_le : quantize (a * p) 1_000_000 ≤ a + 50
  unfolding quantize
  fee_le = let k : a * p ≤ 10_000 * a = percent_le a p at_most_all in omega arith

module _ (p c : ℕ) (at_most_all : p ≤ 10_000) where
  -- For a fee of at most 100 % and an amount in whole hundredths of an IQD, the fee and the
  -- freelancer's part add up to the amount, and neither exceeds it.
  pub calculate_fees_split :
      let f = calculate_fees p (100 * c) in
      (f.platform_fee + f.net_amount ≡ f.amount)
      × (f.platform_fee ≤ f.amount)
      × (f.net_amount ≤ f.amount)
  unfolding calculate_fees quantize
  calculate_fees_split =
      let k : 100 * c * p ≤ 10_000 * (100 * c) = percent_le (100 * c) p at_most_all in
      (omega arith, omega arith, omega arith)
