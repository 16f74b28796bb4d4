-- ===== src/Payment/Settings.antt =====
-- The settings (backend/app/core/config.py) and the outside services that payments use.
use kaasb.Common.{ℕ, String, Bool, Option}
use kaasb.Db.{ExternalRef, PaymentProvider}

-- `PLATFORM_FEE_PERCENT` in hundredths of a percent; amounts in ten-thousandths of IQD.
-- `sign_order_id` is the HMAC under `SECRET_KEY`; `auto_complete_payouts` holds in the sandbox and
-- in development.
pub record Settings : Type 0 where
  pub platform_fee_percent : ℕ
  pub minimum_payout : ℕ
  pub payout_approval_threshold : ℕ
  pub auto_complete_payouts : Bool
  pub sign_order_id : ExternalRef → String

-- The gateways' clients: a call fails (`none`, `false`) or answers. A created payment of Zain Cash
-- answers with its operation id.
pub record Gateway : Type 0 where
  pub create_payment : PaymentProvider → ℕ → ExternalRef → Option ℕ
  pub refund_payment : ExternalRef → ℕ → Bool
