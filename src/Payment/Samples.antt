-- ===== src/Payment/Samples.antt =====
-- Concrete settings and rows for the tests of the payments.
use kaasb.Common.{true, false, none, some, [], ◌∷◌}
use kaasb.Db.{
  Db, PaymentProvider, PaymentAccountStatus, MilestoneStatus, ContractStatus, PaymentAccount,
  Milestone, Contract,
}
use kaasb.Payment.Settings.{Settings, Gateway}

-- 10 %, at least 50,000 IQD, two admins above 500,000 IQD.
abbrev pub sample_settings : Settings
sample_settings = record {
  platform_fee_percent = 1000;
  minimum_payout = 500_000_000;
  payout_approval_threshold = 5_000_000_000;
  auto_complete_payouts = false;
  sign_order_id = λ _. "signed";
}

abbrev pub sample_gateway : Gateway
sample_gateway = record { create_payment = λ _ _ _. some 77; refund_payment = λ _ _. true }

-- Client 1 has hired freelancer 2; milestone 4 of contract 3 is worth 60,000 IQD.
abbrev pub sample_milestone : Milestone
sample_milestone = record {
  id = 4;
  contract_id = 3;
  order = 0;
  amount = 600_000_000;
  status = MilestoneStatus.pending;
  submitted_at = none;
  approved_at = none;
  paid_at = none;
  submission_note = none;
  feedback = none;
}

abbrev pub sample_contract : Contract
sample_contract = record {
  id = 3;
  total_amount = 600_000_000;
  amount_paid = 0;
  status = ContractStatus.active;
  job_id = 10;
  proposal_id = 11;
  client_id = 1;
  freelancer_id = 2;
  started_at = 0;
  completed_at = none;
}

abbrev pub sample_account : PaymentAccount
sample_account = record {
  id = 5;
  user_id = 2;
  provider = PaymentProvider.qi_card;
  status = PaymentAccountStatus.verified;
  qi_card_phone = some "07701234567";
  qi_card_holder_name = some "Ali Hassan";
  qi_card_account_number = some "12345678";
  is_default = true;
  verified_at = some 0;
}

abbrev pub empty_db : Db
empty_db = record {
  accounts = [];
  transactions = [];
  escrows = [];
  milestones = [];
  contracts = [];
  jobs = [];
  proposals = [];
  users = [];
  refresh_tokens = [];
  phone_otps = [];
  used_reset_jtis = [];
  conversations = [];
  messages = [];
  violation_logs = [];
  services = [];
  orders = [];
  deliveries = [];
  disputes = [];
  approvals = [];
  audit = [];
  notifications = [];
  next_id = 100;
}

abbrev pub sample_db : Db
sample_db = record empty_db {
  accounts = sample_account ∷ [];
  milestones = sample_milestone ∷ [];
  contracts = sample_contract ∷ [];
}
