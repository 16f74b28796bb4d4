-- ===== src/Db/Status.antt =====
-- The enumerations of backend/app/models: payment.py, contract.py, service.py, dispute.py and
-- admin_audit.py, and those of user.py, proposal.py, message.py and violation_log.py. Each is compared through its position in the class.
use kaasb.Common.{ℕ, ◌≡◌, Bool, true, arith, ◌==◌}

pub data PaymentProvider : Type 0 where
  manual qi_card zain_cash : PaymentProvider

pub data PaymentAccountStatus : Type 0 where
  pending verified suspended : PaymentAccountStatus

pub data TransactionType : Type 0 where
  escrow_fund escrow_release escrow_refund platform_fee payout : TransactionType

pub data TransactionStatus : Type 0 where
  pending processing completed failed refunded cancelled : TransactionStatus

pub data EscrowStatus : Type 0 where
  pending funded released refunded disputed : EscrowStatus

pub data ContractStatus : Type 0 where
  active completed cancelled disputed paused : ContractStatus

pub data MilestoneStatus : Type 0 where
  pending in_progress submitted revision_requested approved paid : MilestoneStatus

pub data JobStatus : Type 0 where
  draft open_status in_progress completed cancelled closed : JobStatus

pub data ServiceStatus : Type 0 where
  draft pending_review needs_revision active paused rejected archived : ServiceStatus

pub data ServiceOrderStatus : Type 0 where
  pending pending_requirements in_progress delivered : ServiceOrderStatus
  revision_requested completed cancelled disputed : ServiceOrderStatus

pub data DisputeStatus : Type 0 where
  open_status under_review resolved_refund resolved_release cancelled : DisputeStatus

pub data PayoutApprovalStatus : Type 0 where
  pending approved rejected cancelled : PayoutApprovalStatus

pub data ProposalStatus : Type 0 where
  pending shortlisted accepted rejected withdrawn : ProposalStatus

pub data UserRole : Type 0 where
  client freelancer admin : UserRole

pub data UserStatus : Type 0 where
  active suspended deactivated pending_verification : UserStatus

pub data ConversationType : Type 0 where
  user order support : ConversationType

pub data SupportTicketStatus : Type 0 where
  open_status in_progress resolved : SupportTicketStatus

pub data SenderRole : Type 0 where
  client freelancer admin system : SenderRole

pub data ViolationType : Type 0 where
  email phone url external_app : ViolationType

pub data ViolationAction : Type 0 where
  warning blocked suspended : ViolationAction

pub data AdminAuditAction : Type 0 where
  escrow_release_requested escrow_released escrow_refunded : AdminAuditAction
  payout_approved payout_rejected payout_marked_paid : AdminAuditAction
  user_status_changed job_status_changed user_promoted_admin user_demoted_admin : AdminAuditAction
  user_promoted_support user_demoted_support : AdminAuditAction
  service_approved service_rejected dispute_resolved : AdminAuditAction

-- A type whose values are told apart by a number.
pub record Coded (A : Type 0) : Type 0 where
  pub index : A → ℕ

infix 50 ◌is◌
abbrev pub ◌is◌ : {A : Type 0} ⦃c : Coded A⦄ → A → A → Bool
◌is◌ ⦃c⦄ a b = c.index a == c.index b

abbrev provider_index : PaymentProvider → ℕ
provider_index manual = 0
provider_index qi_card = 1
provider_index zain_cash = 2

abbrev account_index : PaymentAccountStatus → ℕ
account_index PaymentAccountStatus.pending = 0
account_index verified = 1
account_index PaymentAccountStatus.suspended = 2

abbrev transaction_type_index : TransactionType → ℕ
transaction_type_index escrow_fund = 0
transaction_type_index escrow_release = 1
transaction_type_index escrow_refund = 2
transaction_type_index platform_fee = 3
transaction_type_index payout = 4

abbrev transaction_index : TransactionStatus → ℕ
transaction_index TransactionStatus.pending = 0
transaction_index processing = 1
transaction_index TransactionStatus.completed = 2
transaction_index failed = 3
transaction_index TransactionStatus.refunded = 4
transaction_index TransactionStatus.cancelled = 5

abbrev escrow_index : EscrowStatus → ℕ
escrow_index EscrowStatus.pending = 0
escrow_index funded = 1
escrow_index released = 2
escrow_index EscrowStatus.refunded = 3
escrow_index EscrowStatus.disputed = 4

abbrev contract_index : ContractStatus → ℕ
contract_index ContractStatus.active = 0
contract_index ContractStatus.completed = 1
contract_index ContractStatus.cancelled = 2
contract_index ContractStatus.disputed = 3
contract_index ContractStatus.paused = 4

abbrev milestone_index : MilestoneStatus → ℕ
milestone_index MilestoneStatus.pending = 0
milestone_index MilestoneStatus.in_progress = 1
milestone_index submitted = 2
milestone_index MilestoneStatus.revision_requested = 3
milestone_index MilestoneStatus.approved = 4
milestone_index paid = 5

abbrev service_index : ServiceStatus → ℕ
service_index ServiceStatus.draft = 0
service_index pending_review = 1
service_index needs_revision = 2
service_index ServiceStatus.active = 3
service_index ServiceStatus.paused = 4
service_index ServiceStatus.rejected = 5
service_index archived = 6

abbrev order_index : ServiceOrderStatus → ℕ
order_index ServiceOrderStatus.pending = 0
order_index pending_requirements = 1
order_index ServiceOrderStatus.in_progress = 2
order_index delivered = 3
order_index ServiceOrderStatus.revision_requested = 4
order_index ServiceOrderStatus.completed = 5
order_index ServiceOrderStatus.cancelled = 6
order_index ServiceOrderStatus.disputed = 7

abbrev dispute_index : DisputeStatus → ℕ
dispute_index DisputeStatus.open_status = 0
dispute_index under_review = 1
dispute_index resolved_refund = 2
dispute_index resolved_release = 3
dispute_index DisputeStatus.cancelled = 4

abbrev approval_index : PayoutApprovalStatus → ℕ
approval_index PayoutApprovalStatus.pending = 0
approval_index PayoutApprovalStatus.approved = 1
approval_index PayoutApprovalStatus.rejected = 2
approval_index PayoutApprovalStatus.cancelled = 3

abbrev audit_index : AdminAuditAction → ℕ
audit_index escrow_release_requested = 0
audit_index escrow_released = 1
audit_index escrow_refunded = 2
audit_index payout_approved = 3
audit_index payout_rejected = 4
audit_index payout_marked_paid = 5
audit_index user_status_changed = 6
audit_index job_status_changed = 7
audit_index user_promoted_admin = 8
audit_index user_demoted_admin = 9
audit_index user_promoted_support = 10
audit_index user_demoted_support = 11
audit_index service_approved = 12
audit_index service_rejected = 13
audit_index dispute_resolved = 14

abbrev job_index : JobStatus → ℕ
job_index JobStatus.draft = 0
job_index JobStatus.open_status = 1
job_index JobStatus.in_progress = 2
job_index JobStatus.completed = 3
job_index JobStatus.cancelled = 4
job_index JobStatus.closed = 5

abbrev proposal_index : ProposalStatus → ℕ
proposal_index ProposalStatus.pending = 0
proposal_index ProposalStatus.shortlisted = 1
proposal_index ProposalStatus.accepted = 2
proposal_index ProposalStatus.rejected = 3
proposal_index ProposalStatus.withdrawn = 4

abbrev role_index : UserRole → ℕ
role_index UserRole.client = 0
role_index UserRole.freelancer = 1
role_index UserRole.admin = 2

abbrev user_index : UserStatus → ℕ
user_index UserStatus.active = 0
user_index UserStatus.suspended = 1
user_index UserStatus.deactivated = 2
user_index UserStatus.pending_verification = 3

abbrev conversation_index : ConversationType → ℕ
conversation_index ConversationType.user = 0
conversation_index ConversationType.order = 1
conversation_index ConversationType.support = 2

abbrev ticket_index : SupportTicketStatus → ℕ
ticket_index SupportTicketStatus.open_status = 0
ticket_index SupportTicketStatus.in_progress = 1
ticket_index SupportTicketStatus.resolved = 2

instance abbrev pub job_coded : Coded JobStatus
job_coded = record { index = job_index }

instance abbrev pub proposal_coded : Coded ProposalStatus
proposal_coded = record { index = proposal_index }

instance abbrev pub role_coded : Coded UserRole
role_coded = record { index = role_index }

instance abbrev pub user_coded : Coded UserStatus
user_coded = record { index = user_index }

instance abbrev pub conversation_coded : Coded ConversationType
conversation_coded = record { index = conversation_index }

instance abbrev pub ticket_coded : Coded SupportTicketStatus
ticket_coded = record { index = ticket_index }

instance abbrev pub provider_coded : Coded PaymentProvider
provider_coded = record { index = provider_index }

instance abbrev pub account_coded : Coded PaymentAccountStatus
account_coded = record { index = account_index }

instance abbrev pub transaction_type_coded : Coded TransactionType
transaction_type_coded = record { index = transaction_type_index }

instance abbrev pub transaction_coded : Coded TransactionStatus
transaction_coded = record { index = transaction_index }

instance abbrev pub escrow_coded : Coded EscrowStatus
escrow_coded = record { index = escrow_index }

instance abbrev pub contract_coded : Coded ContractStatus
contract_coded = record { index = contract_index }

instance abbrev pub milestone_coded : Coded MilestoneStatus
milestone_coded = record { index = milestone_index }

instance abbrev pub service_coded : Coded ServiceStatus
service_coded = record { index = service_index }

instance abbrev pub order_coded : Coded ServiceOrderStatus
order_coded = record { index = order_index }

instance abbrev pub dispute_coded : Coded DisputeStatus
dispute_coded = record { index = dispute_index }

instance abbrev pub approval_coded : Coded PayoutApprovalStatus
approval_coded = record { index = approval_index }

instance abbrev pub audit_coded : Coded AdminAuditAction
audit_coded = record { index = audit_index }

pub escrow_is→eq : (s t : EscrowStatus) → (s is t) ≡ true → s ≡ t
escrow_is→eq s t h = ground arith

pub transaction_is→eq : (s t : TransactionStatus) → (s is t) ≡ true → s ≡ t
transaction_is→eq s t h = ground arith

pub approval_is→eq : (s t : PayoutApprovalStatus) → (s is t) ≡ true → s ≡ t
approval_is→eq s t h = ground arith

pub order_is→eq : (s t : ServiceOrderStatus) → (s is t) ≡ true → s ≡ t
order_is→eq s t h = ground arith

pub proposal_is→eq : (s t : ProposalStatus) → (s is t) ≡ true → s ≡ t
proposal_is→eq s t h = ground arith

pub job_is→eq : (s t : JobStatus) → (s is t) ≡ true → s ≡ t
job_is→eq s t h = ground arith
