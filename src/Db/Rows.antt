-- ===== src/Db/Rows.antt =====
-- The rows of backend/app/models, with the columns that the services test or write. Ids are
-- numbers, times are seconds, and an amount of IQD is held as `Numeric(12, 4)` holds it: in
-- ten-thousandths.
use kaasb.Common.{ℕ, String, Text, ◌≡◌, Bool, true, false, Option, none, some, List, ◌==◌, arith}
use kaasb.Db.Status.{
  PaymentProvider, PaymentAccountStatus, TransactionType, TransactionStatus, EscrowStatus,
  ContractStatus, MilestoneStatus, JobStatus, ServiceStatus, ServiceOrderStatus, DisputeStatus,
  PayoutApprovalStatus, AdminAuditAction, ProposalStatus, UserRole, UserStatus, ConversationType,
  SupportTicketStatus, SenderRole, ViolationType, ViolationAction,
}

-- What `external_transaction_id` holds, by how the code makes it: `escrow-<milestone id>`,
-- `gig-order-<order id>`, `gig-order-` before text that is no id, an operation id of Zain Cash, or a
-- generated `release_…`, `refund_…` or `payout_…`.
pub data ExternalRef : Type 0 where
  escrow_ref gig_order_ref gig_order_text operation generated : ℕ → ExternalRef

abbrev pub ref_eq : ExternalRef → ExternalRef → Bool
ref_eq (escrow_ref a) (escrow_ref b) = a == b
ref_eq (gig_order_ref a) (gig_order_ref b) = a == b
ref_eq (gig_order_text a) (gig_order_text b) = a == b
ref_eq (operation a) (operation b) = a == b
ref_eq (generated a) (generated b) = a == b
ref_eq _ _ = false

-- A nullable column that a query compares with a value: NULL matches nothing.
abbrev pub holds : Option ℕ → ℕ → Bool
holds none k = false
holds (some j) k = j == k

abbrev pub holds_ref : Option ExternalRef → ExternalRef → Bool
holds_ref none r = false
holds_ref (some q) r = ref_eq q r

abbrev pub holds_provider : Option PaymentProvider → PaymentProvider → Bool
holds_provider none p = false
holds_provider (some PaymentProvider.manual) PaymentProvider.manual = true
holds_provider (some PaymentProvider.qi_card) PaymentProvider.qi_card = true
holds_provider (some PaymentProvider.zain_cash) PaymentProvider.zain_cash = true
holds_provider (some _) _ = false

pub record PaymentAccount : Type 0 where
  pub id : ℕ
  pub user_id : ℕ
  pub provider : PaymentProvider
  pub status : PaymentAccountStatus
  pub qi_card_phone : Option String
  pub qi_card_holder_name : Option String
  pub qi_card_account_number : Option String
  pub is_default : Bool
  pub verified_at : Option ℕ

pub record Transaction : Type 0 where
  pub id : ℕ
  pub transaction_type : TransactionType
  pub status : TransactionStatus
  pub amount : ℕ
  pub platform_fee : ℕ
  pub net_amount : ℕ
  pub payer_id : Option ℕ
  pub payee_id : Option ℕ
  pub contract_id : Option ℕ
  pub milestone_id : Option ℕ
  pub provider : Option PaymentProvider
  pub external_transaction_id : Option ExternalRef
  pub completed_at : Option ℕ

pub record Escrow : Type 0 where
  pub id : ℕ
  pub amount : ℕ
  pub platform_fee : ℕ
  pub freelancer_amount : ℕ
  pub status : EscrowStatus
  pub contract_id : Option ℕ
  pub milestone_id : Option ℕ
  pub service_order_id : Option ℕ
  pub client_id : ℕ
  pub freelancer_id : ℕ
  pub funding_transaction_id : Option ℕ
  pub release_transaction_id : Option ℕ
  pub funded_at : Option ℕ
  pub released_at : Option ℕ
  pub version : ℕ

pub record Milestone : Type 0 where
  pub id : ℕ
  pub contract_id : ℕ
  pub order : ℕ
  pub amount : ℕ
  pub status : MilestoneStatus
  pub submitted_at : Option ℕ
  pub approved_at : Option ℕ
  pub paid_at : Option ℕ
  pub submission_note : Option Text
  pub feedback : Option Text

pub record Contract : Type 0 where
  pub id : ℕ
  pub total_amount : ℕ
  pub amount_paid : ℕ
  pub status : ContractStatus
  pub job_id : ℕ
  pub proposal_id : ℕ
  pub client_id : ℕ
  pub freelancer_id : ℕ
  pub started_at : ℕ
  pub completed_at : Option ℕ

pub record Job : Type 0 where
  pub id : ℕ
  pub budget_max : Option ℕ
  pub status : JobStatus
  pub client_id : ℕ
  pub freelancer_id : Option ℕ
  pub proposal_count : ℕ
  pub published_at : Option ℕ
  pub closed_at : Option ℕ

pub record Proposal : Type 0 where
  pub id : ℕ
  pub bid_amount : ℕ
  pub status : ProposalStatus
  pub job_id : ℕ
  pub freelancer_id : ℕ
  pub client_note : Option Text
  pub submitted_at : ℕ
  pub responded_at : Option ℕ

pub record User : Type 0 where
  pub id : ℕ
  pub email : Text
  pub username : Text
  pub hashed_password : Option Text
  pub is_email_verified : Bool
  pub google_id : Option Text
  pub facebook_id : Option Text
  pub avatar_url : Option Text
  pub phone : Option Text
  pub primary_role : UserRole
  pub status : UserStatus
  pub is_superuser : Bool
  pub is_support : Bool
  pub total_earnings : ℕ
  pub total_spent : ℕ
  pub jobs_completed : ℕ
  pub chat_violations : ℕ
  pub chat_suspended_until : Option ℕ
  pub last_login : Option ℕ
  pub is_online : Bool
  pub failed_login_attempts : ℕ
  pub locked_until : Option ℕ
  pub token_version : ℕ
  pub terms_accepted_at : Option ℕ

pub record RefreshToken : Type 0 where
  pub id : ℕ
  pub created_at : ℕ
  pub updated_at : ℕ
  pub token_hash : Text
  pub user_id : ℕ
  pub expires_at : ℕ
  pub revoked : Bool

pub record PhoneOtp : Type 0 where
  pub id : ℕ
  pub created_at : ℕ
  pub phone : Text
  pub otp_hash : Text
  pub expires_at : ℕ
  pub is_used : Bool
  pub attempts : ℕ

pub record Conversation : Type 0 where
  pub id : ℕ
  pub participant_one_id : ℕ
  pub participant_two_id : ℕ
  pub conversation_type : ConversationType
  pub job_id : Option ℕ
  pub order_id : Option ℕ
  pub last_message_text : Option Text
  pub last_message_at : Option ℕ
  pub message_count : ℕ
  pub unread_one : ℕ
  pub unread_two : ℕ
  pub support_status : Option SupportTicketStatus
  pub support_assignee_id : Option ℕ
  pub support_resolved_at : Option ℕ

pub record Message : Type 0 where
  pub id : ℕ
  pub content : Text
  pub is_read : Bool
  pub read_at : Option ℕ
  pub is_system : Bool
  pub attachments : List String
  pub conversation_id : ℕ
  pub sender_id : ℕ
  pub sender_role : SenderRole

pub record ViolationLog : Type 0 where
  pub user_id : ℕ
  pub violation_type : ViolationType
  pub content_detected : Text
  pub action_taken : ViolationAction

-- `revisions_remaining` counts down; -1 stands for unlimited.
pub data ℤ : Type 0 where
  pos : ℕ → ℤ
  negsuc : ℕ → ℤ

pub record ServicePackage : Type 0 where
  pub id : ℕ
  pub price : ℕ
  pub delivery_days : ℕ
  pub revisions : ℤ

-- A service without `requirement_questions` (NULL) has an empty list of them.
pub record Service : Type 0 where
  pub id : ℕ
  pub freelancer_id : ℕ
  pub status : ServiceStatus
  pub requirement_questions : List String
  pub packages : List ServicePackage
  pub orders_count : ℕ

-- What `dispute_resolution` says.
pub data DisputeResolution : Type 0 where
  released_to_freelancer refunded_to_client : DisputeResolution

pub record ServiceOrder : Type 0 where
  pub id : ℕ
  pub created_at : ℕ
  pub service_id : ℕ
  pub package_id : ℕ
  pub client_id : ℕ
  pub freelancer_id : ℕ
  pub status : ServiceOrderStatus
  pub requirement_answers : Option (List String)
  pub requirements_submitted_at : Option ℕ
  pub price_paid : ℕ
  pub delivery_days : ℕ
  pub revisions_remaining : ℤ
  pub due_date : Option ℕ
  pub delivered_at : Option ℕ
  pub completed_at : Option ℕ
  pub cancelled_by : Option ℕ
  pub dispute_reason : Option Text
  pub dispute_opened_at : Option ℕ
  pub dispute_opened_by : Option ℕ
  pub dispute_resolved_at : Option ℕ
  pub dispute_resolution : Option DisputeResolution

pub record ServiceOrderDelivery : Type 0 where
  pub id : ℕ
  pub order_id : ℕ
  pub message : String
  pub files : List String
  pub revision_number : ℕ

pub record Dispute : Type 0 where
  pub id : ℕ
  pub order_id : ℕ
  pub by_client : Bool
  pub status : DisputeStatus
  pub admin_id : Option ℕ
  pub admin_notes : Option Text
  pub resolved_at : Option ℕ

pub record PayoutApproval : Type 0 where
  pub id : ℕ
  pub escrow_id : ℕ
  pub requested_by_id : Option ℕ
  pub decided_by_id : Option ℕ
  pub amount : ℕ
  pub status : PayoutApprovalStatus
  pub request_note : Option Text
  pub decision_note : Option Text
  pub decided_at : Option ℕ

-- What `target_type` says.
pub data AuditTarget : Type 0 where
  escrow payout_approval transaction user job : AuditTarget

-- `target_id` and `amount` are nullable.
pub record AdminAuditLog : Type 0 where
  pub admin_id : ℕ
  pub action : AdminAuditAction
  pub target_type : AuditTarget
  pub target_id : Option ℕ
  pub amount : Option ℕ
  pub created_at : ℕ

-- The source's four further names are aliases of the `service_…` types.
pub data NotificationType : Type 0 where
  proposal_received proposal_accepted proposal_rejected proposal_shortlisted : NotificationType
  contract_created contract_completed : NotificationType
  milestone_funded milestone_submitted milestone_approved milestone_revision : NotificationType
  payment_received payout_completed review_received new_message : NotificationType
  service_approved service_rejected service_submitted service_needs_revision : NotificationType
  dispute_opened dispute_resolved : NotificationType
  buyer_request_offer_received buyer_request_offer_accepted : NotificationType
  buyer_request_offer_rejected : NotificationType
  order_requirements_submitted order_delivered order_auto_completed : NotificationType
  seller_level_upgraded chat_violation_warning system_alert : NotificationType

pub record Notification : Type 0 where
  pub user_id : ℕ
  pub kind : NotificationType

pub ref_eq→eq : (a b : ExternalRef) → ref_eq a b ≡ true → a ≡ b
ref_eq→eq a b h = ground arith

pub ref_eq_refl : (a : ExternalRef) → ref_eq a a ≡ true
ref_eq_refl (escrow_ref a) = ground arith
ref_eq_refl (gig_order_ref a) = ground arith
ref_eq_refl (gig_order_text a) = ground arith
ref_eq_refl (operation a) = ground arith
ref_eq_refl (generated a) = ground arith
