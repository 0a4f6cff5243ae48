-- ===== src/Models/Account.antt =====
-- Settlement accounts and terms agreements (app/models/settlement.py, terms.py).
use order_run_be.Base.{ℕ, String, Bool, List, UserId, Moment}

-- The columns of `class SettlementAccount`; an account number is the list of its characters.
pub record SettlementAccount : Type 0 where
  pub user_id : UserId
  pub bank_name : String
  pub account_holder : String
  pub encrypted_account_number : List ℕ
  pub masked_account_number : List ℕ

-- The columns of `class TermsAgreement`
pub record TermsAgreement : Type 0 where
  pub user_id : UserId
  pub terms_of_service : Bool
  pub privacy_policy : Bool
  pub payment_refund_policy : Bool
  pub agreed_at : Moment
