-- ===== src/Settlement.antt =====
-- Settlement accounts (app/services/settlement/settlement_service.py, app/schemas/settlement.py).
-- An account number is the list of its characters; the column `updated_at` is left out.
pub mod Masks
use text.Mathlib.Text.{◌==◌ as same_string}
use order_run_be.Base.{
  ℕ, zero, suc, ◌+◌, ◌-◌, Bool, true, false, String, List, [], ◌∷◌, ◌++◌, Option, none, some, ◌==◌,
  ◌&&◌, ◌||◌, leb, if◌then◌else◌, UserId, find_by, upsert, update_where, length, drop, Result, ok,
  err,
}
use order_run_be.Models.Account.{SettlementAccount}
use order_run_be.Phone.{strip}
use order_run_be.Db.{Db, Request, commit, ◌>>=◌, ◌>>◌, gets, modify, pure}

-- `"*" * n`
abbrev pub stars : ℕ → List ℕ
stars zero = []
stars (suc n) = 42 ∷ stars n

-- `_mask_account_number`
unfoldable pub mask_account_number : List ℕ → List ℕ
mask_account_number account_number =
    if leb (length account_number) 4
    then stars (length account_number)
    else stars (length account_number - 4) ++ drop (length account_number - 4) account_number

-- `SettlementAccountRequest`, validated
pub record SettlementAccountRequest : Type 0 where
  pub bank_name : String
  pub account_number : List ℕ
  pub account_holder : String

-- `SettlementAccountResponse`
pub record SettlementAccountResponse : Type 0 where
  pub bank_name : String
  pub account_holder : String
  pub masked_account_number : List ℕ

abbrev pub to_response : SettlementAccount → SettlementAccountResponse
to_response account = record {
  bank_name = account.bank_name;
  account_holder = account.account_holder;
  masked_account_number = account.masked_account_number;
}

abbrev pub find_account : UserId → Db → Option SettlementAccount
find_account user_id db =
    find_by (λ (a : SettlementAccount). a.user_id) user_id db.settlement_accounts

unfoldable pub get_account : UserId → Db → Option SettlementAccountResponse
get_account user_id db = elim (find_account user_id db) [
  | none ↦ none
  | some account ↦ some (to_response account)
]

abbrev pub account_of : UserId → SettlementAccountRequest → SettlementAccount
account_of user_id request = record {
  user_id = user_id;
  bank_name = request.bank_name;
  account_holder = request.account_holder;
  encrypted_account_number = request.account_number;
  masked_account_number = mask_account_number request.account_number;
}

unfoldable pub save_account : UserId → SettlementAccountRequest → Request SettlementAccountResponse
save_account user_id request = commit do
  -- the row is added, or every column but the key of the user's row is assigned
  modify (λ db. record db {
    settlement_accounts =
        upsert (λ (a : SettlementAccount). a.user_id) (account_of user_id request)
          db.settlement_accounts;
  })
  pure (to_response (account_of user_id request))
