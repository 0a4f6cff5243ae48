-- ===== src/Settlement/Masks.antt =====
-- What a settlement account shows (app/services/settlement/settlement_service.py).
use order_run_be.Base.{
  ℕ, zero, suc, ◌+◌, ◌-◌, ◌<◌, ◌≡◌, ◌≢◌, refl, ap, false, List, [], ◌∷◌, ◌++◌, some, UserId, length,
  take, drop, length-drop, leb, arith, find_by-upsert, find_by-upsert_other,
}
use order_run_be.Models.Account.{SettlementAccount}
use order_run_be.Db.{Db}
use order_run_be.Settlement.{
  stars, mask_account_number, SettlementAccountRequest, account_of, get_account, save_account,
}

length-append : (xs ys : List ℕ) → length (xs ++ ys) ≡ length xs + length ys
length-append [] ys = omega arith
length-append (x ∷ xs) ys = omega (arith, length-append xs ys)

length-stars : (n : ℕ) → length (stars n) ≡ n
length-stars zero = refl
length-stars (suc n) = omega (arith, length-stars n)

take-stars : (n : ℕ) (ys : List ℕ) → take n (stars n ++ ys) ≡ stars n
take-stars zero ys = refl
take-stars (suc n) ys = ap (λ xs. 42 ∷ xs) (take-stars n ys)

-- The mask of an account number of more than four characters is as long as the number, and all its
-- characters before the last four are asterisks.
pub mask_account_number-hides :
    (n : List ℕ)
    → 4 < length n
    → (length (mask_account_number n) ≡ length n)
      × (take (length n - 4) (mask_account_number n) ≡ stars (length n - 4))
unfolding mask_account_number
mask_account_number-hides n long =
    let longer : leb (length n) 4 ≡ false = ground arith in
    let total = length-append (stars (length n - 4)) (drop (length n - 4) n) in
    (
      rw longer (omega (arith, total, length-stars (length n - 4), length-drop (length n - 4) n)),
      rw longer (take-stars (length n - 4) (drop (length n - 4) n)),
    )

-- After a user saves a settlement account the user gets the bank and the holder of the request and
-- the mask of its number, and any other user gets what that user got before.
pub get_account-save_account :
    (u w : UserId) (r : SettlementAccountRequest) (db : Db)
    → w ≢ u
    → (get_account u (save_account u r db).1
        ≡ some (record {
          bank_name = r.bank_name;
          account_holder = r.account_holder;
          masked_account_number = mask_account_number r.account_number;
        }))
      × (get_account w (save_account u r db).1 ≡ get_account w db)
unfolding get_account save_account
get_account-save_account u w r db ne =
    let key = λ (a : SettlementAccount). a.user_id in
    (
      rw (get_account, find_by-upsert key (account_of u r) db.settlement_accounts),
      rw (get_account, find_by-upsert_other key (account_of u r) w db.settlement_accounts ne),
    )
