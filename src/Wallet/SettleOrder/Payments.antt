-- ===== src/Wallet/SettleOrder/Payments.antt =====
-- What new payments of an order do to the credits, and what they come to.
use my_ng_platform.Prelude.{
  ℕ, ◌≡◌, ◌≢◌, refl, ◌∙◌, ◌⊎◌, ap, ==_iff, ℤ, pos, ◌+ℤ◌, ◌-ℤ◌, neg, ltb_ℤ, eqb_ℤ, int_laws, arith,
  true, false, not, ◌&&◌, none, List, [], ◌∷◌, Bool-cases, Option-cases, inl, inr, All, ◌==◌,
  if◌then◌else◌,
}
use my_ng_platform.Discounts.{get_discount_amount}
use my_ng_platform.Entities.{Transaction, TransactionType, TransactionSourceType, SaleOrder}
use my_ng_platform.Store.{Db, Result, ok, find_row, replace_row, continue_with, pure}
use my_ng_platform.Wallet.Ledger.{signed}
use my_ng_platform.Wallet.Contract.{
  Ensures, Ensures-pure, Ensures-err, Ensures-map, Ensures-continue,
}
use my_ng_platform.Wallet.Credit.{value_of}
use my_ng_platform.Wallet.Credit.Laws.{do_transaction-Credited}
use my_ng_platform.Wallet.Deposit.Rows.{total, total-append}
use my_ng_platform.Wallet.Normalize.{is_user_credit}
use my_ng_platform.Wallet.Posting.{moved, Pays, Pays-nothing, Credited-Pays}
use my_ng_platform.Wallet.Providers.{TransactionItem}
use my_ng_platform.Wallet.Providers.Laws.{
  Sources, bank_transaction-Sources, cash_transaction-Sources, cheque_transaction-Sources,
  charge_service_transaction-Sources,
}
use my_ng_platform.Wallet.Remove.Laws.{share-live}
use my_ng_platform.Wallet.Remove.Undone.{neg_zero}
use my_ng_platform.Wallet.Requests.{Env}
use my_ng_platform.Wallet.Settle.Payments.{ArePaid, ArePaid-append, value_of-positive}
use my_ng_platform.Wallet.SettleOrder.{
  Sale, Paying, purchase_of, discount_transaction, new_payment, find_payment, pay_source, pushed,
  from_wallet, pay, settle_payment, settle_payments,
}

-- What a source leaves: the entry, every credit, and a row that the ledger counts for nothing.
abbrev FromSource : TransactionSourceType → Transaction → Db → Transaction → Db → Type 0
FromSource s t b t' b' = Sources t b t' b' × (signed TransactionType.settle s t'.amount ≡ pos 0)

discount_transaction-Sources :
    (env : Env) (sale : Sale) (o : SaleOrder) (dto : TransactionItem) (t : Transaction) (b : Db)
    → Ensures (Sources t b) (discount_transaction env sale o dto t b)
unfolding discount_transaction
discount_transaction-Sources env sale o dto t b =
    elim (Option-cases (
      get_discount_amount env.clock sale.discounts dto.source (sale.code_of dto)
        (purchase_of sale o t) b.transactions)) [
          | inl e ↦ rw (discount_transaction, e) (Ensures-err (Sources t b) _ b)
          | inr ((discount, value), e) ↦ elim (Bool-cases (ltb_ℤ (pos 0) value)) [
            | inr f ↦ rw (discount_transaction, e, f) (Ensures-err (Sources t b) _ b)
            | inl f ↦
                rw (discount_transaction, e, f)
                  (Ensures-pure (Sources t b) _ b (
                    record {
                      id = refl;
                      type = refl;
                      source_type = refl;
                      user = refl;
                      deleted = refl;
                    },
                    Pays-nothing t.user b b refl refl refl,
                  ))
          ]
        ]

counted_nothing :
    (s : TransactionSourceType) (t : Transaction) (b : Db) (r : Result Transaction × Db)
    → ((a : ℤ) → signed TransactionType.settle s a ≡ pos 0)
    → Ensures (Sources t b) r
    → Ensures (FromSource s t b) r
counted_nothing s t b r e h =
    Ensures-map (Sources t b) (FromSource s t b) r h λ t' b' p. (p, e t'.amount)

untouched :
    (s : TransactionSourceType) (t : Transaction) (b : Db)
    → signed TransactionType.settle s t.amount ≡ pos 0
    → Ensures (FromSource s t b) (ok t, b)
untouched s t b e = Ensures-pure (FromSource s t b) t b (
  (
    record { id = refl; type = refl; source_type = refl; user = refl; deleted = refl },
    Pays-nothing t.user b b refl refl refl,
  ),
  e,
)

pay_source-FromSource :
    (s : TransactionSourceType) (env : Env) (sale : Sale) (o : SaleOrder) (dto : TransactionItem)
    (t : Transaction) (b : Db)
    → t.amount ≡ pos 0
    → Ensures (FromSource s t b) (pay_source s env sale o dto t b)
unfolding pay_source
pay_source-FromSource TransactionSourceType.charging_service env sale o dto t b z =
    elim (Bool-cases (not (t.id == 0) && not dto.is_archived)) [
      | inl e ↦ rw e (Ensures-err _ _ b)
      | inr e ↦ rw e (
          counted_nothing TransactionSourceType.charging_service t b _ (λ a. refl)
            (charge_service_transaction-Sources env.clock dto t o.items b))
    ]
pay_source-FromSource TransactionSourceType.offered_discount env sale o dto t b z =
    elim (Bool-cases (t.id == 0)) [
      | inr e ↦ rw e (Ensures-err _ _ b)
      | inl e ↦ rw e (
          counted_nothing TransactionSourceType.offered_discount t b _ (λ a. refl)
            (discount_transaction-Sources env sale o dto t b))
    ]
pay_source-FromSource TransactionSourceType.cheque env sale o dto t b z =
    counted_nothing TransactionSourceType.cheque t b _ (λ a. refl)
      (cheque_transaction-Sources dto t b)
pay_source-FromSource TransactionSourceType.bank env sale o dto t b z =
    counted_nothing TransactionSourceType.bank t b _ (λ a. refl) (bank_transaction-Sources dto t b)
pay_source-FromSource TransactionSourceType.cash_desk env sale o dto t b z =
    counted_nothing TransactionSourceType.cash_desk t b _ (λ a. refl)
      (cash_transaction-Sources dto t b)
pay_source-FromSource TransactionSourceType.user_credit env sale o dto t b z =
    untouched TransactionSourceType.user_credit t b (rw z neg_zero)
pay_source-FromSource TransactionSourceType.wallet_gift env sale o dto t b z =
    untouched TransactionSourceType.wallet_gift t b refl
pay_source-FromSource TransactionSourceType.loan env sale o dto t b z =
    untouched TransactionSourceType.loan t b refl
pay_source-FromSource TransactionSourceType.archived env sale o dto t b z =
    untouched TransactionSourceType.archived t b refl
pay_source-FromSource TransactionSourceType.transfer env sale o dto t b z =
    untouched TransactionSourceType.transfer t b refl
pay_source-FromSource TransactionSourceType.reserve env sale o dto t b z =
    untouched TransactionSourceType.reserve t b refl

signed-wallet :
    (s : TransactionSourceType) (a : ℤ)
    → is_user_credit s ≡ true
    → signed TransactionType.settle s a ≡ neg a
signed-wallet TransactionSourceType.user_credit a h = refl
signed-wallet _ a h = cc

-- Rows without an id find nothing among saved ones.
find_row-absent :
    (i : ℕ) (olds : List Transaction) → i ≡ 0 → All (λ t. t.id ≢ 0) olds → find_row i olds ≡ none
unfolding find_row
find_row-absent i [] e h = refl
find_row-absent i (r ∷ rs) e (h, hs) =
    let other : (r.id == i) ≡ false = ground (arith, e, λ (q : r.id ≡ 0). h q) in
    rw other (find_row-absent i rs e hs)

replace_row-absent :
    (t : Transaction) (olds : List Transaction)
    → t.id ≡ 0
    → All (λ r. r.id ≢ 0) olds
    → replace_row t olds ≡ olds
unfolding replace_row
replace_row-absent t [] e h = refl
replace_row-absent t (r ∷ rs) e (h, hs) =
    let other : (r.id == t.id) ≡ false = ground (arith, e, λ (q : r.id ≡ 0). h q) in
    rw other (ap (λ rows. r ∷ rows) (replace_row-absent t rs e hs))

-- What the loop has paid, and what it comes to.
pub record IsPaying (olds : List Transaction) (b₀ : Db) (p : Paying) (b : Db) : Type 0 where
  pub same_olds : p.olds ≡ olds
  pub all_saved : All (λ t. t.id ≢ 0) olds
  pub paid : ArePaid b₀ p.rows b
  pub sums : p.sum ≡ total p.rows

pushed-IsPaying :
    (olds : List Transaction) (b₀ : Db) (p : Paying) (b b' : Db) (t : Transaction) (value : ℤ)
    → IsPaying olds b₀ p b
    → t.id ≡ 0
    → t.type ≡ TransactionType.settle
    → t.deleted ≡ false
    → Pays t.user value b b'
    → signed TransactionType.settle t.source_type t.amount ≡ value
    → IsPaying olds b₀ (pushed p t) b'
unfolding replace_row total
pushed-IsPaying olds b₀ p b b' t value k i ty d q e =
    let new : (t.id == 0) ≡ true = (==_iff t.id 0).1 i in
    record {
      same_olds = ap (replace_row t) k.same_olds ∙ replace_row-absent t olds i k.all_saved;
      all_saved = k.all_saved;
      paid = rw new (
          ArePaid-append b₀ p.rows b b' t.user value t k.paid i q λ u.
            share-live u t d
            ∙ ap (λ ty. moved t.user (signed ty t.source_type t.amount) u) ty
            ∙ ap (λ v. moved t.user v u) e);
      sums = rw (new, total-append p.rows (t ∷ [])) (one_more p.sum (total p.rows) t.amount k.sums);
    }
  where
    one_more : (a b c : ℤ) → a ≡ b → a +ℤ c ≡ b +ℤ (c +ℤ pos 0)
    one_more a b c e = grind (int_laws, e)

pay-IsPaying :
    (olds : List Transaction) (env : Env) (sale : Sale) (o : SaleOrder) (dto : TransactionItem)
    (p : Paying) (b₀ b : Db)
    → IsPaying olds b₀ p b
    → ltb_ℤ (pos 0) dto.amount ≡ true
    → Ensures (IsPaying olds b₀) (pay env sale o dto p (new_payment env sale o dto) b)
unfolding pay new_payment
pay-IsPaying olds env sale o dto p b₀ b k h = elim (Bool-cases (dto.source == 0)) [
  | inr e ↦ rw e (
      Ensures-continue (FromSource dto.type n b) (IsPaying olds b₀) _ _
        (pay_source-FromSource dto.type env sale o dto n b refl)
        λ t' b' q. Ensures-pure (IsPaying olds b₀) (pushed p t') b' (
          pushed-IsPaying olds b₀ p b b' t' (pos 0) k q.0.0.id q.0.0.type q.0.0.deleted
            (rw q.0.0.user q.0.1) (rw q.0.0.source_type q.1)))
  | inl e ↦ elim (Bool-cases (is_user_credit dto.type)) [
    | inr f ↦ rw (e, f) (Ensures-pure (IsPaying olds b₀) p b k)
    | inl f ↦
        rw (e, f)
          (Ensures-continue _ (IsPaying olds b₀) _ _
            (do_transaction-Credited n true (dto.amount -ℤ pos 0) true b)
            λ t' b' c. Ensures-pure (IsPaying olds b₀) (pushed p (from_wallet dto t')) b' (
              pushed-IsPaying olds b₀ p b b' (from_wallet dto t') (neg dto.amount) k
                (ap (λ t. t.id) c.1) (ap (λ t. t.type) c.1) (ap (λ t. t.deleted) c.1)
                (rw (ap (λ t. t.user) c.1)
                  (rw (paid_value dto.amount h) at (Credited-Pays n _ b t' b' c.0)))
                (rw (ap (λ t. t.source_type) c.1) (signed-wallet dto.type dto.amount f))))
  ]
]
  where
    n : Transaction
    n = new_payment env sale o dto

    less_zero : (a : ℤ) → a -ℤ pos 0 ≡ a
    less_zero a = grind int_laws

    paid_value : (a : ℤ) → ltb_ℤ (pos 0) a ≡ true → value_of n (a -ℤ pos 0) ≡ neg a
    paid_value a h = rw (less_zero a) (value_of-positive n a h)

settle_payment-IsPaying :
    (olds : List Transaction) (env : Env) (sale : Sale) (o : SaleOrder) (dto : TransactionItem)
    (p : Paying) (b₀ b : Db)
    → dto.id ≡ 0
    → ltb_ℤ (pos 0) dto.amount ≡ true
    → IsPaying olds b₀ p b
    → Ensures (IsPaying olds b₀) (settle_payment env sale o dto p b)
unfolding settle_payment find_payment find_row continue_with new_payment
settle_payment-IsPaying olds env sale o dto p b₀ b n h k =
    let new : (dto.id == 0) ≡ true = (==_iff dto.id 0).1 n in
    let other : eqb_ℤ (pos 0) dto.amount ≡ false = ground (arith, h) in
    let none_found : find_row dto.id p.olds ≡ none =
      ap (find_row dto.id) k.same_olds ∙ find_row-absent dto.id olds n k.all_saved in
    rw (find_payment, none_found, new, other) (pay-IsPaying olds env sale o dto p b₀ b k h)

pub settle_payments-IsPaying :
    (olds : List Transaction) (env : Env) (sale : Sale) (o : SaleOrder)
    (dtos : List TransactionItem) (p : Paying) (b₀ b : Db)
    → All (λ dto. dto.id ≡ 0) dtos
    → IsPaying olds b₀ p b
    → Ensures (IsPaying olds b₀) (settle_payments env sale o dtos p b)
unfolding settle_payments
settle_payments-IsPaying olds env sale o [] p b₀ b n k = Ensures-pure (IsPaying olds b₀) p b k
settle_payments-IsPaying olds env sale o (dto ∷ dtos) p b₀ b (n, ns) k =
    Ensures-continue (IsPaying olds b₀) (IsPaying olds b₀) _ _
      (paid (Bool-cases (ltb_ℤ (pos 0) dto.amount)))
      λ p' b' k'. settle_payments-IsPaying olds env sale o dtos p' b₀ b' ns k'
  where
    paid :
        (ltb_ℤ (pos 0) dto.amount ≡ true) ⊎ (ltb_ℤ (pos 0) dto.amount ≡ false)
        → Ensures
            (IsPaying olds b₀)
            ((if ltb_ℤ (pos 0) dto.amount then settle_payment env sale o dto p else pure p) b)
    paid (inr e) = rw e (Ensures-pure (IsPaying olds b₀) p b k)
    paid (inl e) = rw e (settle_payment-IsPaying olds env sale o dto p b₀ b n e k)
