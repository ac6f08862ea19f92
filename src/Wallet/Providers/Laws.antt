-- ===== src/Wallet/Providers/Laws.antt =====
-- The sources of a payment leave the wallets and the recorded transactions alone.
use my_ng_platform.Prelude.{
  ℕ, ◌≡◌, refl, pos, leb_ℤ, ltb_ℤ, not, ◌&&◌, Option, List, Option-cases, Bool-cases, inl, inr,
  ◌==◌,
}
use my_ng_platform.Clock.{Clock}
use my_ng_platform.Entities.{Transaction, SaleItem}
use my_ng_platform.Store.{Db, ok}
use my_ng_platform.Wallet.Contract.{Ensures, Ensures-pure, Ensures-err}
use my_ng_platform.Wallet.Posting.{Pays, Pays-nothing}
use my_ng_platform.Wallet.Providers.{
  TransactionItem, looks_up, found_charging, charge_service_transaction, bank_transaction,
  cash_transaction, cheque_transaction,
}

-- What a source leaves of the transaction.
pub record SameEntry (t t' : Transaction) : Type 0 where
  pub id : t'.id ≡ t.id
  pub type : t'.type ≡ t.type
  pub source_type : t'.source_type ≡ t.source_type
  pub user : t'.user ≡ t.user
  pub deleted : t'.deleted ≡ t.deleted

abbrev pub Sources : Transaction → Db → Transaction → Db → Type 0
Sources t b t' b' = SameEntry t t' × Pays t.user (pos 0) b b'

refl-SameEntry : (t : Transaction) → SameEntry t t
refl-SameEntry t = record {
  id = refl;
  type = refl;
  source_type = refl;
  user = refl;
  deleted = refl;
}

quiet : (t t' : Transaction) (b : Db) → SameEntry t t' → Ensures (Sources t b) (ok t', b)
quiet t t' b s = Ensures-pure (Sources t b) t' b (s, Pays-nothing t.user b b refl refl refl)

same :
    (t t' : Transaction)
    → t'.id ≡ t.id
    → t'.type ≡ t.type
    → t'.source_type ≡ t.source_type
    → t'.user ≡ t.user
    → t'.deleted ≡ t.deleted
    → SameEntry t t'
same t t' a b c d e = record { id = a; type = b; source_type = c; user = d; deleted = e }

charged :
    (t t' : Transaction) (b : Db) (items : ℕ → Option SaleItem)
    → SameEntry t t'
    → Ensures (Sources t b) (ok t', record b { sale_items = items })
charged t t' b items s =
    Ensures-pure (Sources t b) t' (record b { sale_items = items })
      (s, Pays-nothing t.user b (record b { sale_items = items }) refl refl refl)

pub bank_transaction-Sources :
    (dto : TransactionItem) (t : Transaction) (b : Db)
    → Ensures (Sources t b) (bank_transaction dto t b)
unfolding bank_transaction
bank_transaction-Sources dto t b = elim (Bool-cases (looks_up dto t && not (b.banks dto.source))) [
  | inl e ↦ rw e (Ensures-err (Sources t b) _ b)
  | inr e ↦ rw e (
      quiet t _ b
        (record { id = refl; type = refl; source_type = refl; user = refl; deleted = refl }))
]

pub cash_transaction-Sources :
    (dto : TransactionItem) (t : Transaction) (b : Db)
    → Ensures (Sources t b) (cash_transaction dto t b)
unfolding cash_transaction
cash_transaction-Sources dto t b =
    elim (Bool-cases (looks_up dto t && not (b.cash_desks dto.source))) [
      | inl e ↦ rw e (Ensures-err (Sources t b) _ b)
      | inr e ↦ rw e (
          quiet t _ b
            (record { id = refl; type = refl; source_type = refl; user = refl; deleted = refl }))
    ]

pub cheque_transaction-Sources :
    (dto : TransactionItem) (t : Transaction) (b : Db)
    → Ensures (Sources t b) (cheque_transaction dto t b)
unfolding cheque_transaction
cheque_transaction-Sources dto t b = elim (Bool-cases (looks_up dto t)) [
  | inr e ↦ rw e (quiet t t b (refl-SameEntry t))
  | inl e ↦ rw e (elim (Option-cases (b.cheques dto.source)) [
    | inl f ↦ rw f (Ensures-err (Sources t b) _ b)
    | inr (q, f) ↦ rw f (elim (Bool-cases (q.user == dto.user && not q.deleted)) [
      | inl g ↦ rw g (
          quiet t _ b
            (record { id = refl; type = refl; source_type = refl; user = refl; deleted = refl }))
      | inr g ↦ rw g (Ensures-err (Sources t b) _ b)
    ])
  ])
]

pub charge_service_transaction-Sources :
    (c : Clock) (dto : TransactionItem) (t : Transaction) (sold : List SaleItem) (b : Db)
    → Ensures (Sources t b) (charge_service_transaction c dto t sold b)
unfolding charge_service_transaction
charge_service_transaction-Sources c dto t sold b =
    elim (Option-cases (found_charging c dto t sold b)) [
      | inl e ↦ rw (charge_service_transaction, e) (Ensures-err (Sources t b) _ b)
      | inr ((service, value), e) ↦ elim (Bool-cases (t.id == 0)) [
        | inr f ↦
            rw (charge_service_transaction, e, f)
              (charged t _ b _ (same t _ refl refl refl refl refl))
        | inl f ↦ elim (Bool-cases (ltb_ℤ (pos 0) value && leb_ℤ dto.amount value)) [
          | inl g ↦
              rw (charge_service_transaction, e, f, g)
                (charged t _ b _ (same t _ refl refl refl refl refl))
          | inr g ↦ rw (charge_service_transaction, e, f, g) (Ensures-err (Sources t b) _ b)
        ]
      ]
    ]
