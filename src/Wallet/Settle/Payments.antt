-- ===== src/Wallet/Settle/Payments.antt =====
-- What the payments of an instalment do to the credits.
use my_ng_platform.Prelude.{
  ℕ, ◌≡◌, refl, ◌∙◌, ℤ, pos, ◌+ℤ◌, neg, ltb_ℤ, eqb_ℤ, int_laws, arith, true, false, List, [], ◌∷◌,
  ◌++◌, Bool-cases, inl, inr, All, if◌then◌else◌,
}
use my_ng_platform.Entities.{Transaction, TransactionType, TransactionSourceType, UserLoan}
use my_ng_platform.Store.{Db, Result, pure, ◌>>=◌}
use my_ng_platform.Wallet.Ledger.{share, signed, credit_of, balance}
use my_ng_platform.Wallet.Contract.{
  Ensures, Ensures-pure, Ensures-err, Ensures-map, Ensures-continue,
}
use my_ng_platform.Wallet.Credit.{value_of}
use my_ng_platform.Wallet.Credit.Laws.{do_transaction-Credited}
use my_ng_platform.Wallet.Posting.{moved, Pays, Pays-nothing, Credited-Pays}
use my_ng_platform.Wallet.Requests.{Env}
use my_ng_platform.Wallet.Providers.{TransactionItem}
use my_ng_platform.Wallet.Providers.Laws.{
  SameEntry, Sources, bank_transaction-Sources, cash_transaction-Sources,
  cheque_transaction-Sources, charge_service_transaction-Sources,
}
use my_ng_platform.Wallet.Settle.{Installment, new_settlement, settle_item, settled, settle_items}

-- What the source of one payment does: the credit falls by the amount if the wallet pays, and no
-- credit moves if another source does.
pub record IsPaid (s : TransactionSourceType) (amount : ℤ) (t : Transaction) (b : Db)
    (t' : Transaction) (b' : Db) : Type 0 where
  same : SameEntry t t'
  pays : Pays t.user (signed TransactionType.settle s amount) b b'

pub value_of-positive : (t : Transaction) (a : ℤ) → ltb_ℤ (pos 0) a ≡ true → value_of t a ≡ neg a
unfolding value_of
value_of-positive t a h = let e : eqb_ℤ a (pos 0) ≡ false = ground (arith, h) in rw e

of_source :
    (amount : ℤ) (t : Transaction) (b : Db) (s : TransactionSourceType)
    (r : Result Transaction × Db)
    → signed TransactionType.settle s amount ≡ pos 0
    → Ensures (Sources t b) r
    → Ensures (IsPaid s amount t b) r
of_source amount t b s r e h =
    Ensures-map (Sources t b) (IsPaid s amount t b) r h
      λ t' b' p. record { same = p.0; pays = rw e p.1 }

settle_item-IsPaid :
    (s : TransactionSourceType) (env : Env) (dto : TransactionItem) (t : Transaction) (b : Db)
    → ltb_ℤ (pos 0) dto.amount ≡ true
    → Ensures (IsPaid s dto.amount t b) (settle_item s env dto t b)
unfolding settle_item
settle_item-IsPaid TransactionSourceType.user_credit env dto t b h =
    Ensures-map _ (IsPaid TransactionSourceType.user_credit dto.amount t b) _
      (do_transaction-Credited t true dto.amount true b)
      λ t' b' c. record {
        same =
            rw c.1
              (record { id = refl; type = refl; source_type = refl; user = refl; deleted = refl });
        pays = rw (value_of-positive t dto.amount h) at (Credited-Pays t _ b t' b' c.0);
      }
settle_item-IsPaid TransactionSourceType.charging_service env dto t b h =
    of_source dto.amount t b TransactionSourceType.charging_service _ refl
      (charge_service_transaction-Sources env.clock dto t [] b)
settle_item-IsPaid TransactionSourceType.offered_discount env dto t b h =
    Ensures-err (IsPaid TransactionSourceType.offered_discount dto.amount t b) _ b
settle_item-IsPaid TransactionSourceType.cheque env dto t b h =
    of_source dto.amount t b TransactionSourceType.cheque _ refl
      (cheque_transaction-Sources dto t b)
settle_item-IsPaid TransactionSourceType.bank env dto t b h =
    of_source dto.amount t b TransactionSourceType.bank _ refl (bank_transaction-Sources dto t b)
settle_item-IsPaid TransactionSourceType.cash_desk env dto t b h =
    of_source dto.amount t b TransactionSourceType.cash_desk _ refl
      (cash_transaction-Sources dto t b)
settle_item-IsPaid _ env dto t b h = Ensures-pure (IsPaid _ dto.amount t b) t b (record {
  same = record { id = refl; type = refl; source_type = refl; user = refl; deleted = refl };
  pays = Pays-nothing t.user b b refl refl refl;
})

-- What the loop has paid: the credits have moved by what the new rows are worth in the ledger.
pub record ArePaid (b₀ : Db) (rows : List Transaction) (b : Db) : Type 0 where
  pub unsaved : All (λ t. t.id ≡ 0) rows
  pub same_rows : b.transactions ≡ b₀.transactions
  pub same_next : b.next_id ≡ b₀.next_id
  pub credits : (u : ℕ) → credit_of u b ≡ credit_of u b₀ +ℤ balance u rows

balance-append :
    (u : ℕ) (rows : List Transaction) (t : Transaction)
    → balance u (rows ++ (t ∷ [])) ≡ balance u rows +ℤ share u t
unfolding balance
balance-append u [] t = grind int_laws
balance-append u (r ∷ rs) t = grind (int_laws, balance-append u rs t)

unsaved_snoc :
    (rows : List Transaction) (t : Transaction)
    → All (λ t. t.id ≡ 0) rows
    → t.id ≡ 0
    → All (λ t. t.id ≡ 0) (rows ++ (t ∷ []))
unsaved_snoc [] t h k = (k, tt)
unsaved_snoc (r ∷ rs) t (h, hs) k = (h, unsaved_snoc rs t hs k)

-- One more payment, whose new row is worth what it moves.
pub ArePaid-append :
    (b₀ : Db) (rows : List Transaction) (b b' : Db) (user : ℕ) (value : ℤ) (t : Transaction)
    → ArePaid b₀ rows b
    → t.id ≡ 0
    → Pays user value b b'
    → ((u : ℕ) → share u t ≡ moved user value u)
    → ArePaid b₀ (rows ++ (t ∷ [])) b'
ArePaid-append b₀ rows b b' user value t p unsaved q worth = record {
  unsaved = unsaved_snoc rows t p.unsaved unsaved;
  same_rows = q.same_rows ∙ p.same_rows;
  same_next = q.same_next ∙ p.same_next;
  credits = λ u.
      q.credits u
      ∙ rw (p.credits u, balance-append u rows t, worth u)
          (regroup (credit_of u b₀) (balance u rows) (moved user value u));
}
  where
    regroup : (c x y : ℤ) → c +ℤ x +ℤ y ≡ c +ℤ (x +ℤ y)
    regroup c x y = grind int_laws

share-settled :
    (u : ℕ) (env : Env) (inst : Installment) (loan : UserLoan) (dto : TransactionItem)
    (t' : Transaction)
    → SameEntry (new_settlement env inst loan dto) t'
    → share u (settled dto t')
      ≡ moved
          (new_settlement env inst loan dto).user
          (signed TransactionType.settle dto.type dto.amount)
          u
unfolding share new_settlement
share-settled u env inst loan dto t' s = rw (s.deleted, s.user, s.type, s.source_type) refl

pub settle_items-ArePaid :
    (env : Env) (inst : Installment) (loan : UserLoan) (items : List TransactionItem)
    (rows : List Transaction) (b₀ b : Db)
    → ArePaid b₀ rows b
    → Ensures (ArePaid b₀) (settle_items env inst loan items rows b)
unfolding settle_items new_settlement
settle_items-ArePaid env inst loan [] rows b₀ b p = Ensures-pure (ArePaid b₀) rows b p
settle_items-ArePaid env inst loan (dto ∷ dtos) rows b₀ b p =
    Ensures-continue (ArePaid b₀) (ArePaid b₀) _ _ first_item
      λ rows' b' p'. settle_items-ArePaid env inst loan dtos rows' b₀ b' p'
  where
    first_item : Ensures (ArePaid b₀) (
        (if ltb_ℤ (pos 0) dto.amount
            then (settle_item dto.type env dto (new_settlement env inst loan dto) >>= λ t.
                pure (rows ++ (settled dto t ∷ [])))
            else pure rows)
          b)
    first_item = elim (Bool-cases (ltb_ℤ (pos 0) dto.amount)) [
      | inr e ↦ rw e (Ensures-pure (ArePaid b₀) rows b p)
      | inl e ↦ rw e (
          Ensures-continue (IsPaid dto.type dto.amount (new_settlement env inst loan dto) b)
            (ArePaid b₀) _ _
            (settle_item-IsPaid dto.type env dto (new_settlement env inst loan dto) b e)
            λ t' b' q. Ensures-pure (ArePaid b₀) (rows ++ (settled dto t' ∷ [])) b' (
              ArePaid-append b₀ rows b b' _ _ (settled dto t') p q.same.id q.pays
                λ u. share-settled u env inst loan dto t' q.same))
    ]
