-- ===== src/Wallet/Settle/Laws.antt =====
-- The settlement of an instalment against the ledger.
use my_ng_platform.Prelude.{
  ℕ, ◌≡◌, refl, ◌∙◌, ℤ, pos, ◌+ℤ◌, ◌-ℤ◌, int_laws, ◌&&◌, List, [], ◌∷◌, Bool-cases, inl, inr, All,
  ltb,
}
use my_ng_platform.Clock.{get_date}
use my_ng_platform.Entities.{Transaction, UserLoan}
use my_ng_platform.Store.{Db, save_all}
use my_ng_platform.Wallet.Ledger.{share, drift, credit_of, balance}
use my_ng_platform.Wallet.Table.{IsTable}
use my_ng_platform.Wallet.Contract.{
  Ensures, Ensures-pure, Ensures-err, Ensures-map, Ensures-continue, Keeps, Rewrites-Keeps,
}
use my_ng_platform.Wallet.Normalize.{is_user_credit}
use my_ng_platform.Wallet.Normalize.Conserves.{normalize_after_date-Rewrites}
use my_ng_platform.Wallet.Posting.{save-new}
use my_ng_platform.Wallet.Remove.Laws.{normalize_charges-Keeps}
use my_ng_platform.Wallet.Requests.{Env}
use my_ng_platform.Wallet.Deposit.{is_charging}
use my_ng_platform.Wallet.Providers.{TransactionItem}
use my_ng_platform.Wallet.Settle.{
  Installment, after_settlement, after_settlements, settle_installment_loan,
}
use my_ng_platform.Wallet.Settle.Payments.{ArePaid, settle_items-ArePaid}

-- New rows take what they are worth in the ledger off the drift.
pub save_all-unsaved :
    (ts : List Transaction) (b : Db)
    → IsTable b
    → All (λ t. t.id ≡ 0) ts
    → Ensures
        (λ _ b'. IsTable b' × ((u : ℕ) → drift u b' ≡ drift u b -ℤ balance u ts))
        (save_all ts b)
unfolding save_all balance
save_all-unsaved [] b d h = Ensures-pure _ [] b (d, λ u. grind int_laws)
save_all-unsaved (t ∷ ts) b d (h, hs) = Ensures-continue _ _ _ _ (save-new t b h d) λ t' b' p.
    Ensures-continue _ _ _ _ (save_all-unsaved ts b' p.0 hs) λ ts' b'' q.
      Ensures-pure _ _ b''
        (q.0, λ u. q.1 u ∙ rw (p.1 u) (both (drift u b) (share u t) (balance u ts)))
  where
    both : (x y z : ℤ) → x -ℤ y -ℤ z ≡ x -ℤ (y +ℤ z)
    both x y z = grind int_laws

after_settlement-Keeps :
    (env : Env) (t : Transaction) (b₀ b : Db)
    → Keeps b₀ tt b
    → Ensures (Keeps b₀) (after_settlement env t b)
unfolding after_settlement
after_settlement-Keeps env t b₀ b k =
    elim (Bool-cases (is_user_credit t.source_type && ltb t.submit_at env.clock.now)) [
      | inl e ↦ rw e (
          Ensures-continue (Keeps b₀) (Keeps b₀) _ _
            (Rewrites-Keeps b₀ b _ (normalize_after_date-Rewrites t.user t.submit_at b k.0) k)
            λ ts b' k'. Ensures-pure (Keeps b₀) tt b' k')
      | inr e ↦
          elim (Bool-cases
            (ltb (get_date env.clock env.clock.now) (get_date env.clock t.submit_at))) [
              | inl f ↦ rw (e, f) (Ensures-err (Keeps b₀) _ b)
              | inr f ↦
                  elim (Bool-cases (is_charging t.source_type && ltb t.submit_at env.clock.now)) [
                    | inl g ↦
                        rw (e, f, g)
                          (Ensures-continue (Keeps b₀) (Keeps b₀) _ _
                            (normalize_charges-Keeps b₀ b t.user t.submit_at t.source k)
                            λ ts b' k'. Ensures-pure (Keeps b₀) tt b' k')
                    | inr g ↦ rw (e, f, g) (Ensures-pure (Keeps b₀) tt b k)
                  ]
            ]
    ]

pub after_settlements-Keeps :
    (env : Env) (ts : List Transaction) (b₀ b : Db)
    → Keeps b₀ tt b
    → Ensures (Keeps b₀) (after_settlements env ts b)
unfolding after_settlements
after_settlements-Keeps env [] b₀ b k = Ensures-pure (Keeps b₀) tt b k
after_settlements-Keeps env (t ∷ ts) b₀ b k =
    Ensures-continue (Keeps b₀) (Keeps b₀) _ _ (after_settlement-Keeps env t b₀ b k)
      λ r b' k'. after_settlements-Keeps env ts b₀ b' k'

-- What is paid and not yet saved is what the drift is off by.
pub paid-drift :
    (u : ℕ) (rows : List Transaction) (b b' : Db)
    → ArePaid b rows b'
    → drift u b' -ℤ balance u rows ≡ drift u b
paid-drift u rows b b' p =
    rw (p.credits u, p.same_rows)
      (balanced (credit_of u b) (balance u rows) (balance u b.transactions))
  where
    balanced : (c r t : ℤ) → c +ℤ r -ℤ t -ℤ r ≡ c -ℤ t
    balanced c r t = grind int_laws

-- The rows that the payments made, saved.
saved-Keeps :
    (rows : List Transaction) (b b' : Db)
    → IsTable b
    → ArePaid b rows b'
    → Ensures (Keeps b) (save_all rows b')
saved-Keeps rows b b' d p =
    Ensures-map _ (Keeps b) _ (save_all-unsaved rows b' (rw (p.same_next, p.same_rows) d) p.unsaved)
      λ ts b'' k. (k.0, λ u. k.1 u ∙ paid-drift u rows b b' p)

none_paid : (c : ℤ) → c ≡ c +ℤ pos 0
none_paid c = grind int_laws

pub nothing_paid : (b : Db) → ArePaid b [] b
unfolding balance
nothing_paid b = record {
  unsaved = tt;
  same_rows = refl;
  same_next = refl;
  credits = λ u. none_paid (credit_of u b);
}

-- The settlement of an instalment, from whatever sources and users, keeps the table in order, and
-- keeps for every user the difference of the stored credit and the recorded transactions, unless it
-- throws.
pub settle_installment_loan-Keeps :
    (env : Env) (inst : Installment) (loan : UserLoan) (items : List TransactionItem) (b : Db)
    → IsTable b
    → Ensures (Keeps b) (settle_installment_loan env inst loan items b)
unfolding settle_installment_loan
settle_installment_loan-Keeps env inst loan items b d =
    Ensures-continue (ArePaid b) (Keeps b) _ _
      (settle_items-ArePaid env inst loan items [] b b (nothing_paid b))
      λ rows b' p. Ensures-continue (Keeps b) (Keeps b) _ _ (saved-Keeps rows b b' d p) λ ts b'' k.
        Ensures-continue (Keeps b) (Keeps b) _ _ (after_settlements-Keeps env ts b b'' k)
          λ r b₃ k₃. Ensures-pure (Keeps b) ts b₃ k₃
