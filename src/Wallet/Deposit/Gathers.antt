-- ===== src/Wallet/Deposit/Gathers.antt =====
-- What the payments of a deposit gather, and what saving the rows does to the ledger.
use my_ng_platform.Prelude.{
  ℕ, ◌≡◌, refl, ◌∙◌, ℤ, pos, ◌+ℤ◌, ◌-ℤ◌, ltb_ℤ, int_laws, not, ◌&&◌, Option, none, some, List, [],
  ◌∷◌, ◌++◌, Option-cases, Bool-cases, inl, inr, All, ◌==◌,
}
use my_ng_platform.Entities.{Transaction, TransactionType, TransactionSourceType, WalletGift}
use my_ng_platform.Store.{Db, Result, ok, err, save_all}
use my_ng_platform.Gift.{get_gift}
use my_ng_platform.Wallet.Ledger.{drift}
use my_ng_platform.Wallet.Table.{IsTable}
use my_ng_platform.Wallet.Contract.{
  Ensures, Ensures-pure, Ensures-err, Ensures-map, Ensures-continue,
}
use my_ng_platform.Wallet.Posting.{moved, Pays, Pays-nothing, Pays-trans, save-new}
use my_ng_platform.Wallet.Requests.{Env, Place}
use my_ng_platform.Wallet.Providers.{TransactionItem, new_transaction, gift_transaction, whole}
use my_ng_platform.Wallet.Providers.Laws.{
  SameEntry, Sources, bank_transaction-Sources, cash_transaction-Sources,
  cheque_transaction-Sources, charge_service_transaction-Sources,
}
use my_ng_platform.Wallet.Deposit.{
  Collected, deposit_item, collected, collect_item, collect, put_gift, add_gift,
}
use my_ng_platform.Wallet.Deposit.Rows.{IsFresh, total, total-append, All-snoc, share-IsFresh}

-- What the loop over the payments has gathered: new deposits that add up to the sum, with no
-- wallet and no recorded transaction moved.
pub record Gathered (user : ℕ) (b₀ : Db) (acc : Collected) (b : Db) : Type 0 where
  pub pays : Pays user (pos 0) b₀ b
  pub fresh : All (IsFresh user) acc.rows
  pub adds : total acc.rows ≡ acc.sum

total-snoc :
    (xs : List Transaction) (t : Transaction) → total (xs ++ (t ∷ [])) ≡ total xs +ℤ t.amount
unfolding total
total-snoc xs t = rw (total-append xs (t ∷ [])) (grind int_laws)

quiet : (t t' : Transaction) (b : Db) → SameEntry t t' → Ensures (Sources t b) (ok t', b)
quiet t t' b s = Ensures-pure (Sources t b) t' b (s, Pays-nothing t.user b b refl refl refl)

deposit_item-Sources :
    (s : TransactionSourceType) (env : Env) (at : Place) (dto : TransactionItem) (t : Transaction)
    (b : Db)
    → Ensures (Sources t b) (deposit_item s env at dto t b)
unfolding deposit_item
deposit_item-Sources TransactionSourceType.cheque env at dto t b =
    cheque_transaction-Sources dto t b
deposit_item-Sources TransactionSourceType.bank env at dto t b = bank_transaction-Sources dto t b
deposit_item-Sources TransactionSourceType.cash_desk env at dto t b =
    cash_transaction-Sources dto t b
deposit_item-Sources TransactionSourceType.archived env at dto t b =
    quiet t _ b (record { id = refl; type = refl; source_type = refl; user = refl; deleted = refl })
deposit_item-Sources TransactionSourceType.charging_service env at dto t b =
    Ensures-map _ (Sources t b) _ (charge_service_transaction-Sources env.clock dto _ [] b)
      λ t' b' h. (
        record {
          id = h.0.id;
          type = h.0.type;
          source_type = h.0.source_type;
          user = h.0.user;
          deleted = h.0.deleted;
        },
        h.1,
      )
deposit_item-Sources _ env at dto t b =
    quiet t t b (record { id = refl; type = refl; source_type = refl; user = refl; deleted = refl })

entry-IsFresh :
    (now user : ℕ) (s : TransactionSourceType) (t' : Transaction)
    → SameEntry (new_transaction now TransactionType.deposit s user) t'
    → IsFresh user t'
entry-IsFresh now user s t' e = record {
  unsaved = e.id;
  is_deposit = e.type;
  owner = e.user;
  live = e.deleted;
}

Pays-more :
    (user : ℕ) (b b' b'' : Db)
    → Pays user (pos 0) b b'
    → Pays user (pos 0) b' b''
    → Pays user (pos 0) b b''
Pays-more user b b' b'' p q =
    let e : pos 0 +ℤ pos 0 ≡ pos 0 = grind int_laws in
    rw e at (Pays-trans user (pos 0) (pos 0) b b' b'' p q)

collect_item-Gathered :
    (env : Env) (at : Place) (user : ℕ) (dto : TransactionItem) (acc : Collected) (b₀ b : Db)
    → Gathered user b₀ acc b
    → Ensures (Gathered user b₀) (collect_item env at user dto acc b)
unfolding collect_item
collect_item-Gathered env at user dto acc b₀ b g =
    elim (Bool-cases (ltb_ℤ (pos 0) dto.amount && not (dto.source == 0))) [
      | inr e ↦ rw (collect_item, e) (Ensures-pure (Gathered user b₀) acc b g)
      | inl e ↦
          rw (collect_item, e)
            (Ensures-continue
              (Sources (new_transaction env.clock.now TransactionType.deposit dto.type user) b)
              (Gathered user b₀) _ _ (deposit_item-Sources dto.type env at dto _ b)
              λ t' b' p. Ensures-pure (Gathered user b₀) (collected dto acc t') b' (record {
                pays = Pays-more user b₀ b b' g.pays p.1;
                fresh =
                    All-snoc (IsFresh user) acc.rows t' g.fresh
                      (entry-IsFresh _ user dto.type t' p.0);
                adds = total-snoc acc.rows t' ∙ rw g.adds refl;
              }))
    ]

pub collect-Gathered :
    (env : Env) (at : Place) (user : ℕ) (items : List TransactionItem) (acc : Collected) (b₀ b : Db)
    → Gathered user b₀ acc b
    → Ensures (Gathered user b₀) (collect env at user items acc b)
unfolding collect
collect-Gathered env at user [] acc b₀ b g = Ensures-pure (Gathered user b₀) acc b g
collect-Gathered env at user (dto ∷ dtos) acc b₀ b g =
    Ensures-continue (Gathered user b₀) (Gathered user b₀) _ _
      (collect_item-Gathered env at user dto acc b₀ b g)
      λ acc' b' g'. collect-Gathered env at user dtos acc' b₀ b' g'

abbrev Given : (Transaction → Type 0) → Result (Option Transaction) → Type 0
Given P (err e) = Unit
Given P (ok none) = Unit
Given P (ok (some t)) = P t

gift_transaction-IsFresh :
    (now : ℕ) (without price : ℤ) (org user : ℕ) (gifts : List WalletGift)
    → Given (IsFresh user) (gift_transaction now without price org user gifts)
unfolding gift_transaction
gift_transaction-IsFresh now without price org user gifts =
    elim (Option-cases (get_gift without price org gifts)) [
      | inl e ↦ rw (gift_transaction, e) tt
      | inr ((gift, h), e) ↦ elim (Bool-cases (ltb_ℤ (pos 0) h)) [
        | inr p ↦ rw (gift_transaction, e, p) tt
        | inl p ↦ elim (Option-cases (whole h)) [
          | inl w ↦ rw (gift_transaction, e, p, w) tt
          | inr (a, w) ↦
              rw (gift_transaction, e, p, w)
                (record { unsaved = refl; is_deposit = refl; owner = refl; live = refl })
        ]
      ]
    ]

put_gift-Gathered :
    (user : ℕ) (acc : Collected) (r : Result (Option Transaction)) (b₀ b : Db)
    → Given (IsFresh user) r
    → Gathered user b₀ acc b
    → Ensures (Gathered user b₀) (put_gift acc r b)
unfolding put_gift
put_gift-Gathered user acc (err e) b₀ b h g = Ensures-err (Gathered user b₀) e b
put_gift-Gathered user acc (ok none) b₀ b h g = Ensures-pure (Gathered user b₀) acc b g
put_gift-Gathered user acc (ok (some t)) b₀ b h g = Ensures-pure (Gathered user b₀) _ b (record {
  pays = g.pays;
  fresh = All-snoc (IsFresh user) acc.rows t g.fresh h;
  adds = total-snoc acc.rows t ∙ rw g.adds refl;
})

pub add_gift-Gathered :
    (env : Env) (at : Place) (user : ℕ) (acc : Collected) (b₀ b : Db)
    → Gathered user b₀ acc b
    → Ensures (Gathered user b₀) (add_gift env at user acc b)
unfolding add_gift
add_gift-Gathered env at user acc b₀ b g =
    put_gift-Gathered user acc _ b₀ b
      (gift_transaction-IsFresh env.clock.now acc.without_cheque acc.sum at.organization_unit user
        b.wallet_gifts)
      g

-- New deposits of one user take what they come to off the drift.
pub save_all-IsFresh :
    (user : ℕ) (ts : List Transaction) (b : Db)
    → IsTable b
    → All (IsFresh user) ts
    → Ensures
        (λ _ b'. IsTable b' × ((u : ℕ) → drift u b' ≡ drift u b -ℤ moved user (total ts) u))
        (save_all ts b)
unfolding save_all total
save_all-IsFresh user [] b d h = Ensures-pure _ [] b (d, λ u. none_moved u)
  where
    none_moved : (u : ℕ) → drift u b ≡ drift u b -ℤ moved user (pos 0) u
    none_moved u = elim (Bool-cases (user == u)) [
      | inl e ↦ rw e (grind int_laws)
      | inr e ↦ rw e (grind int_laws)
    ]
save_all-IsFresh user (t ∷ ts) b d (h, hs) =
    Ensures-continue _ _ _ _ (save-new t b h.unsaved d) λ t' b' p.
      Ensures-continue _ _ _ _ (save_all-IsFresh user ts b' p.0 hs) λ ts' b'' q.
        Ensures-pure _ _ b'' (
          q.0,
          λ u.
              q.1 u
              ∙ (rw (p.1 u, share-IsFresh user u t h)
                  (both_moved (drift u b) t.amount (total ts) u)),
        )
  where
    both_moved :
        (d v w : ℤ) (u : ℕ) → d -ℤ moved user v u -ℤ moved user w u ≡ d -ℤ moved user (v +ℤ w) u
    both_moved d v w u = elim (Bool-cases (user == u)) [
      | inl e ↦ rw e (grind int_laws)
      | inr e ↦ rw e (grind int_laws)
    ]
