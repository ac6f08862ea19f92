-- ===== src/Gift.antt =====
-- The gift for filling a wallet: automation/operational/service/wallet-gift.service.ts.
use my_ng_platform.Prelude.{
  ℕ, ℤ, pos, ◌*ℤ◌, leb_ℤ, ltb_ℤ, Bool, false, ◌&&◌, ◌||◌, Option, none, some, List, [], ◌∷◌, ◌==◌,
  if◌then◌else◌,
}
use my_ng_platform.Entities.{WalletGift, GiftType}

unfoldable pub offered_in : ℕ → List ℕ → Bool
offered_in o [] = false
offered_in o (p ∷ ps) = p == o || offered_in o ps

-- A gift with `cheque` looks at the whole sum, any other at the sum without cheques.
unfoldable pub applies : ℤ → ℤ → ℕ → WalletGift → Bool
unfolding offered_in
applies without_cheque price org g =
    let paid = if g.cheque then price else without_cheque in
    leb_ℤ g.from_price paid && ltb_ℤ paid g.to_price && offered_in org g.organization_units

unfoldable pub first_gift : ℤ → ℤ → ℕ → List WalletGift → Option WalletGift
unfolding applies
first_gift without_cheque price org [] = none
first_gift without_cheque price org (g ∷ gs) =
    if applies without_cheque price org g then some g else first_gift without_cheque price org gs

-- The gift's value, in hundredths: `price * gift / 100` for a percentage.
unfoldable pub gift_hundredths : ℤ → WalletGift → ℤ
gift_hundredths price g = elim g.type [
  | GiftType.percent ↦ price *ℤ g.gift
  | GiftType.price ↦ g.gift *ℤ pos 100
]

-- `WalletGiftService.get`: the gift that the database finds and its value; `[null, 0]` is `none`.
unfoldable pub get_gift : ℤ → ℤ → ℕ → List WalletGift → Option (WalletGift × ℤ)
unfolding first_gift gift_hundredths
get_gift without_cheque price org gifts = elim (first_gift without_cheque price org gifts) [
  | none ↦ none
  | some g ↦ some (g, gift_hundredths price g)
]
