-- ===== src/Discounts/Laws.antt =====
-- A discount that is for no item.
use my_ng_platform.Prelude.{◌≡◌, refl, Bool, true, not, ◌&&◌, none, List, [], ◌∷◌, arith, ◌==◌}
use my_ng_platform.Charging.{contains}
use my_ng_platform.Entities.{SaleItem}
use my_ng_platform.Discounts.{
  DiscountDb, Purchase, sale_unit_ids, some_item, has_bought, admits, no_item, joined,
}

-- A sale item of the user whose id is not that of a sale unit of the order.
unfoldable pub is_purchase : Purchase → SaleItem → Bool
is_purchase q i = not i.deleted && i.user == q.user && not (contains i.id (sale_unit_ids q))

same_items :
    (d : DiscountDb) (q : Purchase) (is : List SaleItem)
    → some_item (is_purchase q) is ≡ true
    → has_bought (record d { sale_items = is }) q no_item ≡ true
unfolding has_bought is_purchase some_item
same_items d q [] h = h
same_items d q (i ∷ is) h = ground (arith, same_items d q is, h)

-- A discount without items finds no row for a user who has a sale item whose id is not that of a
-- sale unit of the order.
pub joined-first_purchase :
    (d : DiscountDb) (q : Purchase)
    → some_item (is_purchase q) d.sale_items ≡ true
    → joined d q [] ≡ none
unfolding joined admits
joined-first_purchase d q h = rw (same_items d q d.sale_items h) refl
