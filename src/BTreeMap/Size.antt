-- ===== src/BTreeMap/Size.antt =====
-- The number of entries after an insertion.
use retia.Prelude.{◌≡◌, refl, suc, length, is_some, if◌then◌else◌, [], ◌∷◌, arith}
use retia.Prelude.Order.{Ord}
use retia.BTreeMap.{BTreeMap, get, insert, IsSorted}
use retia.BTreeMap.Laws.{get-Above, Above-trans}

module _ {ℓ κ} {K : Type ℓ} {V : Type κ} ⦃o : Ord K⦄ where
  pub length-insert :
      (k : K) (v : V) (m : BTreeMap K V)
      → IsSorted m
      → length (insert k v m) ≡ (if is_some (get k m) then length m else suc (length m))
  unfolding get insert
  length-insert k v [] s = refl
  length-insert k v ((j, w) ∷ m) s =
      ground (arith, length-insert k v m, get-Above k m, Above-trans k j m)
