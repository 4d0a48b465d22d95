-- ===== src/Store/Stock.antt =====
-- The owned quantity of an item, and what `add_item_quantity` makes of the assets.
use cat_game_backend.Base.{
  +ℤ_parts, ◌+◌, ap, ◌∙◌, ==_refl, ℕ, ◌≡◌, refl, false, ◌&&◌, Option, none, some, List, arith, All,
  All-append, ℤ, pos, ◌+ℤ◌, leb_ℤ, Option-cases, inl, inr, int_laws, ◌==◌,
}
use cat_game_backend.Store.Rows.{Asset, asset_row}
use cat_game_backend.Store.Table.{
  find-insert_row_ne, Distinct, IsBelow, IsBelow-suc, Distinct-put, Distinct-insert_row,
  find-put_ne, get-find, find, put, insert_row, find-put, find-insert_row, find-holds, All-put,
  All-find,
}
use cat_game_backend.Store.Assets
use cat_game_backend.Store.Assets.{is_item_asset}
use cat_game_backend.Store.Consistent.{IsSoundAsset}

-- The assets with `quantity` more of the item; a new row has the key `id`.
unfoldable pub stocked : ℕ → ℕ → ℤ → ℕ → List Asset → List Asset
stocked user_id item_id quantity id assets = elim (find (is_item_asset user_id item_id) assets) [
  | none ↦ insert_row (record (Assets.new_item_asset user_id item_id quantity) { id = id }) assets
  | some a ↦ put (record a { quantity = a.quantity +ℤ quantity }) assets
]

-- The next key after that.
unfoldable pub stocked_next : ℕ → ℕ → ℕ → List Asset → ℕ
stocked_next user_id item_id id assets = elim (find (is_item_asset user_id item_id) assets) [
  | none ↦ id + 1
  | some a ↦ id
]

abbrev pub quantity_of : Option Asset → ℤ
quantity_of none = pos 0
quantity_of (some a) = a.quantity

-- How many of an item a player owns.
unfoldable pub owned : ℕ → ℕ → List Asset → ℤ
owned user_id item_id assets = quantity_of (find (is_item_asset user_id item_id) assets)

module _ (user_id item_id : ℕ) (quantity : ℤ) (id : ℕ) (assets : List Asset) where
  pub stocked-IsSound :
      leb_ℤ quantity (pos 0) ≡ false
      → All IsSoundAsset assets
      → All IsSoundAsset (stocked user_id item_id quantity id assets)
  unfolding stocked Assets.new_item_asset
  stocked-IsSound positive h = elim (Option-cases (find (is_item_asset user_id item_id) assets)) [
    | inl absent ↦ rw (absent, stocked) (All-append IsSoundAsset assets _ h (ground arith))
    | inr (a, present) ↦
        let sound = All-find IsSoundAsset (is_item_asset user_id item_id) a assets h present in
        rw (present, stocked)
          (All-put IsSoundAsset (record a { quantity = a.quantity +ℤ quantity }) assets
            (grind (int_laws, +ℤ_parts a.quantity quantity)) h)
  ]

  pub stocked-Distinct :
      Distinct assets
      → All (IsBelow id) assets
      → Distinct (stocked user_id item_id quantity id assets)
        × All
            (IsBelow (stocked_next user_id item_id id assets))
            (stocked user_id item_id quantity id assets)
  unfolding stocked stocked_next
  stocked-Distinct keys below = elim (Option-cases (find (is_item_asset user_id item_id) assets)) [
    | inl absent ↦
        rw (absent, stocked, stocked_next)
          (
            Distinct-insert_row _ assets below keys,
            All-append (IsBelow (id + 1)) assets _ (IsBelow-suc id assets below) (omega arith, tt),
          )
    | inr (a, present) ↦
        rw (present, stocked, stocked_next)
          (
            Distinct-put _ assets keys,
            All-put (IsBelow id) _ assets
                (All-find (IsBelow id) (is_item_asset user_id item_id) a assets below present)
                below,
          )
  ]

  -- The stock of that item grows by the quantity.
  pub owned-stocked :
      owned user_id item_id (stocked user_id item_id quantity id assets)
      ≡ owned user_id item_id assets +ℤ quantity
  unfolding stocked owned Assets.new_item_asset
  owned-stocked = elim (Option-cases (find (is_item_asset user_id item_id) assets)) [
    | inl absent ↦
        let new = record (Assets.new_item_asset user_id item_id quantity) { id = id } in
        let found : find (is_item_asset user_id item_id) (insert_row new assets) ≡ some new =
          find-insert_row (is_item_asset user_id item_id) new assets absent
          ∙ rw (==_refl user_id, ==_refl item_id) in
        rw (absent, stocked, owned, found) (omega int_laws)
    | inr (a, present) ↦
        let more = record a { quantity = a.quantity +ℤ quantity } in
        let found : find (is_item_asset user_id item_id) (put more assets) ≡ some more =
          find-put (is_item_asset user_id item_id) a more assets present refl
            (find-holds (is_item_asset user_id item_id) a assets present) in
        rw (present, stocked, owned, found)
  ]

  -- No other stock changes.
  pub owned-stocked_ne :
      (user' item' : ℕ)
      → Distinct assets
      → (user' == user_id) && (item' == item_id) ≡ false
      → owned user' item' (stocked user_id item_id quantity id assets) ≡ owned user' item' assets
  unfolding stocked owned Assets.new_item_asset
  owned-stocked_ne user' item' keys other =
      elim (Option-cases (find (is_item_asset user_id item_id) assets)) [
        | inl absent ↦
            let new = record (Assets.new_item_asset user_id item_id quantity) { id = id } in
            rw (absent, stocked, owned)
              (ap quantity_of
                (find-insert_row_ne (is_item_asset user' item') new assets (ground arith)))
        | inr (a, present) ↦
            let more = record a { quantity = a.quantity +ℤ quantity } in
            rw (present, stocked, owned)
              (ap quantity_of (
                find-put_ne (is_item_asset user' item') a more assets keys
                  (get-find (is_item_asset user_id item_id) a assets keys present)
                  (ground (arith, find-holds (is_item_asset user_id item_id) a assets present))
                  (ground (arith, find-holds (is_item_asset user_id item_id) a assets present))))
      ]
