-- ===== src/Shop/Consumables/Care.antt =====
-- A use of a consumable: errors change nothing, the tables stay consistent, and a request that is
-- sent again consumes one piece in all.
use cat_game_backend.Base.{
  ℕ, String, ◌≡◌, refl, sym, ◌∙◌, false, some, List, inl, inr, arith, ℤ, pos, ◌-ℤ◌, ◌≤ℤ◌, ◌==◌,
  ==_refl, Bool-cases, int_laws, -ℤ_parts, All,
}
use mathlib.Core.Path.{subst}
use mathlib.Core.Option.{some-injective}
use cat_game_backend.Core.Error.{ok}
use cat_game_backend.Core.RequestHash.{Digest}
use cat_game_backend.Store.Rows.{
  User, Asset, GachaExecution, ResultData, advance_state_version, user_row, asset_row,
  execution_row,
}
use cat_game_backend.Store.Table.{
  Distinct, IsBelow, find, get, put, has_id, find-put, find-holds, get-find, Distinct-put, All-put,
  All-find, All-delete_row, Distinct-delete_row,
}
use cat_game_backend.Store.Session.{Db, begin, run_uow, run_uow_of}
use cat_game_backend.Store.Atomic.{IsAtomic, run_uow-outcome}
use cat_game_backend.Store.Uncommitted.{repository_rules}
use cat_game_backend.Store.Assets.{is_item_asset, is_one}
use cat_game_backend.Store.Claims.{
  Settles, Settles-settled, claim_or_replay_settled, claimed_db_rest,
}
use cat_game_backend.Store.Consistent.{
  IsConsistent, IsSoundUser, IsSoundAsset, IsSoundExecution, advance-IsSoundUser,
  claimed_db-IsConsistent,
}
use cat_game_backend.Shop.Consumables.{use_consumable, consume, consumption_hash}
use cat_game_backend.Shop.Consumables.Outcome.{
  Consumed, Used, used, use_consumable-Used, use_consumable-claim,
}

-- Below one piece there is no row.
less-IsSound : (q : ℤ) → pos 1 ≤ℤ q → is_one q ≡ false → pos 1 ≤ℤ (q -ℤ pos 1)
unfolding is_one
less-IsSound q h more = grind (int_laws, -ℤ_parts q (pos 1))

used-IsSound :
    (a : Asset) (t : List Asset) → IsSoundAsset a → All IsSoundAsset t → All IsSoundAsset (used a t)
unfolding used
used-IsSound a t sound h = elim (Bool-cases (is_one a.quantity)) [
  | inl last ↦ rw (last, used) (All-delete_row IsSoundAsset a.id t h)
  | inr more ↦
      rw (more, used)
        (All-put IsSoundAsset (record a { quantity = a.quantity -ℤ pos 1 }) t
          (less-IsSound a.quantity sound more) h)
]

used-Distinct :
    (a : Asset) (t : List Asset) (n : ℕ)
    → IsBelow n a
    → Distinct t
    → All (IsBelow n) t
    → Distinct (used a t) × All (IsBelow n) (used a t)
unfolding used
used-Distinct a t n below keys h = elim (Bool-cases (is_one a.quantity)) [
  | inl last ↦
      rw (last, used) (Distinct-delete_row a.id t keys, All-delete_row (IsBelow n) a.id t h)
  | inr more ↦
      rw (more, used)
        (
          Distinct-put _ t keys,
          All-put (IsBelow n) (record a { quantity = a.quantity -ℤ pos 1 }) t below h,
        )
]

Consumed-IsConsistent :
    (u : User) (e : GachaExecution) (item_public_id cat_public_id : ℕ) (db db' : Db)
    (r : ResultData)
    → IsSoundUser u
    → IsConsistent db
    → Consumed u e item_public_id cat_public_id db r db'
    → IsConsistent db'
Consumed-IsConsistent u e item_public_id cat_public_id db db' r sound h b =
    let p = is_item_asset u.id b.item.id in
    let keys =
      used-Distinct b.stock db.assets db.next_id
        (All-find (IsBelow db.next_id) p b.stock db.assets h.asset_ids b.owned) h.asset_keys
        h.asset_ids in
    record {
      keys = rw b.users (Distinct-put _ _ h.keys);
      users = rw b.users (All-put IsSoundUser _ _ (advance-IsSoundUser u sound) h.users);
      asset_keys = rw b.assets keys.0;
      asset_ids = rw (b.assets, b.next_id) keys.1;
      assets = rw b.assets (
          used-IsSound b.stock db.assets
            (All-find IsSoundAsset p b.stock db.assets h.assets b.owned) h.assets);
      executions = rw b.executions (All-put IsSoundExecution _ _ (ground arith) h.executions);
    }

module _ (d : Digest) (user_public_id request_id item_public_id cat_public_id : ℕ) where
  abbrev hash : String
  hash = consumption_hash d item_public_id cat_public_id

  consume-IsAtomic :
      (u : User) (e : GachaExecution)
      → IsAtomic (consume u e request_id item_public_id cat_public_id)
  unfolding consume
  consume-IsAtomic u e = search repository_rules depth 30

  pub use_consumable-IsAtomic :
      IsAtomic (use_consumable d user_public_id request_id item_public_id cat_public_id)
  unfolding use_consumable
  use_consumable-IsAtomic = search (repository_rules, consume-IsAtomic) depth 20

  Used-IsConsistent :
      (db db' : Db) (r : ResultData)
      → IsConsistent db
      → Used d user_public_id request_id item_public_id cat_public_id db r db'
      → IsConsistent db'
  unfolding find get
  Used-IsConsistent db db' r h p = elim (p.outcome) [
    | inl (replayed, same) ↦ rw same h
    | inr (fresh, b) ↦
        Consumed-IsConsistent p.locked _ item_public_id cat_public_id _ db' r
          (All-find IsSoundUser (has_id p.user.id) p.locked db.users h.users p.row)
          (claimed_db-IsConsistent p.user.id request_id hash "ITEM_CONSUMPTION" db h) b
  ]

  -- Using a consumable keeps the tables consistent (IsConsistent) whether it returns or raises;
  -- so no asset row with quantity 0 is left.
  pub use_consumable-IsConsistent :
      (db : Db)
      → IsConsistent db
      → IsConsistent
          (run_uow (use_consumable d user_public_id request_id item_public_id cat_public_id) db).1
  use_consumable-IsConsistent db h =
      run_uow-outcome IsConsistent _ db use_consumable-IsAtomic h (λ r db' ran.
        Used-IsConsistent db db' r h (
          use_consumable-Used d user_public_id request_id item_public_id cat_public_id db db' r
            ran))

  settled_use :
      (db : Db) (user locked : User) (r : ResultData)
      → find (λ u. u.public_id == user_public_id) db.users ≡ some user
      → get user.id db.users ≡ some locked
      → Settles user.id request_id hash "ITEM_CONSUMPTION" r db
      → run_uow (use_consumable d user_public_id request_id item_public_id cat_public_id) db
        ≡ (ok r, db)
  settled_use db user locked r found row settles = run_uow_of _ db (ok r) (begin db) (
      use_consumable-claim d user_public_id request_id item_public_id cat_public_id db user locked
        found row
      ∙ claim_or_replay_settled user.id request_id hash "ITEM_CONSUMPTION" _ db r settles)

  retry_use :
      (db db' : Db) (r : ResultData)
      → Distinct db.users
      → (p : Used d user_public_id request_id item_public_id cat_public_id db r db')
      → Settles p.user.id request_id hash "ITEM_CONSUMPTION" r db'
      → db'.users ≡ put (advance_state_version p.locked) db.users
      → run_uow (use_consumable d user_public_id request_id item_public_id cat_public_id) db'
        ≡ (ok r, db')
  unfolding advance_state_version get
  retry_use db db' r keys p settles users =
      let by_public_id = λ (u : User). u.public_id == user_public_id in
      let w = advance_state_version p.locked in
      let same : some p.user ≡ some p.locked =
        sym (get-find by_public_id p.user db.users keys p.found) ∙ p.row in
      let found = p.found ∙ same in
      let row = get-find by_public_id p.locked db.users keys found in
      settled_use db' w w r
        (rw users (
          find-put by_public_id p.locked w db.users found refl
            (find-holds by_public_id p.locked db.users found)))
        (rw users
          (find-put (has_id p.locked.id) p.locked w db.users row refl (==_refl p.locked.id)))
        (subst (λ u. Settles u.id request_id hash "ITEM_CONSUMPTION" r db')
          (some-injective p.user p.locked same) settles)

  -- If the primary keys of the users are distinct, a use of a consumable that returned r, sent
  -- again with the same arguments, returns r once more and leaves the database as it is.
  pub use_consumable_retry :
      (db db' : Db) (r : ResultData)
      → Distinct db.users
      → run_uow (use_consumable d user_public_id request_id item_public_id cat_public_id) db
        ≡ (ok r, db')
      → run_uow (use_consumable d user_public_id request_id item_public_id cat_public_id) db'
        ≡ (ok r, db')
  use_consumable_retry db db' r keys ran =
      let p =
        use_consumable-Used d user_public_id request_id item_public_id cat_public_id db db' r ran in
      elim (p.outcome) [
        | inl (settles, same) ↦ rw same (settled_use db p.user p.locked r p.found p.row settles)
        | inr (fresh, b) ↦
            retry_use db db' r keys p
              (Settles-settled p.user.id request_id hash "ITEM_CONSUMPTION" db db' (pos 0) r fresh
                b.executions)
              (b.users ∙ rw (claimed_db_rest p.user.id request_id hash "ITEM_CONSUMPTION" db).0)
      ]
