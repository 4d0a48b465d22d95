-- ===== src/Shop/Purchase/Retry.antt =====
-- A purchase that is sent again is charged once.
use cat_game_backend.Base.{
  ℕ, ◌≡◌, refl, sym, ◌∙◌, Bool, true, false, some, List, inl, inr, ℤ, pos, ◌*ℤ◌, leb_ℤ, ◌==◌,
  ==_refl, String, not, ◌||◌, str_eq,
}
use mathlib.Core.Path.{subst}
use mathlib.Core.Option.{some-injective}
use cat_game_backend.Core.Error.{ok, err, idempotency_conflict}
use cat_game_backend.Core.RequestHash.{Digest}
use cat_game_backend.Store.Rows.{User, GachaExecution, ResultData, advance_state_version, user_row}
use cat_game_backend.Store.Table.{Distinct, find, get, put, has_id, find-put, find-holds, get-find}
use cat_game_backend.Store.Session.{Db, begin, run_uow, run_uow_of}
use cat_game_backend.Store.Executions.{has_request, claim_status}
use cat_game_backend.Store.Claims.{
  Settles, Settles-settled, claim_or_replay_settled, claim_or_replay_conflict, claimed_db_rest,
}
use cat_game_backend.Shop.Purchase.{purchase_item, purchase_hash}
use cat_game_backend.Shop.Purchase.Outcome.{
  Purchased, purchase_item-Purchased, purchase_item-claim, paid,
}

-- A row that was written twice is found by any condition that it still meets.
find-put-put :
    (p : User → Bool) (u v w : User) (t : List User)
    → find p t ≡ some u
    → u.id ≡ v.id
    → v.id ≡ w.id
    → p v ≡ true
    → p w ≡ true
    → find p (put w (put v t)) ≡ some w
find-put-put p u v w t h e f k l = find-put p v w (put v t) (find-put p u v t h e k) f l

module _ (d : Digest) (user_public_id request_id item_public_id : ℕ) (quantity : ℤ) where
  abbrev hash : String
  hash = purchase_hash d item_public_id quantity

  -- A settled request is answered with its result.
  settled_purchase :
      (db : Db) (user locked : User) (r : ResultData)
      → leb_ℤ quantity (pos 0) ≡ false
      → find (λ u. u.public_id == user_public_id) db.users ≡ some user
      → get user.id db.users ≡ some locked
      → Settles user.id request_id hash "ITEM_PURCHASE" r db
      → run_uow (purchase_item d user_public_id request_id item_public_id quantity) db ≡ (ok r, db)
  settled_purchase db user locked r positive found row settles = run_uow_of _ db (ok r) (begin db) (
      purchase_item-claim d user_public_id request_id item_public_id quantity db user locked
        positive found row
      ∙ claim_or_replay_settled user.id request_id hash "ITEM_PURCHASE" _ db r settles)

  retry_after :
      (db db' : Db) (r : ResultData)
      → Distinct db.users
      → (p : Purchased d user_public_id request_id item_public_id quantity db r db')
      → Settles p.user.id request_id hash "ITEM_PURCHASE" r db'
      → (cost : ℤ)
      → db'.users
        ≡ put (advance_state_version (paid p.locked cost)) (put (paid p.locked cost) db.users)
      → run_uow (purchase_item d user_public_id request_id item_public_id quantity) db'
        ≡ (ok r, db')
  unfolding advance_state_version get
  retry_after db db' r keys p settles cost users =
      let v = paid p.locked cost in
      let w = advance_state_version v in
      let by_public_id = λ (u : User). u.public_id == user_public_id in
      let same : some p.user ≡ some p.locked =
        sym (get-find by_public_id p.user db.users keys p.found) ∙ p.row in
      let found = p.found ∙ same in
      let holds = find-holds by_public_id p.locked db.users found in
      let row = get-find by_public_id p.locked db.users keys found in
      settled_purchase db' w w r p.positive
        (rw users (find-put-put by_public_id p.locked v w db.users found refl refl holds holds))
        (rw users (
          find-put-put (has_id p.locked.id) p.locked v w db.users row refl refl
            (==_refl p.locked.id) (==_refl p.locked.id)))
        (subst (λ u. Settles u.id request_id hash "ITEM_PURCHASE" r db')
          (some-injective p.user p.locked same) settles)

  -- If the primary keys of the users are distinct, a purchase that returned r, sent again with
  -- the same arguments, returns r once more and leaves the database as it is.
  pub purchase_item_retry :
      (db db' : Db) (r : ResultData)
      → Distinct db.users
      → run_uow (purchase_item d user_public_id request_id item_public_id quantity) db ≡ (ok r, db')
      → run_uow (purchase_item d user_public_id request_id item_public_id quantity) db'
        ≡ (ok r, db')
  purchase_item_retry db db' r keys ran =
      let p =
        purchase_item-Purchased d user_public_id request_id item_public_id quantity db db' r ran in
      elim (p.outcome) [
        | inl (settles, same) ↦
            rw same (settled_purchase db p.user p.locked r p.positive p.found p.row settles)
        | inr (fresh, bought) ↦
            retry_after db db' r keys p
              (Settles-settled p.user.id request_id hash "ITEM_PURCHASE" db db'
                (bought.item.price *ℤ quantity) r fresh bought.executions)
              (bought.item.price *ℤ quantity)
              (bought.users ∙ rw (claimed_db_rest p.user.id request_id hash "ITEM_PURCHASE" db).0)
      ]

  -- With a positive quantity and a known user, a request id that stands in an execution of
  -- another user, or in one with another request hash, makes the purchase raise the idempotency
  -- conflict, and the database is unchanged.
  pub purchase_item_conflict :
      (db : Db) (user locked : User) (e : GachaExecution)
      → leb_ℤ quantity (pos 0) ≡ false
      → find (λ u. u.public_id == user_public_id) db.users ≡ some user
      → get user.id db.users ≡ some locked
      → find (has_request request_id) db.executions ≡ some e
      → (not (e.user_id == user.id)
          || not (str_eq e.request_hash (purchase_hash d item_public_id quantity)))
        ≡ true
      → run_uow (purchase_item d user_public_id request_id item_public_id quantity) db
        ≡ (err idempotency_conflict, db)
  unfolding claim_status
  purchase_item_conflict db user locked e positive found row present differs =
      run_uow_of _ db (err idempotency_conflict) (begin db) (
        purchase_item-claim d user_public_id request_id item_public_id quantity db user locked
          positive found row
        ∙ claim_or_replay_conflict user.id request_id hash "ITEM_PURCHASE" _ db e present
            (rw differs))
