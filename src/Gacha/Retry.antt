-- ===== src/Gacha/Retry.antt =====
-- A draw that is sent again is drawn once.
use cat_game_backend.Base.{ℕ, String, ◌≡◌, refl, ◌∙◌, true, some, List, inl, inr, ℤ, ◌==◌, ==_refl}
use cat_game_backend.Core.Error.{ok}
use cat_game_backend.Core.RequestHash.{Digest}
use cat_game_backend.Store.Rows.{User, CatDraw, ResultData, advance_state_version, user_row}
use cat_game_backend.Store.Table.{Distinct, find, get, put, has_id, find-put, find-holds, get-find}
use cat_game_backend.Store.Session.{Db, begin, run_uow, run_uow_of}
use cat_game_backend.Store.Claims.{
  claim_or_replay_settled, Settles, Settles-settled_counted, claimed_db_rest,
}
use cat_game_backend.Gacha.{GachaPolicy, draw_cats, draw_hash, is_draw_count, paid_draws}
use cat_game_backend.Gacha.Drawing.{rewarded}
use cat_game_backend.Gacha.Claimed.{Drew, draw_cats-claim, draw_cats-Drew, locked_lem}

module _ (d : Digest) (user_public_id request_id : ℕ) (n : ℤ) where
  abbrev hash : String
  hash = draw_hash d n

  settled_draw :
      (policy : GachaPolicy) (db : Db) (user locked : User) (r : ResultData)
      → is_draw_count n ≡ true
      → find (λ u. u.public_id == user_public_id) db.users ≡ some user
      → get user.id db.users ≡ some locked
      → Settles user.id request_id hash "CAT_GACHA" r db
      → run_uow (draw_cats d policy user_public_id request_id n) db ≡ (ok r, db)
  settled_draw policy db user locked r valid found row settles = run_uow_of _ db (ok r) (begin db) (
      draw_cats-claim d user_public_id request_id n policy db user locked valid found row
      ∙ claim_or_replay_settled user.id request_id hash "CAT_GACHA" _ db r settles)

  retry_draw :
      (policy again : GachaPolicy) (db db' : Db) (r : ResultData) (cost : ℤ)
      (results : List CatDraw)
      → Distinct db.users
      → (p : Drew d user_public_id request_id n policy db r db')
      → Settles p.user.id request_id hash "CAT_GACHA" r db'
      → db'.users ≡ put (advance_state_version (rewarded p.user cost results)) db.users
      → run_uow (draw_cats d again user_public_id request_id n) db' ≡ (ok r, db')
  unfolding advance_state_version get
  retry_draw policy again db db' r cost results keys p settles users =
      let w = advance_state_version (rewarded p.user cost results) in
      let by_public_id = λ (u : User). u.public_id == user_public_id in
      let row = get-find by_public_id p.user db.users keys p.found in
      settled_draw again db' w w r p.valid
        (rw users (
          find-put by_public_id p.user w db.users p.found refl
            (find-holds by_public_id p.user db.users p.found)))
        (rw users (find-put (has_id p.user.id) p.user w db.users row refl (==_refl p.user.id)))
        settles

  -- If the primary keys of the users are distinct, a draw that returned r, sent again with the
  -- same request id and count, returns r once more and leaves the database as it is, whatever the
  -- policy draws the second time.
  pub draw_cats_retry :
      (policy again : GachaPolicy) (db db' : Db) (r : ResultData)
      → Distinct db.users
      → run_uow (draw_cats d policy user_public_id request_id n) db ≡ (ok r, db')
      → run_uow (draw_cats d again user_public_id request_id n) db' ≡ (ok r, db')
  draw_cats_retry policy again db db' r keys ran =
      let p = draw_cats-Drew d user_public_id request_id n policy db db' r ran in
      elim (p.outcome) [
        | inl (settles, same) ↦
            rw same (settled_draw again db p.user p.locked r p.valid p.found p.row settles)
        | inr (fresh, b) ↦
            let rest = claimed_db_rest p.user.id request_id hash "CAT_GACHA" db in
            let same =
              locked_lem d user_public_id request_id n db p.user b.locked keys p.found
                (rw rest.0 at b.row) in
            retry_draw policy again db db' r (policy.calculate_balance_cost (paid_draws n))
              b.results keys p
              (Settles-settled_counted p.user.id request_id hash "CAT_GACHA" db db' (some n) _ r
                fresh b.executions)
              (b.users ∙ rw (same, rest.0))
      ]
