-- ===== src/Gacha/Claimed.antt =====
-- A draw that returned has replayed its request or drawn afresh.
use cat_game_backend.Base.{
  ℕ, String, ◌≡◌, sym, ◌∙◌, true, some, inl, inr, arith, ◌⊎◌, ℤ, ◌==◌, Option-cases, Bool-cases,
}
use mathlib.Core.Option.{some-injective}
use cat_game_backend.Core.Error.{ok}
use cat_game_backend.Core.RequestHash.{Digest}
use cat_game_backend.Store.Rows.{User, ResultData, acquired, user_row}
use cat_game_backend.Store.Table.{Distinct, find, get, get-find}
use cat_game_backend.Store.Session.{Db, Session, begin, run_uow, run_uow-ok}
use cat_game_backend.Store.Claims.{
  claim_or_replay, claim_or_replay-ok, Settles, claimed_execution, claimed_status, claimed_db,
}
use cat_game_backend.Gacha.{GachaPolicy, draw_cats, draw_fresh, draw_hash, is_draw_count}
use cat_game_backend.Gacha.Drawing.{Drawn, draw_fresh-Drawn}

module _ (d : Digest) (user_public_id request_id : ℕ) (n : ℤ) where
  abbrev hash : String
  hash = draw_hash d n

  -- Past the guards a draw is its claim and what follows.
  pub draw_cats-claim :
      (policy : GachaPolicy) (db : Db) (user locked : User)
      → is_draw_count n ≡ true
      → find (λ u. u.public_id == user_public_id) db.users ≡ some user
      → get user.id db.users ≡ some locked
      → draw_cats d policy user_public_id request_id n (begin db)
        ≡ claim_or_replay user.id request_id hash "CAT_GACHA"
            (λ e. draw_fresh policy user e request_id n)
            (begin db)
  unfolding draw_cats
  draw_cats-claim policy db user locked valid found row = rw (valid, found, row)

  -- What a draw that returned `r` found, and what it left.
  pub record Drew (policy : GachaPolicy) (db : Db) (r : ResultData) (db' : Db) : Type 0 where
    pub user : User
    pub locked : User
    pub valid : is_draw_count n ≡ true
    pub found : find (λ u. u.public_id == user_public_id) db.users ≡ some user
    pub row : get user.id db.users ≡ some locked
    pub outcome :
        (Settles user.id request_id hash "CAT_GACHA" r db × (db' ≡ db))
        ⊎ ((claimed_status user.id request_id hash "CAT_GACHA" db ≡ acquired)
            × Drawn policy user
                (claimed_execution user.id request_id hash "CAT_GACHA" db)
                request_id
                n
                (claimed_db user.id request_id hash "CAT_GACHA" db)
                r
                db')

  claimed_draw :
      (policy : GachaPolicy) (db : Db) (user : User) (s' : Session) (r : ResultData)
      → claim_or_replay user.id request_id hash "CAT_GACHA"
          (λ e. draw_fresh policy user e request_id n)
          (begin db)
        ≡ (ok r, s')
      → (Settles user.id request_id hash "CAT_GACHA" r db × (s'.committed ≡ db))
        ⊎ ((claimed_status user.id request_id hash "CAT_GACHA" db ≡ acquired)
            × Drawn policy user
                (claimed_execution user.id request_id hash "CAT_GACHA" db)
                request_id
                n
                (claimed_db user.id request_id hash "CAT_GACHA" db)
                r
                s'.committed)
  claimed_draw policy db user s' r h =
      elim (claim_or_replay-ok user.id request_id hash "CAT_GACHA"
        (λ e. draw_fresh policy user e request_id n) db r s' h) [
          | inl replayed ↦ inl replayed
          | inr (fresh, ran) ↦
              inr (fresh, draw_fresh-Drawn policy user _ request_id n db _ s' r ran)
        ]

  pub draw_cats-Drew :
      (policy : GachaPolicy) (db db' : Db) (r : ResultData)
      → run_uow (draw_cats d policy user_public_id request_id n) db ≡ (ok r, db')
      → Drew policy db r db'
  unfolding draw_cats
  draw_cats-Drew policy db db' r h =
      let (s', ran, same) =
        run_uow-ok (draw_cats d policy user_public_id request_id n) db db' r h in
      elim (Bool-cases (is_draw_count n)) [
        | inr invalid ↦ ground arith
        | inl valid ↦ elim (Option-cases (find (λ u. u.public_id == user_public_id) db.users)) [
          | inl unknown ↦ ground arith
          | inr (user, found) ↦ elim (Option-cases (get user.id db.users)) [
            | inl unlocked ↦ ground arith
            | inr (locked, row) ↦ rw (← same) (record {
              user = user;
              locked = locked;
              valid = valid;
              found = found;
              row = row;
              outcome =
                  claimed_draw policy db user s' r
                    (sym (draw_cats-claim policy db user locked valid found row) ∙ ran);
            })
          ]
        ]
      ]

  -- The locked row is the row that was found.
  pub locked_lem :
      (db : Db) (user locked : User)
      → Distinct db.users
      → find (λ u. u.public_id == user_public_id) db.users ≡ some user
      → get user.id db.users ≡ some locked
      → locked ≡ user
  locked_lem db user locked keys found row =
      some-injective locked user
        (sym row ∙ get-find (λ (u : User). u.public_id == user_public_id) user db.users keys found)
