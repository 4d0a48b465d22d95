-- ===== src/Gacha/Effect.antt =====
-- What a draw costs and what it brings.
use cat_game_backend.Base.{
  ℕ, String, [], ◌∷◌, any, ap, ◌≡◌, sym, ◌∙◌, true, none, some, List, length, inl, inr, arith, ◌⊎◌,
  ℤ, pos, ◌-ℤ◌, ◌+ℤ◌, ◌≤ℤ◌, eqb_ℤ, ◌==◌, if◌then◌else◌, Bool-cases,
}
use mathlib.Core.Path.{subst}
use cat_game_backend.Core.Error.{ok}
use cat_game_backend.Core.RequestHash.{Digest}
use cat_game_backend.Store.Rows.{
  GachaExecution, Cat, User, CatDraw, ResultData, advance_state_version, user_row,
}
use cat_game_backend.Store.Table.{Distinct, find, get, put, get-find, get-put}
use cat_game_backend.Store.Session.{Db, run_uow}
use cat_game_backend.Store.Executions.{has_request}
use cat_game_backend.Store.Claims.{claimed_db_rest}
use cat_game_backend.Gacha.{
  GachaReward, bonus_draws, GachaPolicy, draw_cats, draw_hash, is_draw_count, paid_draws,
}
use cat_game_backend.Store.Assets.{is_cat_asset}
use cat_game_backend.Gacha.Owning.{awards, with_drawn, has_cat, Selected, length-awards}
use cat_game_backend.Gacha.Outcome.{total}
use cat_game_backend.Gacha.Drawing.{Drawn, rewarded}
use cat_game_backend.Gacha.Claimed.{draw_cats-Drew, locked_lem}

-- The changes of `n` draws by `player`, and the result `r` that the player is told.
pub record Draw (policy : GachaPolicy) (request_id : ℕ) (n : ℤ) (player : User) (db : Db)
    (r : ResultData) (db' : Db) : Type 0 where
  -- The cats of what the policy drew, with their mileage.
  pub selected : List (Cat × ℤ)
  pub picked : Selected db (policy.draw n) selected
  pub price : ℤ
  pub rate :
      ((n ≡ pos 1) × (price ≡ policy.calculate_balance_cost (pos 1)))
      ⊎ ((n ≡ pos 11) × (price ≡ policy.calculate_balance_cost (pos 10)))
  pub charged : pos 0 ≤ℤ price
  pub affordable : price ≤ℤ player.balance
  pub count : pos (length (policy.draw n)) ≡ n
  -- The results tell of every cat whether the player had it; only those bring mileage.
  pub execution_public_id : ℕ
  pub told :
      r
      ≡ ResultData.cat_gacha execution_public_id request_id n
          (bonus_draws n)
          price
          (player.balance -ℤ price)
          (player.mileage +ℤ total (awards (has_cat player.id db) selected))
          (awards (has_cat player.id db) selected)
  -- The player has the earlier cats and the drawn ones.
  pub owned : (c : ℕ) → has_cat player.id db' c ≡ with_drawn (has_cat player.id db) selected c
  -- The player pays the price and gets the mileage of the results; no other player's row changes.
  pub users :
      (j : ℕ)
      → get j db'.users ≡ (
          if j == player.id
          then some (
              advance_state_version (record player {
                balance = player.balance -ℤ price;
                mileage = player.mileage +ℤ total (awards (has_cat player.id db) selected);
              }))
          else get j db.users)

rewarded_row :
    (u : User) (cost : ℤ) (results : List CatDraw) (t : List User) (j : ℕ)
    → get u.id t ≡ some u
    → get j (put (advance_state_version (rewarded u cost results)) t)
      ≡ (if j == u.id then some (advance_state_version (rewarded u cost results)) else get j t)
unfolding advance_state_version
rewarded_row u cost results t j row =
    ground (arith, get-put j (advance_state_version (rewarded u cost results)) t)

rate_lem :
    (policy : GachaPolicy) (n : ℤ)
    → is_draw_count n ≡ true
    → ((n ≡ pos 1)
        × (policy.calculate_balance_cost (paid_draws n) ≡ policy.calculate_balance_cost (pos 1)))
      ⊎ ((n ≡ pos 11)
          × (policy.calculate_balance_cost (paid_draws n) ≡ policy.calculate_balance_cost (pos 10)))
rate_lem policy n valid = elim (Bool-cases (eqb_ℤ n (pos 1))) [
  | inl one ↦ let e : n ≡ pos 1 = ground arith in inl (e, rw e)
  | inr more ↦ let e : n ≡ pos 11 = ground arith in inr (e, rw e)
]

-- The claim leaves the cats and the assets alone.
Selected-claimed :
    (db db' : Db) (rewards : List GachaReward) (selected : List (Cat × ℤ))
    → db'.cats ≡ db.cats
    → Selected db' rewards selected
    → Selected db rewards selected
Selected-claimed db db' [] [] same h = h
Selected-claimed db db' [] (_ ∷ selected) same h = elim h [ ]
Selected-claimed db db' (r ∷ rewards) [] same h = elim h [ ]
Selected-claimed db db' (r ∷ rewards) ((cat, m) ∷ selected) same h =
    (rw (sym same) (h.0), h.1, Selected-claimed db db' rewards selected same h.2)

Drawn-Draw :
    (policy : GachaPolicy) (user player : User) (e : GachaExecution) (request_id : ℕ) (n : ℤ)
    (claimed db : Db) (r : ResultData) (db' : Db)
    (b : Drawn policy user e request_id n claimed r db')
    → b.locked ≡ player
    → Distinct db.users
    → get player.id db.users ≡ some player
    → is_draw_count n ≡ true
    → claimed.users ≡ db.users
    → claimed.cats ≡ db.cats
    → claimed.assets ≡ db.assets
    → Draw policy request_id n player db r db'
Drawn-Draw policy user player e request_id n claimed db r db' b same keys row valid users cats
      assets =
    let cost = policy.calculate_balance_cost (paid_draws n) in
    let won : b.results ≡ awards (has_cat player.id db) b.selected =
      subst (λ (u : User). b.results ≡ awards (has_cat u.id db) b.selected) same
        (subst (λ a. b.results ≡ awards (λ c. any (is_cat_asset b.locked.id c) a) b.selected) assets
          b.awarded) in
    record {
      selected = b.selected;
      picked = Selected-claimed db claimed (policy.draw n) b.selected cats b.picked;
      price = cost;
      rate = rate_lem policy n valid;
      charged = let c = b.charged in ground arith;
      affordable = let c = rw same at b.affordable in ground arith;
      count =
          ap pos (
            sym (ap length b.awarded ∙ length-awards claimed (policy.draw n) _ b.selected b.picked))
          ∙ b.count;
      execution_public_id = e.public_id;
      told = b.result ∙ λ i.
          ResultData.cat_gacha e.public_id request_id n (bonus_draws n) cost
            ((same i).balance -ℤ cost) ((same i).mileage +ℤ total (won i)) (won i);
      owned = λ c.
          subst (λ (u : User). has_cat u.id db' c ≡ with_drawn (has_cat u.id db) b.selected c) same
            (subst
              (λ a.
                has_cat b.locked.id db' c
                ≡ with_drawn (λ k. any (is_cat_asset b.locked.id k) a) b.selected c)
              assets (b.owned c));
      users = λ j.
          ap (get j)
            (b.users ∙ λ i. put (advance_state_version (rewarded (same i) cost (won i))) (users i))
          ∙ rewarded_row player cost (awards (has_cat player.id db) b.selected) db.users j row;
    }

module _ (d : Digest) (user_public_id request_id : ℕ) (n : ℤ) where
  abbrev hash : String
  hash = draw_hash d n

  -- If the primary keys of the users are distinct and the request id is unused, a draw that
  -- returns found its player; the count is 1 at the price of 1 draw or 11 at the price of 10; the
  -- price is not negative and the player could afford it; the policy drew that many rewards, each
  -- of a known cat. The results tell of every reward's cat, in the order of the draw, whether the
  -- player had it or it came earlier in the draw; exactly then they award the mileage of the
  -- reward, and otherwise none. The player's row has paid the price and got the awarded mileage,
  -- with the state version moved on, and no other user row differs; the player has the earlier
  -- cats and the drawn ones and no others; and the returned result states the new balance,
  -- mileage and results.
  pub draw_cats-Draw :
      (policy : GachaPolicy) (db db' : Db) (r : ResultData)
      → Distinct db.users
      → find (has_request request_id) db.executions ≡ none
      → run_uow (draw_cats d policy user_public_id request_id n) db ≡ (ok r, db')
      → (player : User) × (find (λ u. u.public_id == user_public_id) db.users ≡ some player)
        × Draw policy request_id n player db r db'
  draw_cats-Draw policy db db' r keys unused ran =
      let p = draw_cats-Drew d user_public_id request_id n policy db db' r ran in
      elim (p.outcome) [
        | inl (settles, unchanged) ↦ ground (arith, settles.found)
        | inr (fresh, b) ↦
            let rest = claimed_db_rest p.user.id request_id hash "CAT_GACHA" db in
            let same =
              locked_lem d user_public_id request_id n db p.user b.locked keys p.found
                (rw rest.0 at b.row) in
            (
              p.user,
              p.found,
              Drawn-Draw policy p.user p.user _ request_id n _ db r db' b same keys
                  (get-find (λ (u : User). u.public_id == user_public_id) p.user db.users keys
                    p.found)
                  p.valid rest.0 rest.2 rest.3,
            )
      ]
