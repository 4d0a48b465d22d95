-- ===== src/Gacha/Drawing.antt =====
-- What a draw that returned has done.
use cat_game_backend.Base.{
  ℕ, Bool, ap, false, not, ◌≡◌, refl, sym, ◌∙◌, some, List, [], ◌∷◌, length, any, ℤ, pos, ◌+ℤ◌,
  ◌-ℤ◌, ltb_ℤ, eqb_ℤ, arith,
}
use cat_game_backend.Core.Error.{
  ok, Missing, resource_not_found, insufficient_balance, runtime_error,
}
use cat_game_backend.Store.Rows.{
  Cat, User, Asset, CatDraw, GachaExecution, ResultData, advance_state_version, user_row,
  execution_row,
}
use cat_game_backend.Store.Table.{get, put}
use cat_game_backend.Store.Session.{Db, Session, begin, flush_assets, ◌>>=◌}
use cat_game_backend.Store.Claims.{opened, settled}
use cat_game_backend.Store.Inversion.{or_raise_bind-ok, raise_if_bind-ok}
use cat_game_backend.Gacha.{
  GachaPolicy, draw_fresh, finish, select_cats, award_all, is_negative, paid_draws, bonus_draws,
}
use cat_game_backend.Store.Assets.{find_cat_asset}
use cat_game_backend.Gacha.Owning.{
  awards, with_drawn, has_cat, Selected, Finds, Finds-opened, flushed-has_cat, length-awards,
}
use cat_game_backend.Gacha.Outcome.{
  total, bind-ok, bind-inv, select_cats-Selected, award_all-Awarded,
}

-- The inserts of the flush leave the users and the executions alone.
flush_assets_rest :
    (new : List Asset) (db : Db)
    → ((flush_assets new db).users ≡ db.users) × ((flush_assets new db).executions ≡ db.executions)
unfolding flush_assets
flush_assets_rest [] db = (refl, refl)
flush_assets_rest (a ∷ new) db = flush_assets_rest new _

-- The row of a player who paid `cost` and won `results`.
abbrev pub rewarded : User → ℤ → List CatDraw → User
rewarded u cost results = record u {
  balance = u.balance -ℤ cost;
  mileage = u.mileage +ℤ total results;
}

-- `cost` was charged for `n` draws, and `r` stored.
pub record Drawn (policy : GachaPolicy) (user : User) (e : GachaExecution) (request_id : ℕ) (n : ℤ)
    (db : Db) (r : ResultData) (db' : Db) : Type 0 where
  pub locked : User
  pub selected : List (Cat × ℤ)
  pub results : List CatDraw
  pub picked : Selected db (policy.draw n) selected
  pub awarded : results ≡ awards (has_cat locked.id db) selected
  pub owned : (c : ℕ) → has_cat locked.id db' c ≡ with_drawn (has_cat locked.id db) selected c
  pub row : get user.id db.users ≡ some locked
  pub charged : ltb_ℤ (policy.calculate_balance_cost (paid_draws n)) (pos 0) ≡ false
  pub affordable : ltb_ℤ locked.balance (policy.calculate_balance_cost (paid_draws n)) ≡ false
  pub count : pos (length results) ≡ n
  pub users :
      db'.users
      ≡ put
          (advance_state_version
            (rewarded locked (policy.calculate_balance_cost (paid_draws n)) results))
          db.users
  pub executions :
      db'.executions
      ≡ put
          (settled
            (record e { draw_count = some n })
            (policy.calculate_balance_cost (paid_draws n))
            r)
          db.executions
  pub result :
      r
      ≡ ResultData.cat_gacha e.public_id request_id n
          (bonus_draws n)
          (policy.calculate_balance_cost (paid_draws n))
          (locked.balance -ℤ policy.calculate_balance_cost (paid_draws n))
          (locked.mileage +ℤ total results)
          results

-- The tables after the commit.
abbrev finished : User → GachaExecution → ℤ → ℤ → ResultData → List Asset → Db → Db
finished winner e n cost r new db = flush_assets new (record db {
  users = put (advance_state_version winner) db.users;
  executions = put (settled (record e { draw_count = some n }) cost r) db.executions;
})

finish_lem :
    (winner : User) (results : List CatDraw) (e : GachaExecution) (request_id : ℕ) (n cost : ℤ)
    (new : List Asset) (c db : Db)
    → ltb_ℤ cost (pos 0) ≡ false
    → let r =
        ResultData.cat_gacha e.public_id request_id n
          (bonus_draws n)
          cost
          winner.balance
          winner.mileage
          results in
      finish winner results e request_id n cost (record (opened c db) { new_assets = new })
      ≡ (ok r, begin (finished winner e n cost r new db))
unfolding finish
finish_lem winner results e request_id n cost new c db good = rw good

abbrev opened_with : List Asset → Db → Session
opened_with new db = record (begin db) { new_assets = new }

finished-has_cat :
    (winner : User) (e : GachaExecution) (n cost : ℤ) (r : ResultData) (new : List Asset) (db : Db)
    (user_id c : ℕ) (has : ℕ → Bool)
    → Finds user_id (opened_with new db) has
    → has_cat user_id (finished winner e n cost r new db) c ≡ has c
unfolding find_cat_asset
finished-has_cat winner e n cost r new db user_id c has finds =
    flushed-has_cat user_id c
      (record (begin (record db {
        users = put (advance_state_version winner) db.users;
        executions = put (settled (record e { draw_count = some n }) cost r) db.executions;
      })) { new_assets = new })
      has finds

finished-Drawn :
    (policy : GachaPolicy) (user locked winner : User) (selected : List (Cat × ℤ))
    (results : List CatDraw) (new : List Asset) (e : GachaExecution) (request_id : ℕ) (n cost : ℤ)
    (db : Db) (s' : Session) (r res : ResultData)
    → Selected db (policy.draw n) selected
    → results ≡ awards (has_cat locked.id db) selected
    → Finds locked.id (opened_with new db) (with_drawn (has_cat locked.id db) selected)
    → policy.calculate_balance_cost (paid_draws n) ≡ cost
    → get user.id db.users ≡ some locked
    → ltb_ℤ cost (pos 0) ≡ false
    → ltb_ℤ locked.balance cost ≡ false
    → pos (length results) ≡ n
    → winner ≡ rewarded locked cost results
    → res
      ≡ ResultData.cat_gacha e.public_id request_id n
          (bonus_draws n)
          cost
          winner.balance
          winner.mileage
          results
    → res ≡ r
    → begin (finished winner e n cost res new db) ≡ s'
    → Drawn policy user e request_id n db r s'.committed
finished-Drawn policy user locked winner selected results new e request_id n cost db s' r res picked
      awarded finds price row charged affordable count won stored same last =
    let rest = flush_assets_rest new (record db {
      users = put (advance_state_version winner) db.users;
      executions = put (settled (record e { draw_count = some n }) cost res) db.executions;
    }) in
    record {
      locked = locked;
      selected = selected;
      results = results;
      picked = picked;
      awarded = awarded;
      owned = λ c.
          sym (ap (λ x. has_cat locked.id x.committed c) last)
          ∙ finished-has_cat winner e n cost res new db locked.id c _ finds;
      row = row;
      charged = rw price charged;
      affordable = rw price affordable;
      count = count;
      users = rw (price, sym won) (sym (λ i. (last i).committed.users) ∙ rest.0);
      executions = rw (price, sym same) (sym (λ i. (last i).committed.executions) ∙ rest.1);
      result = rw (price, sym same, stored, won);
    }

ok_value : {A : Type 0} {a b : A} → ok a ≡ ok b → a ≡ b
ok_value h = ground arith

counted_lem : (k : ℕ) (n : ℤ) → not (eqb_ℤ (pos k) n) ≡ false → pos k ≡ n
counted_lem k n h = ground arith

-- The rounds and what follows them.
award-Drawn :
    (policy : GachaPolicy) (user locked : User) (selected : List (Cat × ℤ)) (e : GachaExecution)
    (request_id : ℕ) (n cost : ℤ) (c db : Db) (s' : Session) (r : ResultData)
    → Selected db (policy.draw n) selected
    → policy.calculate_balance_cost (paid_draws n) ≡ cost
    → get user.id db.users ≡ some locked
    → ltb_ℤ cost (pos 0) ≡ false
    → ltb_ℤ locked.balance cost ≡ false
    → pos (length (policy.draw n)) ≡ n
    → (award_all (record locked { balance = locked.balance -ℤ cost }) selected >>= λ x.
          finish x.0 x.1 e request_id n cost)
        (opened c db)
      ≡ (ok r, s')
    → Drawn policy user e request_id n db r s'.committed
unfolding find_cat_asset
award-Drawn policy user locked selected e request_id n cost c db s' r picked price row charged
      affordable counted ran =
    let payer = record locked { balance = locked.balance -ℤ cost } in
    let has = has_cat locked.id db in
    let a =
      award_all-Awarded payer selected (opened c db) has
        (Finds-opened locked.id (opened c db) refl) in
    let last =
      sym (finish_lem a.winner a.results e request_id n cost a.new c db charged)
      ∙ sym (
          bind-ok (award_all payer selected) (λ x. finish x.0 x.1 e request_id n cost) (opened c db)
            _ _ a.returns)
      ∙ ran in
    finished-Drawn policy user locked a.winner selected a.results a.new e request_id n cost db s' r
      _ picked a.awarded (λ k. a.finds k) price row charged affordable
      (rw (a.awarded, length-awards db (policy.draw n) has selected picked) counted)
      (a.same ∙ λ i. record payer { mileage = a.mileage i }) refl (ok_value (λ i. (last i).0))
      (λ i. (last i).1)

pub draw_fresh-Drawn :
    (policy : GachaPolicy) (user : User) (e : GachaExecution) (request_id : ℕ) (n : ℤ) (c db : Db)
    (s' : Session) (r : ResultData)
    → draw_fresh policy user e request_id n (opened c db) ≡ (ok r, s')
    → Drawn policy user e request_id n db r s'.committed
unfolding draw_fresh
draw_fresh-Drawn policy user e request_id n c db s' r h =
    let cost = policy.calculate_balance_cost (paid_draws n) in
    let s = opened c db in
    let (charged, h1) = raise_if_bind-ok (ltb_ℤ cost (pos 0)) runtime_error _ s s' r h in
    let (locked, row, h2) =
      or_raise_bind-ok (get user.id db.users) (resource_not_found Missing.user) _ s s' r h1 in
    let (affordable, h3) =
      raise_if_bind-ok (ltb_ℤ locked.balance cost) insufficient_balance _ s s' r h2 in
    let (sound, h4) =
      raise_if_bind-ok (any is_negative (policy.draw n)) runtime_error _ s s' r h3 in
    let (counted, h5) =
      raise_if_bind-ok (not (eqb_ℤ (pos (length (policy.draw n))) n)) runtime_error _ s s' r h4 in
    let (selected, t, selects, h6) = bind-inv (select_cats (policy.draw n)) _ s s' r h5 in
    let (same, picked) = select_cats-Selected (policy.draw n) s t selected selects in
    award-Drawn policy user locked selected e request_id n cost c db s' r picked refl row charged
      affordable (counted_lem (length (policy.draw n)) n counted) (rw same at h6)
