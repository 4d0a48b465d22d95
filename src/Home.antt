-- ===== src/Home.antt =====
-- The active cat and the cats at home: app/modules/game/commands.py. A command either raises, and
-- its transaction is rolled back, or returns the tables that it commits.
pub mod Active
pub mod Settings
use cat_game_backend.Base.{
  ℕ, String, Bool, true, false, not, ◌&&◌, Option, none, some, List, [], ◌∷◌, ◌==◌, opt_eq, is_none,
  str_eq, if◌then◌else◌,
}
use cat_game_backend.Core.Error.{Result, ok, Missing, resource_not_found}
use cat_game_backend.Core.Outcome.{◌>>=◌, or_raise, or_unchanged}
use cat_game_backend.Store.Rows.{User, user_row, Cat, advance_state_version}
use cat_game_backend.Store.Table.{find, get, put}

-- The columns of `Asset` that the commands read and write.
pub record HomeAsset : Type 0 where
  pub id : ℕ
  pub user_id : ℕ
  pub cat_id : Option ℕ
  pub is_home : Bool

pub record HomeDb : Type 0 where
  pub users : List User
  pub cats : List Cat
  pub assets : List HomeAsset

-- `Asset.user_id == user.id, Asset.cat_id == cat.id`
abbrev pub is_own : ℕ → ℕ → HomeAsset → Bool
is_own user_id cat_id a = (a.user_id == user_id) && opt_eq a.cat_id (some cat_id)

-- Another cat of the player that is at home.
abbrev pub is_replacement : ℕ → ℕ → HomeAsset → Bool
is_replacement user_id asset_id a =
    (a.user_id == user_id) && (not (is_none a.cat_id) && (a.is_home && not (a.id == asset_id)))

-- `asset.is_home = visible`
unfoldable pub set_home : ℕ → Bool → List HomeAsset → List HomeAsset
set_home asset_id visible [] = []
set_home asset_id visible (a ∷ assets) =
    (if a.id == asset_id then record a { is_home = visible } else a)
    ∷ set_home asset_id visible assets

unfoldable pub select_active_cat : ℕ → String → HomeDb → Result (Unit {0} × HomeDb)
unfolding find get put set_home
select_active_cat user_id catalog_key db = do
  cat ←
      or_raise (find (λ c. str_eq c.catalog_key catalog_key) db.cats)
        (resource_not_found Missing.cat)
  locked_user ← or_raise (get user_id db.users) (resource_not_found Missing.user)
  asset ← or_raise (find (is_own user_id cat.id) db.assets) (resource_not_found Missing.cat_asset)
  let chosen = record locked_user { active_cat_id = some cat.id }
  ok (
    tt,
    record db {
      users = put (advance_state_version chosen) db.users;
      assets = set_home asset.id true db.assets;
    },
  )

-- The active cat of a player whose cat is hidden: the first other cat at home, if there is one.
unfoldable pub with_replacement : ℕ → ℕ → List HomeAsset → User → User
unfolding find
with_replacement user_id asset_id assets u = elim (find (is_replacement user_id asset_id) assets) [
  | none ↦ u
  | some replacement ↦ record u { active_cat_id = replacement.cat_id }
]

unfoldable pub set_cat_home : ℕ → String → Bool → HomeDb → Result (Unit {0} × HomeDb)
unfolding find get put set_home with_replacement
set_cat_home user_id catalog_key visible db = do
  cat ←
      or_raise (find (λ c. str_eq c.catalog_key catalog_key) db.cats)
        (resource_not_found Missing.cat)
  locked_user ← or_raise (get user_id db.users) (resource_not_found Missing.user)
  asset ← or_raise (find (is_own user_id cat.id) db.assets) (resource_not_found Missing.cat_asset)
  let assets = set_home asset.id visible db.assets
  let hides_active = not visible && opt_eq locked_user.active_cat_id (some cat.id)
  let changed =
      if hides_active then with_replacement user_id asset.id assets locked_user else locked_user
  ok (tt, record db { users = put (advance_state_version changed) db.users; assets = assets })

pub data HomeCommand : Type 0 where
  selecting : (user : ℕ) → (key : String) → HomeCommand
  showing : (user : ℕ) → (key : String) → (visible : Bool) → HomeCommand

-- A command that raises leaves the tables as they were.
unfoldable pub tend : HomeCommand → HomeDb → HomeDb
unfolding select_active_cat set_cat_home
tend (selecting user key) db = or_unchanged (select_active_cat user key db) db
tend (showing user key visible) db = or_unchanged (set_cat_home user key visible db) db

unfoldable pub tend_all : List HomeCommand → HomeDb → HomeDb
unfolding tend
tend_all [] db = db
tend_all (c ∷ commands) db = tend_all commands (tend c db)
