-- ===== src/Home/Settings.antt =====
-- The settings of a player: `update_game_settings` in app/modules/game/commands.py. A JSON value is
-- of a type that is a parameter.
use cat_game_backend.Base.{ℕ, String, List, [], ◌∷◌, ◌==◌, str_eq, if◌then◌else◌}
use cat_game_backend.Core.Error.{Result, ok, Missing, resource_not_found}
use cat_game_backend.Core.Outcome.{◌>>=◌, or_raise}
use cat_game_backend.Store.Rows.{User, user_row, advance_state_version}
use cat_game_backend.Store.Table.{find, get, put}

module _ {Json : Type 0} where
  -- `settings[key] = value`: a new key comes last.
  unfoldable pub assign_key : String → Json → List (String × Json) → List (String × Json)
  assign_key key value [] = (key, value) ∷ []
  assign_key key value (entry ∷ settings) =
      let rest = assign_key key value settings in
      if str_eq entry.0 key then (key, value) ∷ settings else entry ∷ rest

  -- `{**settings, **patch}`
  unfoldable pub merged : List (String × Json) → List (String × Json) → List (String × Json)
  unfolding assign_key
  merged settings [] = settings
  merged settings (entry ∷ patch) = merged (assign_key entry.0 entry.1 settings) patch

-- The players, and the JSON document of the one with a key.
pub record SettingsDb (Json : Type 0) : Type 0 where
  pub users : List User
  pub game_settings : ℕ → List (String × Json)

unfoldable pub update_game_settings :
    {Json : Type 0}
    → ℕ
    → List (String × Json)
    → SettingsDb Json
    → Result (Unit {0} × SettingsDb Json)
unfolding find get put merged
update_game_settings user_id patch db = do
  locked_user ← or_raise (get user_id db.users) (resource_not_found Missing.user)
  let settings = merged (db.game_settings user_id) patch
  ok (
    tt,
    record {
      users = put (advance_state_version locked_user) db.users;
      game_settings = λ i. if i == user_id then settings else db.game_settings i;
    },
  )
