-- ===== src/Examples/Home.antt =====
-- Ada chooses between her two cats, changes her settings and resets her learning.
use cat_game_backend.Base.{ℕ, ◌+◌, ◌≡◌, refl, String, true, false, some, none, List, [], ◌∷◌}
use cat_game_backend.Store.Rows.{Cat, advance_state_version}
use cat_game_backend.Home.{HomeDb, HomeCommand, selecting, showing, tend_all}
use cat_game_backend.Core.Error.{ok}
use cat_game_backend.Home.Settings.{merged}
use cat_game_backend.Learning.Reset.{ResetDb, reset_learning_progress}
use cat_game_backend.Home.Active.{IsTended, tend_all-IsTended}
use cat_game_backend.Examples.{ada, bob}

abbrev home_cat : ℕ → String → Cat
home_cat id key = record {
  id = id;
  public_id = 100 + id;
  catalog_key = key;
  name = key;
  rarity = "common";
}

abbrev homes : HomeDb
homes = record {
  users = ada ∷ bob ∷ [];
  cats = home_cat 21 "white" ∷ home_cat 22 "black" ∷ [];
  assets =
      record { id = 31; user_id = 1; cat_id = some 21; is_home = true }
      ∷ record { id = 32; user_id = 1; cat_id = some 22; is_home = false }
      ∷ [];
}

-- Bob does not own the black cat.
abbrev evening : List HomeCommand
evening =
    selecting 1 "black"
    ∷ selecting 2 "black"
    ∷ showing 1 "black" false
    ∷ showing 1 "white" false
    ∷ []

-- The white cat takes the place of the hidden black one, and stays the active one when it is hidden
-- too.
abbrev after_evening : HomeDb
after_evening = record homes {
  users = record ada { state_version = 4; active_cat_id = some 21 } ∷ bob ∷ [];
  assets =
      record { id = 31; user_id = 1; cat_id = some 21; is_home = false }
      ∷ record { id = 32; user_id = 1; cat_id = some 22; is_home = false }
      ∷ [];
}

evening_runs : tend_all evening homes ≡ after_evening
unfolding tend_all advance_state_version
evening_runs = refl

tend_all-IsTended_example : IsTended (tend_all evening homes)
tend_all-IsTended_example = tend_all-IsTended evening homes (tt, (tt, tt))

-- A known setting keeps its place, and a new one comes last.
settings_merge :
    merged (("music", true) ∷ ("sound", true) ∷ []) (("music", false) ∷ ("night", true) ∷ [])
    ≡ ("music", false) ∷ ("sound", true) ∷ ("night", true) ∷ []
unfolding merged
settings_merge = refl

abbrev learned : ResetDb
learned = record {
  users = ada ∷ bob ∷ [];
  proficiencies =
      record { id = 1; user_id = 1; concept_id = 5; proficiency_level = 40 }
      ∷ record { id = 2; user_id = 2; concept_id = 5; proficiency_level = 60 }
      ∷ [];
  tiers = [];
  attendances =
      record {
        id = 7;
        public_id = 107;
        user_id = 1;
        check_in_date = 8;
        streak_count = 1;
        daily_reward_claimed_at = none;
      }
      ∷ [];
  attendance_tasks =
      record {
        id = 9;
        public_id = 109;
        attendance_id = 7;
        task_id = 3;
        task_order = 1;
        is_completed = true;
      }
      ∷ [];
}

-- Bob's level stays.
ada_resets :
    reset_learning_progress 500 1 learned
    ≡ ok (
      record { reset_at = 500; removed_proficiencies = 1 },
      record learned {
        users = record ada { state_version = 2; learning_reset_at = some 500 } ∷ bob ∷ [];
        proficiencies = record { id = 2; user_id = 2; concept_id = 5; proficiency_level = 60 } ∷ [];
        attendance_tasks =
            record {
              id = 9;
              public_id = 109;
              attendance_id = 7;
              task_id = 3;
              task_order = 1;
              is_completed = false;
            }
            ∷ [];
      },
    )
unfolding reset_learning_progress advance_state_version
ada_resets = refl
