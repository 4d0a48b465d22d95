-- ===== src/Cats/Memories.antt =====
-- The memories of a cat and the tables of the chats: app/modules/cats/service.py.
use cat_game_backend.Base.{
  ℕ, ◌+◌, ◌-◌, String, Bool, true, false, not, ◌&&◌, ◌||◌, Option, none, some, List, [], ◌∷◌, ◌++◌,
  any, length, ◌==◌, is_none, ltb, str_eq, if◌then◌else◌,
}
use mathlib.Core.List.{reverse}
use cat_game_backend.Core.Error.{Result, ok, Missing, resource_not_found, value_error}
use cat_game_backend.Core.Outcome.{◌>>=◌, ◌>>◌, raise_if, or_raise}
use cat_game_backend.Store.Rows.{Row, User, user_row}
use cat_game_backend.Store.Table.{find, insert_row, delete_row, where_rows}
use cat_game_backend.Cats.{TextTools}

pub record CatMemory : Type 0 where
  pub id : ℕ
  pub public_id : ℕ
  pub cat_asset_id : ℕ
  pub context_summary : String
  pub created_at : ℕ

-- The columns of `Asset` and `Cat` that the chats read.
pub record CatAsset : Type 0 where
  pub id : ℕ
  pub public_id : ℕ
  pub user_id : ℕ
  pub cat_id : Option ℕ

pub record ChatCat : Type 0 where
  pub id : ℕ
  pub public_id : ℕ
  pub name : String
  pub rarity : String
  pub persona : String

instance abbrev pub memory_row : Row CatMemory
memory_row = record { id_of = λ r. r.id }

instance abbrev pub chat_cat_row : Row ChatCat
chat_cat_row = record { id_of = λ r. r.id }

pub record CatsDb : Type 0 where
  pub users : List User
  pub assets : List CatAsset
  pub cats : List ChatCat
  pub memories : List CatMemory
  pub next_id : ℕ
  pub generated : ℕ → ℕ

-- `order_by(created_at, id)`
abbrev pub is_before : CatMemory → CatMemory → Bool
is_before a b = ltb a.created_at b.created_at || (a.created_at == b.created_at && ltb a.id b.id)

unfoldable pub place_memory : CatMemory → List CatMemory → List CatMemory
place_memory a [] = a ∷ []
place_memory a (b ∷ rest) =
    let placed = place_memory a rest in if is_before b a then b ∷ placed else a ∷ b ∷ rest

unfoldable pub by_creation : List CatMemory → List CatMemory
unfolding place_memory
by_creation [] = []
by_creation (a ∷ memories) = place_memory a (by_creation memories)

unfoldable pub list_by_cat_asset_id : ℕ → CatsDb → List CatMemory
unfolding by_creation where_rows
list_by_cat_asset_id cat_asset_id db =
    by_creation (where_rows (λ m. m.cat_asset_id == cat_asset_id) db.memories)

-- The cat that the player owns.
unfoldable pub own_cat_asset : User → ℕ → CatsDb → Result CatAsset
unfolding find
own_cat_asset user cat_asset_public_id db = do
  asset ←
      or_raise (find (λ a. a.public_id == cat_asset_public_id) db.assets)
        (resource_not_found Missing.cat_asset)
  raise_if (not (asset.user_id == user.id) || is_none asset.cat_id)
        (resource_not_found Missing.cat_asset)
      >> ok asset

unfoldable pub remove_all : List CatMemory → CatsDb → CatsDb
unfolding delete_row
remove_all [] db = db
remove_all (m ∷ removed) db =
    remove_all removed (record db { memories = delete_row m.id db.memories })

-- The memories before the last `limit` ones, and those.
unfoldable pub drop_oldest : ℕ → List CatMemory → List CatMemory × List CatMemory
drop_oldest limit [] = ([], [])
drop_oldest limit (m ∷ retained) =
    let rest = drop_oldest limit retained in
    if ltb limit (length (m ∷ retained)) then (m ∷ rest.0, rest.1) else ([], m ∷ retained)

module _ (t : TextTools) where
  abbrev pub has_summary : String → CatMemory → Bool
  has_summary summary m = str_eq (t.strip m.context_summary) summary

  -- A memory is retained if none after it has its summary; in the order of creation, the removed
  -- and the retained ones.
  unfoldable pub distinct_summaries : List CatMemory → List CatMemory × List CatMemory
  distinct_summaries [] = ([], [])
  distinct_summaries (m ∷ memories) =
      let rest = distinct_summaries memories in
      if any (has_summary (t.strip m.context_summary)) memories
      then (m ∷ rest.0, rest.1)
      else (rest.0, m ∷ rest.1)

  -- The oldest one gives way to a new one.
  abbrev pub make_room : ℕ → List CatMemory → List CatMemory
  make_room memory_limit [] = []
  make_room memory_limit (m ∷ retained) =
      if length (m ∷ retained) == memory_limit then m ∷ [] else []

  -- The memory, whether it is new, whether the tables have changed, the number of memories, and
  -- the tables.
  unfoldable pub store_bounded_cat_memory :
      ℕ → ℕ → String → ℕ → CatsDb → Result ((CatMemory × Bool × Bool × ℕ) × CatsDb)
  unfolding find list_by_cat_asset_id distinct_summaries drop_oldest remove_all
  store_bounded_cat_memory now cat_asset_id context_summary memory_limit db = do
    raise_if (memory_limit == 0) value_error
    let split = distinct_summaries (list_by_cat_asset_id cat_asset_id db)
    let kept = drop_oldest memory_limit (split.1)
    let removed = split.0 ++ kept.0
    let retained = kept.1
    let cleared = remove_all removed db
    let roomy = remove_all (make_room memory_limit retained) cleared
    let summary = t.strip context_summary
    let memory : CatMemory = record {
      id = roomy.next_id;
      public_id = roomy.generated roomy.next_id;
      cat_asset_id = cat_asset_id;
      context_summary = summary;
      created_at = now;
    }
    elim (find (has_summary summary) (reverse retained)) [
      | some duplicate ↦
          ok ((duplicate, false, not (length removed == 0), length retained), cleared)
      | none ↦ ok (
        (memory, true, true, length retained - length (make_room memory_limit retained) + 1),
        record roomy { memories = insert_row memory roomy.memories; next_id = roomy.next_id + 1 },
      )
    ]
