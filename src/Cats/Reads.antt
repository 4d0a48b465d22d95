-- ===== src/Cats/Reads.antt =====
-- What a player reads of the cats, and the memories of all cats deleted at once:
-- app/modules/cats/service.py and app/modules/game/commands.py.
use cat_game_backend.Base.{
  ℕ, String, Bool, not, ◌&&◌, Option, none, some, List, [], ◌∷◌, map, any, length, ◌==◌, opt_eq,
  is_none, if◌then◌else◌,
}
use cat_game_backend.Core.Error.{Result, ok, Missing, resource_not_found}
use cat_game_backend.Core.Outcome.{◌>>=◌, or_raise}
use cat_game_backend.Store.Rows.{User, user_row}
use cat_game_backend.Store.Table.{find, get, where_rows}
use cat_game_backend.Cats.Memories.{
  CatMemory, CatAsset, ChatCat, chat_cat_row, CatsDb, own_cat_asset, list_by_cat_asset_id,
}
use cat_game_backend.Cats.Chats.{cat_of, known_user, advanced}

pub record CatMemoryRead : Type 0 where
  pub public_id : ℕ
  pub cat_asset_public_id : ℕ
  pub context_summary : String
  pub created_at : ℕ

abbrev pub to_cat_memory_read : ℕ → CatMemory → CatMemoryRead
to_cat_memory_read cat_asset_public_id memory = record {
  public_id = memory.public_id;
  cat_asset_public_id = cat_asset_public_id;
  context_summary = memory.context_summary;
  created_at = memory.created_at;
}

pub record CatConversationContextRead : Type 0 where
  pub cat_asset_public_id : ℕ
  pub cat_public_id : ℕ
  pub name : String
  pub persona : String
  pub memories : List CatMemoryRead

unfoldable pub get_cat_conversation_context : ℕ → ℕ → CatsDb → Result CatConversationContextRead
unfolding find get own_cat_asset list_by_cat_asset_id
get_cat_conversation_context user_public_id cat_asset_public_id db = do
  user ← known_user user_public_id db
  asset ← own_cat_asset user cat_asset_public_id db
  cat ← or_raise (cat_of asset db) (resource_not_found Missing.cat)
  let memories = list_by_cat_asset_id asset.id db
  ok (record {
    cat_asset_public_id = asset.public_id;
    cat_public_id = cat.public_id;
    name = cat.name;
    persona = cat.persona;
    memories = map (to_cat_memory_read asset.public_id) memories;
  })

pub record CatCollectionItemRead : Type 0 where
  pub cat_public_id : ℕ
  pub cat_asset_public_id : Option ℕ
  pub name : String
  pub persona : String
  pub rarity : String
  pub is_owned : Bool

pub record CatCollectionRead : Type 0 where
  pub total_count : ℕ
  pub owned_count : ℕ
  pub cats : List CatCollectionItemRead

-- The last asset of the cat: a later entry of the dictionary replaces an earlier one.
unfoldable pub owned_asset : ℕ → ℕ → List CatAsset → Option CatAsset
owned_asset user_id cat_id [] = none
owned_asset user_id cat_id (a ∷ assets) =
    let later = owned_asset user_id cat_id assets in
    elim later [
      | some asset ↦ some asset
      | none ↦ if (a.user_id == user_id) && opt_eq a.cat_id (some cat_id) then some a else none
    ]

unfoldable pub collection_item : User → CatsDb → ChatCat → CatCollectionItemRead
unfolding owned_asset
collection_item user db cat =
    let asset = owned_asset user.id cat.id db.assets in
    record {
      cat_public_id = cat.public_id;
      cat_asset_public_id = elim asset [ none ↦ none | some a ↦ some a.public_id ];
      name = cat.name;
      persona = cat.persona;
      rarity = cat.rarity;
      is_owned = not (is_none asset);
    }

unfoldable pub get_cat_collection : ℕ → CatsDb → Result CatCollectionRead
unfolding find where_rows collection_item
get_cat_collection user_public_id db = do
  user ← known_user user_public_id db
  let collection = map (collection_item user db) db.cats
  ok (record {
    total_count = length collection;
    owned_count = length (where_rows (λ c. c.is_owned) collection);
    cats = collection;
  })

-- A memory of a cat of the player.
abbrev pub is_cleared : ℕ → CatsDb → CatMemory → Bool
is_cleared user_id db memory =
    any (λ a. (a.user_id == user_id) && (not (is_none a.cat_id) && (a.id == memory.cat_asset_id)))
      db.assets

unfoldable pub clear_cat_memories : ℕ → CatsDb → Result (ℕ × CatsDb)
unfolding find get where_rows
clear_cat_memories user_id db = do
  locked_user ← or_raise (get user_id db.users) (resource_not_found Missing.user)
  let removed = where_rows (is_cleared user_id db) db.memories
  let kept = where_rows (λ m. not (is_cleared user_id db m)) db.memories
  ok (length removed, advanced locked_user (record db { memories = kept }))
