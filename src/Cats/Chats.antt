-- ===== src/Cats/Chats.antt =====
-- The calls of app/modules/cats/service.py on the chats and memories. The provider is a parameter.
use cat_game_backend.Base.{
  ℕ, String, Bool, false, not, Option, none, some, List, [], ◌∷◌, map, length, ◌==◌, leb, str_eq,
  if◌then◌else◌,
}
use cat_game_backend.Core.Error.{
  Result, ok, Missing, resource_not_found, invalid_ai_response, invalid_memory_summary,
}
use cat_game_backend.Core.Outcome.{◌>>=◌, ◌>>◌, raise_if, or_raise}
use cat_game_backend.Store.Rows.{User, user_row, advance_state_version}
use cat_game_backend.Store.Table.{find, get, put, delete_row, where_rows}
use cat_game_backend.Cats.{
  TextTools, CatChatCategory, classify_cat_chat, safe_cat_chat_output, cat_chat_memory_summary,
}
use cat_game_backend.Cats.Memories.{
  CatMemory, CatAsset, ChatCat, chat_cat_row, memory_row, CatsDb, own_cat_asset,
  list_by_cat_asset_id, store_bounded_cat_memory,
}

-- `CatChatRead`
pub record CatChatRead : Type 0 where
  pub cat_asset_public_id : ℕ
  pub reply : String
  pub category : CatChatCategory
  pub memory_count : ℕ
  pub remembered : Bool

-- The persona, the message, the memories' summaries and the recent messages, each with its role;
-- none is a provider without an answer.
abbrev pub Provider : Type 0
Provider = String → String → List String → List (String × String) → Option String

abbrev pub cat_of : CatAsset → CatsDb → Option ChatCat
cat_of asset db = elim asset.cat_id [ none ↦ none | some i ↦ get i db.cats ]

abbrev pub known_user : ℕ → CatsDb → Result User
known_user user_public_id db =
    or_raise (find (λ u. u.public_id == user_public_id) db.users) (resource_not_found Missing.user)

-- The player's row after a change of the memories.
abbrev pub advanced : User → CatsDb → CatsDb
advanced u db = record db { users = put (advance_state_version u) db.users }

abbrev pub lock_player : User → CatsDb → Result User
lock_player user db = or_raise (get user.id db.users) (resource_not_found Missing.user)

-- `memories[-n:]` and `recent_messages[-n:]`
unfoldable pub last : {A : Type 0} → ℕ → List A → List A
last n [] = []
last n (a ∷ rows) = if leb (length (a ∷ rows)) n then a ∷ rows else last n rows

module _ (t : TextTools) where
  -- The second unit of work of a chat: `now` is the time of the new memory, and the tables are
  -- those that others have left meanwhile.
  unfoldable pub remember_chat :
      ℕ → ℕ → ℕ → ℕ → CatChatCategory → CatsDb → Result ((Bool × ℕ) × CatsDb)
  unfolding find get put own_cat_asset store_bounded_cat_memory
  remember_chat now user_public_id cat_asset_public_id memory_limit category db = do
    user ← known_user user_public_id db
    locked_user ← lock_player user db
    asset ← own_cat_asset user cat_asset_public_id db
    stored ←
        store_bounded_cat_memory t now asset.id (cat_chat_memory_summary category) memory_limit db
    let outcome : Bool × ℕ = (stored.0.1, stored.0.3)
    ok (outcome, if stored.0.2 then advanced locked_user stored.1 else db)

  unfoldable pub chat_with_cat :
      Provider
      → ℕ
      → ℕ
      → ℕ
      → String
      → List (String × String)
      → ℕ
      → (CatsDb → CatsDb)
      → CatsDb
      → Result (CatChatRead × CatsDb)
  unfolding find classify_cat_chat own_cat_asset list_by_cat_asset_id safe_cat_chat_output
      remember_chat last
  chat_with_cat provider now user_public_id cat_asset_public_id message recent_messages memory_limit
        meanwhile db =
      do
        decision ← classify_cat_chat t message
        user ← known_user user_public_id db
        asset ← own_cat_asset user cat_asset_public_id db
        cat ← or_raise (cat_of asset db) (resource_not_found Missing.cat)
        let memories = list_by_cat_asset_id asset.id db
        let summaries = map (λ m. m.context_summary) (last 6 memories)
        elim decision.direct_reply [
          | some reply ↦ ok (
            record {
              cat_asset_public_id = cat_asset_public_id;
              reply = reply;
              category = decision.category;
              memory_count = length memories;
              remembered = false;
            },
            db,
          )
          | none ↦
              or_raise
                (safe_cat_chat_output t
                  (provider cat.persona decision.message summaries (last 10 recent_messages)))
                invalid_ai_response
              >>= λ reply.
                  (if not decision.remember
                    then ok ((false, length memories), meanwhile db)
                    else remember_chat now user_public_id cat_asset_public_id memory_limit
                        decision.category (meanwhile db))
                  >>= λ r. ok (
                    record {
                      cat_asset_public_id = cat_asset_public_id;
                      reply = reply;
                      category = decision.category;
                      memory_count = r.0.1;
                      remembered = r.0.0;
                    },
                    r.1,
                  )
        ]

  unfoldable pub add_cat_memory : ℕ → ℕ → ℕ → String → ℕ → CatsDb → Result (CatMemory × CatsDb)
  unfolding find get put own_cat_asset store_bounded_cat_memory
  add_cat_memory now user_public_id cat_asset_public_id context_summary memory_limit db = do
    raise_if (str_eq (t.strip context_summary) "") invalid_memory_summary
    user ← known_user user_public_id db
    locked_user ← lock_player user db
    asset ← own_cat_asset user cat_asset_public_id db
    stored ← store_bounded_cat_memory t now asset.id (t.strip context_summary) memory_limit db
    ok (stored.0.0, if stored.0.2 then advanced locked_user stored.1 else db)

unfoldable pub delete_cat_memory : ℕ → ℕ → ℕ → CatsDb → Result (Unit {0} × CatsDb)
unfolding find get put own_cat_asset delete_row
delete_cat_memory user_public_id cat_asset_public_id memory_public_id db = do
  user ← known_user user_public_id db
  locked_user ← lock_player user db
  asset ← own_cat_asset user cat_asset_public_id db
  memory ←
      or_raise (find (λ m. m.public_id == memory_public_id) db.memories)
        (resource_not_found Missing.cat_memory)
  raise_if (not (memory.cat_asset_id == asset.id)) (resource_not_found Missing.cat_memory)
  ok (tt, advanced locked_user (record db { memories = delete_row memory.id db.memories }))

unfoldable pub delete_all_cat_memories : ℕ → ℕ → CatsDb → Result (Unit {0} × CatsDb)
unfolding find get put own_cat_asset where_rows
delete_all_cat_memories user_public_id cat_asset_public_id db = do
  user ← known_user user_public_id db
  locked_user ← lock_player user db
  asset ← own_cat_asset user cat_asset_public_id db
  ok (
    tt,
    advanced locked_user
        (record db { memories = where_rows (λ m. not (m.cat_asset_id == asset.id)) db.memories }),
  )
