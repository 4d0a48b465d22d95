-- ===== src/Cats/Privacy.antt =====
-- What a chat leaves behind, and which messages reach the provider.
use cat_game_backend.Base.{
  ℕ, ◌≡◌, refl, ap, String, Bool, true, false, List, [], ◌∷◌, ◌++◌, map, ◌==◌, is_none, str_eq, All,
  All-append, Bool-cases, Option-cases, inl, inr, ◌↔◌, arith,
}
use cat_game_backend.Core.Error.{
  ok, err, Missing, resource_not_found, invalid_ai_response, value_error, key_error,
}
use cat_game_backend.Core.Outcome.{bind-ok, raise_if-ok, or_raise-ok, ok-injective}
use mathlib.Core.Path.{subst}
use mathlib.Core.List.{reverse}
use cat_game_backend.Store.Rows.{user_row}
use cat_game_backend.Store.Table.{find, delete_row, All-delete_row}
use cat_game_backend.Cats.{
  TextTools, CatChatCategory, prompt_injection, safety, professional, coding, companion, general,
  unknown, classify_cat_chat, category_of, direct_reply, normalize_cat_chat_message,
  safe_cat_chat_output, cat_chat_memory_summary, coding_summary, companion_summary,
}
use cat_game_backend.Cats.Memories.{
  CatMemory, memory_row, CatsDb, own_cat_asset, list_by_cat_asset_id, remove_all,
  distinct_summaries, drop_oldest, make_room, has_summary, store_bounded_cat_memory,
}
use cat_game_backend.Cats.Chats.{
  CatChatRead, Provider, known_user, lock_player, cat_of, remember_chat, chat_with_cat, last,
}

-- Every memory's text has the property.
abbrev pub AllTexts : (String → Type 0) → CatsDb → Type 0
AllTexts P db = All (λ m. P m.context_summary) db.memories

remove_all-AllTexts :
    (P : String → Type 0) (removed : List CatMemory) (db : CatsDb)
    → AllTexts P db
    → AllTexts P (remove_all removed db)
unfolding remove_all
remove_all-AllTexts P [] db h = h
remove_all-AllTexts P (m ∷ removed) db h =
    remove_all-AllTexts P removed (record db { memories = delete_row m.id db.memories })
      (All-delete_row (λ x. P x.context_summary) m.id db.memories h)

module _ (t : TextTools) where
  store_bounded_cat_memory-AllTexts :
      (P : String → Type 0) (now asset_id : ℕ) (summary : String) (limit : ℕ) (db db' : CatsDb)
      (r : CatMemory × Bool × Bool × ℕ)
      → P (t.strip summary)
      → AllTexts P db
      → store_bounded_cat_memory t now asset_id summary limit db ≡ ok (r, db')
      → AllTexts P db'
  unfolding store_bounded_cat_memory
  store_bounded_cat_memory-AllTexts P now asset_id summary limit db db' r p h ran =
      let (positive, h1) = raise_if-ok (limit == 0) value_error _ _ ran in
      let split = distinct_summaries t (list_by_cat_asset_id asset_id db) in
      let kept = drop_oldest limit (split.1) in
      let cleared = remove_all (split.0 ++ kept.0) db in
      let clean = remove_all-AllTexts P (split.0 ++ kept.0) db h in
      let room = remove_all-AllTexts P (make_room t limit (kept.1)) cleared clean in
      elim (Option-cases (find (has_summary t (t.strip summary)) (reverse (kept.1)))) [
        | inr (duplicate, e) ↦
            let pair = ok-injective _ (r, db') (rw e at h1) in
            subst (AllTexts P) (ap (λ x. x.1) pair) clean
        | inl e ↦
            let pair = ok-injective _ (r, db') (rw e at h1) in
            subst (AllTexts P) (ap (λ x. x.1) pair) (All-append _ _ _ room (p, tt))
      ]

  -- The summary that the server chooses for a category.
  summary_has :
      (P : String → Type 0) (category : CatChatCategory)
      → P (t.strip coding_summary)
      → P (t.strip companion_summary)
      → P (t.strip (cat_chat_memory_summary category))
  summary_has P coding a b = a
  summary_has P companion a b = b
  summary_has P general a b = b
  summary_has P unknown a b = b
  summary_has P prompt_injection a b = b
  summary_has P safety a b = b
  summary_has P professional a b = b

  remember_chat-AllTexts :
      (P : String → Type 0) (now p q limit : ℕ) (category : CatChatCategory) (db db' : CatsDb)
      (r : Bool × ℕ)
      → P (t.strip coding_summary)
      → P (t.strip companion_summary)
      → AllTexts P db
      → remember_chat t now p q limit category db ≡ ok (r, db')
      → AllTexts P db'
  unfolding remember_chat
  remember_chat-AllTexts P now p q limit category db db' r a b h ran =
      let (user, found, h1) = bind-ok (known_user p db) _ _ ran in
      let (locked_user, holder, h2) = bind-ok (lock_player user db) _ _ h1 in
      let (asset, own, h3) = bind-ok (own_cat_asset user q db) _ _ h2 in
      let (stored, ran', last) =
        bind-ok
          (store_bounded_cat_memory t now asset.id (cat_chat_memory_summary category) limit db) _ _
          h3 in
      let kept =
        store_bounded_cat_memory-AllTexts P now asset.id (cat_chat_memory_summary category) limit db
          stored.1 stored.0 (summary_has P category a b) h ran' in
      let pair = ok-injective _ (r, db') last in
      elim (Bool-cases (stored.0.2)) [
        | inl changed ↦ subst (AllTexts P) (ap (λ x. x.1) pair) (rw changed kept)
        | inr unchanged ↦ subst (AllTexts P) (ap (λ x. x.1) pair) (rw unchanged h)
      ]

  module _ (provider : Provider) (now p q : ℕ) (message : String)
      (recent_messages : List (String × String)) (limit : ℕ) (meanwhile : CatsDb → CatsDb)
      (db : CatsDb) where
    -- A chat that returns, whatever the message, the recent messages, the provider and its reply,
    -- leaves memories of which every text has any given property that the memories had before,
    -- and after what others committed meanwhile, and that the two summaries of the server have,
    -- without their outer spaces.
    pub chat_with_cat-AllTexts :
        (P : String → Type 0) (db' : CatsDb) (r : CatChatRead)
        → P (t.strip coding_summary)
        → P (t.strip companion_summary)
        → AllTexts P db
        → AllTexts P (meanwhile db)
        → chat_with_cat t provider now p q message recent_messages limit meanwhile db ≡ ok (r, db')
        → AllTexts P db'
    unfolding chat_with_cat
    chat_with_cat-AllTexts P db' r a b h k ran =
        let (decision, classified, h1) = bind-ok (classify_cat_chat t message) _ _ ran in
        let (user, known, h2) = bind-ok (known_user p db) _ _ h1 in
        let (asset, own, h3) = bind-ok (own_cat_asset user q db) _ _ h2 in
        let (cat, found, h4) =
          or_raise-ok (cat_of asset db) (resource_not_found Missing.cat) _ _ h3 in
        elim (Option-cases decision.direct_reply) [
          | inr (reply, e) ↦
              let pair = ok-injective _ (r, db') (rw e at h4) in
              subst (AllTexts P) (ap (λ x. x.1) pair) h
          | inl e ↦
              let memories = list_by_cat_asset_id asset.id db in
              let summaries = map (λ (m : CatMemory). m.context_summary) (last 6 memories) in
              let (reply, safe, h5) =
                or_raise-ok
                  (safe_cat_chat_output t
                    (provider cat.persona decision.message summaries (last 10 recent_messages)))
                  invalid_ai_response _ _ (rw e at h4) in
              elim (Bool-cases decision.remember) [
                | inr forget ↦
                    let pair = ok-injective _ (r, db') (rw forget at h5) in
                    subst (AllTexts P) (ap (λ x. x.1) pair) k
                | inl remember ↦
                    let (stored, ran', last_step) =
                      bind-ok (remember_chat t now p q limit decision.category (meanwhile db)) _ _
                        (rw remember at h5) in
                    let pair = ok-injective _ (r, db') last_step in
                    subst (AllTexts P) (ap (λ x. x.1) pair) (
                      remember_chat-AllTexts P now p q limit decision.category (meanwhile db)
                        stored.1 stored.0 a b k ran')
              ]
        ]

    -- A message of a category that has a direct reply brings the same result and the same tables
    -- whatever the provider is.
    pub chat_with_cat_guarded :
        (other : Provider)
        → (let c = category_of t (normalize_cat_chat_message t message) in
            is_none (direct_reply c) ≡ false)
        → chat_with_cat t provider now p q message recent_messages limit meanwhile db
          ≡ chat_with_cat t other now p q message recent_messages limit meanwhile db
    unfolding chat_with_cat classify_cat_chat
    chat_with_cat_guarded other guarded =
        elim (Bool-cases (str_eq (normalize_cat_chat_message t message) "")) [
          | inl blank ↦ rw (chat_with_cat, classify_cat_chat, blank) refl
          | inr text ↦
              elim (Option-cases
                (direct_reply (category_of t (normalize_cat_chat_message t message)))) [
                  | inl open_to_provider ↦ ground (arith, guarded, open_to_provider)
                  | inr (reply, e) ↦ rw (chat_with_cat, classify_cat_chat, text, e) refl
                ]
        ]

  -- The classification of a message raises a key error exactly if the normalized message is
  -- empty.
  pub classify_cat_chat_empty :
      (value : String)
      → (classify_cat_chat t value ≡ err key_error)
        ↔ (str_eq (normalize_cat_chat_message t value) "" ≡ true)
  unfolding classify_cat_chat
  classify_cat_chat_empty value =
      elim (Bool-cases (str_eq (normalize_cat_chat_message t value) "")) [
        | inl blank ↦ (λ h. blank, λ h. rw (classify_cat_chat, blank) refl)
        | inr text ↦ (λ h. ground arith, λ h. ground arith)
      ]
