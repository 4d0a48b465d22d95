-- ===== src/Gacha/Owning.antt =====
-- What the drawn cats are worth to a player who has some of them: the awards of app/modules/gacha/
-- service.py without its loop over a session.
use cat_game_backend.Base.{
  ℕ, ◌+◌, ◌≡◌, refl, Bool, true, not, ◌||◌, ◌&&◌, Option, none, some, List, [], ◌∷◌, any, length,
  ◌==◌, is_none, arith, if◌then◌else◌, ℤ, pos, Bool-cases, inl, inr,
}
use mathlib.Core.Path.{subst}
use cat_game_backend.Store.Rows.{Cat, Asset, CatDraw}
use cat_game_backend.Store.Table.{find, insert_row}
use cat_game_backend.Store.Session.{Db, Session, flush_assets}
use cat_game_backend.Store.Assets
use cat_game_backend.Store.Assets.{
  pending, persistent, absent, object_of, held, find_cat_asset, get_pending_asset, is_cat_asset,
}
use cat_game_backend.Gacha.{GachaReward}

-- A cat that the player has, or that stands earlier in the draw, brings its mileage; another one
-- is new and brings none.
abbrev pub awards : (ℕ → Bool) → List (Cat × ℤ) → List CatDraw
awards has [] = []
awards has ((cat, duplicate_mileage) ∷ selected) =
    record {
      cat_public_id = cat.public_id;
      name = cat.name;
      rarity = cat.rarity;
      is_duplicate = has cat.id;
      mileage_awarded = if has cat.id then duplicate_mileage else pos 0;
    }
    ∷ awards (λ c. (cat.id == c) || has c) selected

-- The cats that the player has after the draw.
abbrev pub with_drawn : (ℕ → Bool) → List (Cat × ℤ) → ℕ → Bool
with_drawn has selected c = any (λ x. x.0.id == c) selected || has c

-- Each reward's cat in the table, with the mileage of the reward.
abbrev pub Selected : Db → List GachaReward → List (Cat × ℤ) → Type 0
Selected db [] [] = Unit
Selected db [] (x ∷ selected) = ⊥
Selected db (reward ∷ rewards) [] = ⊥
Selected db (reward ∷ rewards) ((cat, duplicate_mileage) ∷ selected) =
    (find (λ c. c.public_id == reward.cat_public_id) db.cats ≡ some cat)
    × (duplicate_mileage ≡ reward.duplicate_mileage)
    × Selected db rewards selected

abbrev pub has_cat : ℕ → Db → ℕ → Bool
has_cat user_id db cat_id = any (is_cat_asset user_id cat_id) db.assets

-- The session finds just these cats of the player.
abbrev pub Finds : ℕ → Session → (ℕ → Bool) → Type 0
Finds user_id s has = (c : ℕ) → is_none (object_of (find_cat_asset user_id c s)) ≡ not (has c)

find-any : {V : Type 0} (p : V → Bool) (t : List V) → is_none (find p t) ≡ not (any p t)
unfolding find
find-any p [] = refl
find-any p (x ∷ t) = ground (arith, find-any p t)

held_none : (o p : Option Asset) → is_none (object_of (held o p)) ≡ (is_none o && is_none p)
held_none none none = refl
held_none none (some a) = refl
held_none (some a) p = refl

pub Finds-opened :
    (user_id : ℕ) (s : Session) → s.new_assets ≡ [] → Finds user_id s (has_cat user_id s.db)
unfolding find_cat_asset get_pending_asset
Finds-opened user_id s empty c =
    let none_pending : is_none (get_pending_asset user_id (some c) none s.new_assets) ≡ true =
      rw empty refl in
    let absent = find-any (is_cat_asset user_id c) s.db.assets in
    ground (
      arith,
      held_none (get_pending_asset user_id (some c) none s.new_assets)
          (find (is_cat_asset user_id c) s.db.assets),
      none_pending,
      absent,
    )

pending-insert_row :
    (user_id c k : ℕ) (new : List Asset)
    → is_none
        (get_pending_asset user_id (some c) none (insert_row (Assets.new_cat_asset user_id k) new))
      ≡ (is_none (get_pending_asset user_id (some c) none new) && not (k == c))
unfolding get_pending_asset Assets.new_cat_asset
pending-insert_row user_id c k [] = ground arith
pending-insert_row user_id c k (a ∷ new) = ground (arith, pending-insert_row user_id c k new)

pub Finds-granted :
    (user_id k : ℕ) (s : Session) (has : ℕ → Bool)
    → Finds user_id s has
    → Finds user_id
        (record s { new_assets = (Assets.add_asset (Assets.new_cat_asset user_id k) s).new_assets })
        (λ c. (k == c) || has c)
unfolding find_cat_asset Assets.add_asset
Finds-granted user_id k s has finds c =
    let stored = find (is_cat_asset user_id c) s.db.assets in
    let before = finds c in
    ground (
      arith,
      pending-insert_row user_id c k s.new_assets,
      held_none (get_pending_asset user_id (some c) none s.new_assets) stored,
      held_none
          (get_pending_asset user_id (some c) none
            (insert_row (Assets.new_cat_asset user_id k) s.new_assets))
          stored,
      before,
    )

pub Finds-had :
    (user_id k : ℕ) (s : Session) (has : ℕ → Bool)
    → has k ≡ true
    → Finds user_id s has
    → Finds user_id s (λ c. (k == c) || has c)
Finds-had user_id k s has had finds c = elim (Bool-cases (k == c)) [
  | inl same ↦
      let e : k ≡ c = ground arith in
      let mine : has c ≡ true = subst (λ x. has x ≡ true) e had in rw (finds c, same, mine) refl
  | inr other ↦ rw (finds c, other) refl
]

pub Finds-has :
    (user_id k : ℕ) (s : Session) (has : ℕ → Bool) (o : Option Asset)
    → Finds user_id s has
    → object_of (find_cat_asset user_id k s) ≡ o
    → has k ≡ not (is_none o)
Finds-has user_id k s has o finds h =
    let found : is_none o ≡ not (has k) = subst (λ x. is_none x ≡ not (has k)) h (finds k) in
    ground (arith, found)

pub length-awards :
    (db : Db) (rewards : List GachaReward) (has : ℕ → Bool) (selected : List (Cat × ℤ))
    → Selected db rewards selected
    → length (awards has selected) ≡ length rewards
length-awards db [] has [] h = refl
length-awards db [] has (_ ∷ selected) h = elim h [ ]
length-awards db (r ∷ rewards) has [] h = elim h [ ]
length-awards db (r ∷ rewards) has ((cat, m) ∷ selected) h =
    ground (arith, length-awards db rewards (λ c. (cat.id == c) || has c) selected h.2)

any-insert_row :
    {V : Type 0} (p : V → Bool) (r : V) (t : List V) → any p (insert_row r t) ≡ (any p t || p r)
any-insert_row p r [] = ground arith
any-insert_row p r (x ∷ t) = ground (arith, any-insert_row p r t)

-- The flush inserts the pending cats.
pub flush_assets-has_cat :
    (user_id c : ℕ) (new : List Asset) (db : Db)
    → has_cat user_id (flush_assets new db) c
      ≡ (has_cat user_id db c || not (is_none (get_pending_asset user_id (some c) none new)))
unfolding flush_assets get_pending_asset
flush_assets-has_cat user_id c [] db = ground arith
flush_assets-has_cat user_id c (a ∷ new) db =
    let inserted = record db {
      assets = insert_row (record a { id = db.next_id }) db.assets;
      next_id = db.next_id + 1;
    } in
    ground (
      arith,
      flush_assets-has_cat user_id c new inserted,
      any-insert_row (is_cat_asset user_id c) (record a { id = db.next_id }) db.assets,
    )

-- What the session finds at the end is what the flush leaves.
pub flushed-has_cat :
    (user_id c : ℕ) (s : Session) (has : ℕ → Bool)
    → Finds user_id s has
    → has_cat user_id (flush_assets s.new_assets s.db) c ≡ has c
unfolding find_cat_asset
flushed-has_cat user_id c s has finds =
    let flushed = flush_assets-has_cat user_id c s.new_assets s.db in
    let found = finds c in
    let rows = find-any (is_cat_asset user_id c) s.db.assets in
    let held =
      held_none (get_pending_asset user_id (some c) none s.new_assets)
        (find (is_cat_asset user_id c) s.db.assets) in
    ground (arith, flushed, found, rows, held)

-- The cats that a session finds.
abbrev pub found_in : ℕ → Session → ℕ → Bool
found_in user_id s c = not (is_none (object_of (find_cat_asset user_id c s)))

pub Finds-found : (user_id : ℕ) (s : Session) → Finds user_id s (found_in user_id s)
Finds-found user_id s c = ground arith
