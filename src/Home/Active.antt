-- ===== src/Home/Active.antt =====
-- The active cat of a player is one that the player owns.
use cat_game_backend.Base.{
  ℕ, ◌≡◌, refl, String, Bool, true, false, not, ◌&&◌, Option, none, some, List, [], ◌∷◌, ◌==◌,
  opt_eq, any, All, Option-cases, inl, inr, arith, if◌then◌else◌, str_eq, ap,
}
use mathlib.Core.Path.{subst}
use cat_game_backend.Core.Error.{ok, Missing, resource_not_found}
use cat_game_backend.Core.Outcome.{or_raise-ok, ok-injective, or_unchanged-outcome}
use cat_game_backend.Store.Rows.{User, user_row, advance_state_version}
use cat_game_backend.Store.Table.{find, has_id, get, All-put, All-find, find-holds}
use cat_game_backend.Home.{
  HomeAsset, HomeDb, is_own, is_replacement, set_home, with_replacement, select_active_cat,
  set_cat_home, HomeCommand, selecting, showing, tend, tend_all,
}

-- The player has no active cat, or owns it.
abbrev pub OwnsCat : List HomeAsset → ℕ → Option ℕ → Type 0
OwnsCat assets user_id none = Unit
OwnsCat assets user_id (some cat_id) = any (is_own user_id cat_id) assets ≡ true

abbrev pub OwnsActive : List HomeAsset → User → Type 0
OwnsActive assets u = OwnsCat assets u.id u.active_cat_id

abbrev pub IsTended : HomeDb → Type 0
IsTended db = All (OwnsActive db.assets) db.users

get-id : (i : ℕ) (u : User) (users : List User) → get i users ≡ some u → u.id ≡ i
unfolding get
get-id i u users found = let same = find-holds (has_id i) u users found in ground (arith, same)

OwnsActive-changed :
    (b : Bool) (assets : List HomeAsset) (u v : User)
    → OwnsActive assets u
    → OwnsActive assets v
    → OwnsActive assets (advance_state_version (if b then u else v))
unfolding advance_state_version
OwnsActive-changed true assets u v h k = h
OwnsActive-changed false assets u v h k = k

any-find :
    {A : Type 0} (p q : A → Bool) (t : List A) (r : A)
    → find p t ≡ some r
    → q r ≡ true
    → any q t ≡ true
unfolding find
any-find p q [] r h k = ground arith
any-find p q (x ∷ t) r h k = ground (arith, any-find p q t r)

any-set_home :
    (user_id cat_id asset_id : ℕ) (visible : Bool) (assets : List HomeAsset)
    → any (is_own user_id cat_id) (set_home asset_id visible assets)
      ≡ any (is_own user_id cat_id) assets
unfolding set_home
any-set_home user_id cat_id asset_id visible [] = refl
any-set_home user_id cat_id asset_id visible (a ∷ assets) =
    ground (arith, any-set_home user_id cat_id asset_id visible assets)

OwnsCat-set_home :
    (asset_id : ℕ) (visible : Bool) (assets : List HomeAsset) (user_id : ℕ) (cat : Option ℕ)
    → OwnsCat assets user_id cat
    → OwnsCat (set_home asset_id visible assets) user_id cat
OwnsCat-set_home asset_id visible assets user_id none h = tt
OwnsCat-set_home asset_id visible assets user_id (some cat_id) h =
    rw (any-set_home user_id cat_id asset_id visible assets) h

set_home-OwnsActive :
    (asset_id : ℕ) (visible : Bool) (assets : List HomeAsset) (users : List User)
    → All (OwnsActive assets) users
    → All (OwnsActive (set_home asset_id visible assets)) users
set_home-OwnsActive asset_id visible assets [] h = tt
set_home-OwnsActive asset_id visible assets (u ∷ users) h = (
  OwnsCat-set_home asset_id visible assets u.id u.active_cat_id h.0,
  set_home-OwnsActive asset_id visible assets users h.1,
)

replacement-OwnsCat :
    (user_id : ℕ) (assets : List HomeAsset) (r : HomeAsset) (cat : Option ℕ) (p : HomeAsset → Bool)
    → find p assets ≡ some r
    → r.user_id == user_id ≡ true
    → r.cat_id ≡ cat
    → OwnsCat assets user_id cat
replacement-OwnsCat user_id assets r none p found own e = tt
replacement-OwnsCat user_id assets r (some c) p found own e =
    any-find p (is_own user_id c) assets r found (ground (arith, own, e))

with_replacement-OwnsActive :
    (user_id asset_id : ℕ) (assets : List HomeAsset) (u : User)
    → u.id ≡ user_id
    → OwnsActive assets u
    → OwnsActive assets (with_replacement user_id asset_id assets u)
unfolding with_replacement
with_replacement-OwnsActive user_id asset_id assets u same h =
    elim (Option-cases (find (is_replacement user_id asset_id) assets)) [
      | inl e ↦ rw (with_replacement, e) h
      | inr (r, e) ↦
          let holds = find-holds (is_replacement user_id asset_id) r assets e in
          rw (with_replacement, e, same)
            (replacement-OwnsCat user_id assets r r.cat_id (is_replacement user_id asset_id) e
              (ground (arith, holds)) refl)
    ]

select_active_cat-IsTended :
    (user : ℕ) (key : String) (db db' : HomeDb) (r : Unit {0})
    → IsTended db
    → select_active_cat user key db ≡ ok (r, db')
    → IsTended db'
unfolding select_active_cat advance_state_version
select_active_cat-IsTended user key db db' r h ran =
    let (cat, known, h1) =
      or_raise-ok (find (λ c. str_eq c.catalog_key key) db.cats) (resource_not_found Missing.cat) _
        _ ran in
    let (u, present, h2) =
      or_raise-ok (get user db.users) (resource_not_found Missing.user) _ _ h1 in
    let (asset, own, h3) =
      or_raise-ok (find (is_own user cat.id) db.assets) (resource_not_found Missing.cat_asset) _ _
        h2 in
    let holder : u.id ≡ user = get-id user u db.users present in
    let owned =
      any-find (is_own user cat.id) (is_own user cat.id) db.assets asset own
        (find-holds (is_own user cat.id) asset db.assets own) in
    let chosen = OwnsCat-set_home asset.id true db.assets user (some cat.id) owned in
    subst IsTended (ap (λ x. x.1) (ok-injective _ (r, db') h3)) (
      All-put (OwnsActive (set_home asset.id true db.assets)) _ db.users (rw holder chosen)
        (set_home-OwnsActive asset.id true db.assets db.users h))

set_cat_home-IsTended :
    (user : ℕ) (key : String) (visible : Bool) (db db' : HomeDb) (r : Unit {0})
    → IsTended db
    → set_cat_home user key visible db ≡ ok (r, db')
    → IsTended db'
unfolding set_cat_home advance_state_version
set_cat_home-IsTended user key visible db db' r h ran =
    let (cat, known, h1) =
      or_raise-ok (find (λ c. str_eq c.catalog_key key) db.cats) (resource_not_found Missing.cat) _
        _ ran in
    let (u, present, h2) =
      or_raise-ok (get user db.users) (resource_not_found Missing.user) _ _ h1 in
    let (asset, own, h3) =
      or_raise-ok (find (is_own user cat.id) db.assets) (resource_not_found Missing.cat_asset) _ _
        h2 in
    let assets = set_home asset.id visible db.assets in
    let kept = set_home-OwnsActive asset.id visible db.assets db.users h in
    let hers : OwnsActive assets u = All-find (OwnsActive assets) _ u db.users kept present in
    let hides = not visible && opt_eq u.active_cat_id (some cat.id) in
    let replaced =
      with_replacement-OwnsActive user asset.id assets u (get-id user u db.users present) hers in
    subst IsTended (ap (λ x. x.1) (ok-injective _ (r, db') h3)) (
      All-put (OwnsActive assets) _ db.users (OwnsActive-changed hides assets _ u replaced hers)
        kept)

tend-IsTended : (c : HomeCommand) (db : HomeDb) → IsTended db → IsTended (tend c db)
unfolding tend
tend-IsTended (selecting user key) db h =
    or_unchanged-outcome IsTended (select_active_cat user key db) db h
      (λ r db' ran. select_active_cat-IsTended user key db db' r h ran)
tend-IsTended (showing user key visible) db h =
    or_unchanged-outcome IsTended (set_cat_home user key visible db) db h
      (λ r db' ran. set_cat_home-IsTended user key visible db db' r h ran)

-- Any sequence of calls that select an active cat, show a cat at home or hide it, each of which
-- may raise, keeps every player without an active cat or with one that the player owns.
pub tend_all-IsTended :
    (commands : List HomeCommand) (db : HomeDb) → IsTended db → IsTended (tend_all commands db)
unfolding tend_all
tend_all-IsTended [] db h = h
tend_all-IsTended (c ∷ commands) db h =
    tend_all-IsTended commands (tend c db) (tend-IsTended c db h)
