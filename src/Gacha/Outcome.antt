-- ===== src/Gacha/Outcome.antt =====
-- The two loops of a draw: neither writes a table, and the second one always returns.
use cat_game_backend.Base.{
  ℕ, Bool, false, true, ◌≡◌, refl, sym, ap, ◌||◌, if◌then◌else◌, not, any, ◌∙◌, Option, none, some,
  List, [], ◌∷◌, ℤ, pos, ◌+ℤ◌, int_laws, arith, ◌==◌,
}
use cat_game_backend.Core.Error.{Result, Missing, resource_not_found, ok, err}
use cat_game_backend.Store.Rows.{User, Cat, Asset, CatDraw}
use cat_game_backend.Store.Table.{find}
use cat_game_backend.Store.Session.{continue_with, Session, Tx, pure, ◌>>=◌}
use cat_game_backend.Store.Inversion.{or_raise_bind-ok}
use cat_game_backend.Store.Assets
use cat_game_backend.Store.Assets.{Held, pending, persistent, absent, object_of, find_cat_asset}
use cat_game_backend.Gacha.Owning.{
  awards, with_drawn, Selected, Finds, Finds-has, Finds-granted, Finds-had,
}
use mathlib.Core.Path.{subst}
use cat_game_backend.Gacha.{GachaReward, select_cats, award, award_all, drawn}

pub bind-ok :
    {A B : Type 0} (m : Tx A) (f : A → Tx B) (s s' : Session) (a : A)
    → m s ≡ (ok a, s')
    → (m >>= f) s ≡ f a s'
unfolding ◌>>=◌
bind-ok m f s s' a h = rw h

abbrev pub total : List CatDraw → ℤ
total [] = pos 0
total (r ∷ rs) = r.mileage_awarded +ℤ total rs

-- What the rounds of the second loop made of the player and of the objects to insert.
pub record Awarded (u : User) (s : Session) (has : ℕ → Bool) (selected : List (Cat × ℤ))
    (run : Result (User × List CatDraw) × Session) : Type 0 where
  pub winner : User
  pub results : List CatDraw
  pub new : List Asset
  pub returns : run ≡ (ok (winner, results), record s { new_assets = new })
  pub same : winner ≡ record u { mileage = winner.mileage }
  pub mileage : winner.mileage ≡ u.mileage +ℤ total results
  pub awarded : results ≡ awards has selected
  pub finds : Finds u.id (record s { new_assets = new }) (with_drawn has selected)

record Round (u : User) (s : Session) (has : ℕ → Bool) (cat : Cat) (m : ℤ)
    (run : Result (User × CatDraw) × Session) : Type 0 where
  winner : User
  result : CatDraw
  new : List Asset
  returns : run ≡ (ok (winner, result), record s { new_assets = new })
  same : winner ≡ record u { mileage = winner.mileage }
  mileage : winner.mileage ≡ u.mileage +ℤ result.mileage_awarded
  awarded : result ≡ drawn cat (has cat.id) (if has cat.id then m else pos 0)
  finds : Finds u.id (record s { new_assets = new }) (λ c. (cat.id == c) || has c)

granted_lem :
    (user_id cat_id : ℕ) (s : Session)
    → object_of (find_cat_asset user_id cat_id s) ≡ none
    → Assets.grant_cat user_id cat_id s ≡ (
      ok (Assets.new_cat_asset user_id cat_id),
      record s {
        new_assets = (Assets.add_asset (Assets.new_cat_asset user_id cat_id) s).new_assets;
      },
    )
unfolding Assets.grant_cat Assets.get_cat_asset Assets.add_asset
granted_lem user_id cat_id s h = rw h

add_zero : (a : ℤ) → a ≡ a +ℤ pos 0
add_zero a = omega int_laws

award-Round :
    (u : User) (cat : Cat) (m : ℤ) (o : Option Asset) (s : Session) (has : ℕ → Bool)
    → Finds u.id s has
    → object_of (find_cat_asset u.id cat.id s) ≡ o
    → Round u s has cat m (award u cat m o s)
unfolding award
award-Round u cat m none s has finds h =
    let new : has cat.id ≡ false = Finds-has u.id cat.id s has none finds h in
    record {
      winner = u;
      result = drawn cat false (pos 0);
      new = (Assets.add_asset (Assets.new_cat_asset u.id cat.id) s).new_assets;
      returns = bind-ok (Assets.grant_cat u.id cat.id) _ s _ _ (granted_lem u.id cat.id s h);
      same = refl;
      mileage = add_zero u.mileage;
      awarded = rw new refl;
      finds = Finds-granted u.id cat.id s has finds;
    }
award-Round u cat m (some a) s has finds h =
    let had : has cat.id ≡ true = Finds-has u.id cat.id s has (some a) finds h in
    record {
      winner = record u { mileage = u.mileage +ℤ m };
      result = drawn cat true m;
      new = s.new_assets;
      returns = refl;
      same = refl;
      mileage = refl;
      awarded = rw had refl;
      finds = Finds-had u.id cat.id s has had finds;
    }

or_swap : (x y z : Bool) → (x || (y || z)) ≡ ((y || x) || z)
or_swap x y z = ground arith

pub award_all-Awarded :
    (u : User) (selected : List (Cat × ℤ)) (s : Session) (has : ℕ → Bool)
    → Finds u.id s has
    → Awarded u s has selected (award_all u selected s)
unfolding award_all
award_all-Awarded u [] s has finds = record {
  winner = u;
  results = [];
  new = s.new_assets;
  returns = refl;
  same = refl;
  mileage = add_zero u.mileage;
  awarded = refl;
  finds = finds;
}
award_all-Awarded u ((cat, m) ∷ selected) s has finds =
    let round = award-Round u cat m (object_of (find_cat_asset u.id cat.id s)) s has finds refl in
    let has' : ℕ → Bool = λ c. (cat.id == c) || has c in
    let id : u.id ≡ round.winner.id = sym (ap (λ x. x.id) round.same) in
    let next = subst (λ i. Finds i (record s { new_assets = round.new }) has') id round.finds in
    let rest =
      award_all-Awarded round.winner selected (record s { new_assets = round.new }) has' next in
    let back =
      subst (λ i. Finds i (record s { new_assets = rest.new }) (with_drawn has' selected)) (sym id)
        rest.finds in
    record {
      winner = rest.winner;
      results = round.result ∷ rest.results;
      new = rest.new;
      returns =
          bind-ok (award u cat m (object_of (find_cat_asset u.id cat.id s))) _ s _ _ round.returns
          ∙ bind-ok (award_all round.winner selected) _ _ _ _ rest.returns;
      same = rest.same ∙ λ i. record (round.same i) { mileage = rest.winner.mileage };
      mileage = rw (rest.mileage, round.mileage) (omega int_laws);
      awarded = rw (round.awarded, rest.awarded) refl;
      finds =
          λ c. back c ∙ ap not (or_swap (any (λ x. x.0.id == c) selected) (cat.id == c) (has c));
    }

continue_with-inv :
    {A B : Type 0} (r : Result A) (f : A → Tx B) (s s' : Session) (b : B)
    → continue_with r f s ≡ (ok b, s')
    → (a : A) × (r ≡ ok a) × (f a s ≡ (ok b, s'))
continue_with-inv (ok a) f s s' b h = (a, refl, h)
continue_with-inv (err e) f s s' b h = ground arith

-- What a chain that returned has passed through.
pub bind-inv :
    {A B : Type 0} (m : Tx A) (f : A → Tx B) (s s' : Session) (b : B)
    → (m >>= f) s ≡ (ok b, s')
    → (a : A) × (t : Session) × (m s ≡ (ok a, t)) × (f a t ≡ (ok b, s'))
unfolding ◌>>=◌
bind-inv m f s s' b h =
    let (a, e, k) = continue_with-inv (m s).0 f (m s).1 s' b h in
    (a, (m s).1, λ i. (e i, (m s).1), k)

pub select_cats-Selected :
    (rewards : List GachaReward) (s s' : Session) (selected : List (Cat × ℤ))
    → select_cats rewards s ≡ (ok selected, s')
    → (s' ≡ s) × Selected s.db rewards selected
unfolding select_cats
select_cats-Selected [] s s' [] h = (ground arith, tt)
select_cats-Selected [] s s' (x ∷ selected) h = ground arith
select_cats-Selected (r ∷ rewards) s s' selected h =
    let (cat, found, ran) =
      or_raise_bind-ok (find (λ c. c.public_id == r.cat_public_id) s.db.cats)
        (resource_not_found Missing.cat) _ s s' selected h in
    let (rest, t, inner, last) =
      bind-inv (select_cats rewards) (λ rest. pure ((cat, r.duplicate_mileage) ∷ rest)) s s'
        selected ran in
    let (same, picked) = select_cats-Selected rewards s t rest inner in
    let e : (cat, r.duplicate_mileage) ∷ rest ≡ selected = ground arith in
    (ground (arith, same), subst (Selected s.db (r ∷ rewards)) e (found, refl, picked))
