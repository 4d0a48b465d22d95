-- ===== src/Store/Inversion.antt =====
-- What a block that returned has passed through: one rule for each guard.
use cat_game_backend.Base.{◌≡◌, refl, Bool, true, false, Option, none, some, arith, ◌⊎◌}
use cat_game_backend.Core.Error.{Error, Result, ok}
use cat_game_backend.Store.Rows.{ResultData, acquired, completed}
use cat_game_backend.Store.Executions.{ExecutionClaim, replay_or}
use cat_game_backend.Store.Session.{Session, Tx, or_raise, raise_if, ◌>>=◌}

module _ {A B : Type 0} where
  pub or_raise_bind-ok :
      (o : Option A) (e : Error) (f : A → Tx B) (s s' : Session) (b : B)
      → (or_raise o e >>= f) s ≡ (ok b, s')
      → (a : A) × (o ≡ some a) × (f a s ≡ (ok b, s'))
  unfolding ◌>>=◌
  or_raise_bind-ok none e f s s' b h = cc (ap₀ h)
    where
      ap₀ : {p q : Result B × Session} → p ≡ q → p.0 ≡ q.0
      ap₀ h = λ i. (h i).0
  or_raise_bind-ok (some a) e f s s' b h = (a, refl, h)

pub raise_if_bind-ok :
    {B : Type 0} (c : Bool) (e : Error) (f : Unit {0} → Tx B) (s s' : Session) (b : B)
    → (raise_if c e >>= f) s ≡ (ok b, s')
    → (c ≡ false) × (f tt s ≡ (ok b, s'))
unfolding ◌>>=◌ raise_if
raise_if_bind-ok true e f s s' b h = ground arith
raise_if_bind-ok false e f s s' b h = (refl, h)

-- A claim's transaction returned: it replayed a completed request, or it did the work.
pub replay_or-ok :
    (c : ExecutionClaim) (fresh : Tx ResultData) (s s' : Session) (r : ResultData)
    → replay_or c fresh s ≡ (ok r, s')
    → ((c.status ≡ completed) × (c.execution.result_data ≡ some r) × (s' ≡ s))
      ⊎ ((c.status ≡ acquired) × (fresh s ≡ (ok r, s')))
unfolding replay_or
replay_or-ok c fresh s s' r h = ground arith
