-- ===== src/Store/Atomic.antt =====
-- What a block that raises leaves behind: a rule for each way to build an action.
use cat_game_backend.Base.{◌≡◌, refl, sym, ◌∙◌, Bool, true, false, Option, if◌then◌else◌}
use mathlib.Core.Path.{subst}
use cat_game_backend.Core.Error.{Error, Result, ok, err}
use cat_game_backend.Store.Session.{
  Db, Session, continue_with, Tx, pure, raise, gets, or_raise, ◌>>=◌, modify_db, raise_if,
  raise_option, commit, begin, run_uow,
}

-- The action commits nothing.
pub record IsUncommitted {A : Type 0} (m : Tx A) : Type 0 where
  pub at : (s : Session) → (m s).1.committed ≡ s.committed

-- The action commits nothing if it raises.
pub record IsAtomic {A : Type 0} (m : Tx A) : Type 0 where
  pub at : (s : Session) (e : Error) → (m s).0 ≡ err e → (m s).1.committed ≡ s.committed

module _ {A : Type 0} where
  pub pure-IsUncommitted : (a : A) → IsUncommitted (pure a)
  unfolding pure
  pure-IsUncommitted a = record { at = λ s. refl }

  pub raise-IsUncommitted : (e : Error) → IsUncommitted (raise {A = A} e)
  unfolding raise
  raise-IsUncommitted e = record { at = λ s. refl }

  pub gets-IsUncommitted : (f : Session → A) → IsUncommitted (gets f)
  unfolding gets
  gets-IsUncommitted f = record { at = λ s. refl }

  pub or_raise-IsUncommitted : (o : Option A) (e : Error) → IsUncommitted (or_raise o e)
  unfolding or_raise
  or_raise-IsUncommitted o e = record { at = λ s. refl }

  pub IsUncommitted-IsAtomic : {m : Tx A} → IsUncommitted m → IsAtomic m
  IsUncommitted-IsAtomic h = record { at = λ s e p. h.at s }

  pub IsUncommitted-if :
      (b : Bool) (m n : Tx A)
      → IsUncommitted m
      → IsUncommitted n
      → IsUncommitted (if b then m else n)
  IsUncommitted-if true m n hm hn = hm
  IsUncommitted-if false m n hm hn = hn

  pub IsAtomic-if :
      (b : Bool) (m n : Tx A) → IsAtomic m → IsAtomic n → IsAtomic (if b then m else n)
  IsAtomic-if true m n hm hn = hm
  IsAtomic-if false m n hm hn = hn

pub modify_db-IsUncommitted : (f : Db → Db) → IsUncommitted (modify_db f)
unfolding modify_db
modify_db-IsUncommitted f = record { at = λ s. refl }

pub raise_if-IsUncommitted : (b : Bool) (e : Error) → IsUncommitted (raise_if b e)
unfolding raise_if
raise_if-IsUncommitted b e = record { at = λ s. refl }

pub raise_option-IsUncommitted : (o : Option Error) → IsUncommitted (raise_option o)
unfolding raise_option
raise_option-IsUncommitted o = record { at = λ s. refl }

module _ {A B : Type 0} where
  continue_with-committed :
      (r : Result A) (f : A → Tx B) (s : Session)
      → ((a : A) → IsUncommitted (f a))
      → (continue_with r f s).1.committed ≡ s.committed
  continue_with-committed (ok a) f s hf = (hf a).at s
  continue_with-committed (err x) f s hf = refl

  continue_with-atomic :
      (r : Result A) (f : A → Tx B) (s : Session) (e : Error)
      → ((a : A) → IsAtomic (f a))
      → (continue_with r f s).0 ≡ err e
      → (continue_with r f s).1.committed ≡ s.committed
  continue_with-atomic (ok a) f s e hf p = (hf a).at s e p
  continue_with-atomic (err x) f s e hf p = refl

  pub bind-IsUncommitted :
      (m : Tx A) (f : A → Tx B)
      → IsUncommitted m
      → ((a : A) → IsUncommitted (f a))
      → IsUncommitted (m >>= f)
  unfolding ◌>>=◌
  bind-IsUncommitted m f hm hf = record {
    at = λ s. continue_with-committed (m s).0 f (m s).1 hf ∙ hm.at s;
  }

  pub bind-IsAtomic :
      (m : Tx A) (f : A → Tx B) → IsUncommitted m → ((a : A) → IsAtomic (f a)) → IsAtomic (m >>= f)
  unfolding ◌>>=◌
  bind-IsAtomic m f hm hf = record {
    at = λ s e p. continue_with-atomic (m s).0 f (m s).1 e hf p ∙ hm.at s;
  }

-- A block that ends in `commit(); return a` raises nothing after the commit.
pub commit-IsAtomic : {A : Type 0} (a : A) → IsAtomic (commit >>= λ _. pure a)
unfolding ◌>>=◌ commit
commit-IsAtomic a = record { at = λ s e p. cc }

pub ruleset uncommitted_rules = (
  pure-IsUncommitted, raise-IsUncommitted, gets-IsUncommitted, or_raise-IsUncommitted,
  modify_db-IsUncommitted, raise_if-IsUncommitted, raise_option-IsUncommitted, IsUncommitted-if,
  bind-IsUncommitted,
)

pub ruleset atomic_rules =
    (uncommitted_rules, bind-IsAtomic, IsAtomic-if, commit-IsAtomic, IsUncommitted-IsAtomic)

-- An error of an atomic block leaves the database as it was before the block.
pub run_uow_atomic :
    {A : Type 0} (m : Tx A) (db : Db) (e : Error)
    → IsAtomic m
    → (run_uow m db).0 ≡ err e
    → (run_uow m db).1 ≡ db
unfolding run_uow
run_uow_atomic m db e h p = h.at (begin db) e p

-- To know a property of the database after an atomic block, look at what the block returns.
pub run_uow-outcome :
    {A : Type 0} (P : Db → Type 0) (m : Tx A) (db : Db)
    → IsAtomic m
    → P db
    → ((r : A) (db' : Db) → run_uow m db ≡ (ok r, db') → P db')
    → P (run_uow m db).1
run_uow-outcome {A} P m db h before after = go (run_uow m db).0 refl
  where
    go : (r : Result A) → (run_uow m db).0 ≡ r → P (run_uow m db).1
    go (ok a) e = after a (run_uow m db).1 (λ i. (e i, (run_uow m db).1))
    go (err x) e = subst P (sym (run_uow_atomic m db x h e)) before
