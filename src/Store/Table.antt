-- ===== src/Store/Table.antt =====
-- Tables as lists of rows in the order of their primary keys, and the queries on them.
use cat_game_backend.Base.{
  not, ◌||◌, ◌+◌, ◌<◌, false, ℕ, ◌≡◌, refl, Bool, true, Option, none, some, List, [], ◌∷◌, ◌++◌,
  arith, ◌==◌, ==_refl, if◌then◌else◌, All, Bool-cases, inl, inr,
}
use mathlib.Core.Path.{subst}
use cat_game_backend.Store.Rows.{Row}

-- `select(...).where(p)` and `scalar_one_or_none`, for a condition on a unique column.
module _ {V : Type 0} where
  unfoldable pub find : (V → Bool) → List V → Option V
  find p [] = none
  find p (r ∷ t) = if p r then some r else find p t

  unfoldable pub where_rows : (V → Bool) → List V → List V
  where_rows p [] = []
  where_rows p (r ∷ t) = if p r then r ∷ where_rows p t else where_rows p t

  -- An inserted row has the largest primary key.
  abbrev pub insert_row : V → List V → List V
  insert_row r t = t ++ (r ∷ [])

  pub find-insert_row :
      (p : V → Bool) (r : V) (t : List V)
      → find p t ≡ none
      → find p (insert_row r t) ≡ (if p r then some r else none)
  unfolding find
  find-insert_row p r [] h = refl
  find-insert_row p r (x ∷ t) h = ground (arith, find-insert_row p r t)

  pub find-insert_row_old :
      (p : V → Bool) (r u : V) (t : List V) → find p t ≡ some u → find p (insert_row r t) ≡ some u
  unfolding find
  find-insert_row_old p r u [] h = ground arith
  find-insert_row_old p r u (x ∷ t) h = ground (arith, find-insert_row_old p r u t)

  pub find-insert_row_ne :
      (p : V → Bool) (r : V) (t : List V) → p r ≡ false → find p (insert_row r t) ≡ find p t
  unfolding find
  find-insert_row_ne p r [] h = ground arith
  find-insert_row_ne p r (x ∷ t) h = ground (arith, find-insert_row_ne p r t h)

  pub find-holds : (p : V → Bool) (u : V) (t : List V) → find p t ≡ some u → p u ≡ true
  unfolding find
  find-holds p u [] h = ground arith
  find-holds p u (x ∷ t) h = ground (arith, find-holds p u t)

  pub All-find :
      (P : V → Type 0) (p : V → Bool) (u : V) (t : List V) → All P t → find p t ≡ some u → P u
  unfolding find
  All-find P p u [] a h = ground arith
  All-find P p u (x ∷ t) a h = elim (Bool-cases (p x)) [
    | inl hit ↦ let e : x ≡ u = ground arith in subst P e a.0
    | inr miss ↦ All-find P p u t a.1 (ground arith)
  ]

module _ {V : Type 0} ⦃row : Row V⦄ where
  abbrev pub has_id : ℕ → V → Bool
  has_id i r = row.id_of r == i

  unfoldable pub get : ℕ → List V → Option V
  unfolding find
  get i = find (has_id i)

  -- The row takes the place of the one with its primary key: an object of the session whose
  -- attributes were assigned.
  unfoldable pub put : V → List V → List V
  put v [] = []
  put v (r ∷ t) = (if row.id_of r == row.id_of v then v else r) ∷ put v t

  unfoldable pub delete_row : ℕ → List V → List V
  delete_row i [] = []
  delete_row i (r ∷ t) = if row.id_of r == i then delete_row i t else r ∷ delete_row i t

  pub find-put :
      (p : V → Bool) (u v : V) (t : List V)
      → find p t ≡ some u
      → row.id_of u ≡ row.id_of v
      → p v ≡ true
      → find p (put v t) ≡ some v
  unfolding find put
  find-put p u v [] h e k = ground arith
  find-put p u v (x ∷ t) h e k = ground (arith, find-put p u v t)

  pub All-put : (P : V → Type 0) (v : V) (t : List V) → P v → All P t → All P (put v t)
  unfolding put
  All-put P v [] k h = tt
  All-put P v (x ∷ t) k h = elim (Bool-cases (row.id_of x == row.id_of v)) [
    | inl same ↦ rw same (k, All-put P v t k h.1)
    | inr differs ↦ rw differs (h.0, All-put P v t k h.1)
  ]

  pub get-put :
      (i : ℕ) (v : V) (t : List V)
      → get i (put v t)
        ≡ (if i == row.id_of v then elim (get i t) [ none ↦ none | some _ ↦ some v ] else get i t)
  unfolding get put
  get-put i v [] = ground arith
  get-put i v (x ∷ t) = ground (arith, get-put i v t)

  -- No two rows have one primary key.
  abbrev pub Distinct : List V → Type 0
  Distinct [] = Unit
  Distinct (r ∷ t) = (get (row.id_of r) t ≡ none) × Distinct t

  -- A row that a condition selects is the row of its primary key.
  pub get-find :
      (p : V → Bool) (u : V) (t : List V)
      → Distinct t
      → find p t ≡ some u
      → get (row.id_of u) t ≡ some u
  unfolding find get
  get-find p u [] h e = ground arith
  get-find p u (x ∷ t) h e = ground (arith, ==_refl (row.id_of u), get-find p u t h.1)

  pub get-put_self :
      (u v : V) (t : List V) → get (row.id_of v) t ≡ some u → get (row.id_of v) (put v t) ≡ some v
  get-put_self u v t h = rw (get-put, ==_refl, h)

  pub Distinct-put : (v : V) (t : List V) → Distinct t → Distinct (put v t)
  unfolding put
  Distinct-put v [] h = tt
  Distinct-put v (x ∷ t) h =
      ground (arith, get-put (row.id_of x) v t, get-put (row.id_of v) v t, Distinct-put v t h.1)

  pub put_absent : (v : V) (t : List V) → get (row.id_of v) t ≡ none → put v t ≡ t
  unfolding get put find
  put_absent v [] h = refl
  put_absent v (x ∷ t) h = ground (arith, put_absent v t)

  -- A condition that selects neither the old row nor the new one does not see the change.
  pub find-put_ne :
      (p : V → Bool) (u v : V) (t : List V)
      → Distinct t
      → get (row.id_of v) t ≡ some u
      → p u ≡ false
      → p v ≡ false
      → find p (put v t) ≡ find p t
  unfolding find get put
  find-put_ne p u v [] h e k l = refl
  find-put_ne p u v (x ∷ t) h e k l = ground (arith, put_absent v t, find-put_ne p u v t h.1)

  -- Every primary key is below the next one.
  abbrev pub IsBelow : ℕ → V → Type 0
  IsBelow n r = row.id_of r < n

  pub Distinct-insert_row :
      (r : V) (t : List V) → All (IsBelow (row.id_of r)) t → Distinct t → Distinct (insert_row r t)
  unfolding get find
  Distinct-insert_row r [] h k = (refl, tt)
  Distinct-insert_row r (x ∷ t) h k =
      ground
        (arith, find-insert_row (has_id (row.id_of x)) r t k.0, Distinct-insert_row r t h.1 k.1)

  pub IsBelow-suc : (n : ℕ) (t : List V) → All (IsBelow n) t → All (IsBelow (n + 1)) t
  IsBelow-suc n [] h = tt
  IsBelow-suc n (x ∷ t) h = (omega arith, IsBelow-suc n t h.1)

  pub All-delete_row : (P : V → Type 0) (i : ℕ) (t : List V) → All P t → All P (delete_row i t)
  unfolding delete_row
  All-delete_row P i [] h = tt
  All-delete_row P i (x ∷ t) h = elim (Bool-cases (row.id_of x == i)) [
    | inl same ↦ rw same (All-delete_row P i t h.1)
    | inr differs ↦ rw differs (h.0, All-delete_row P i t h.1)
  ]

  pub get-delete_row :
      (i j : ℕ) (t : List V) → get i (delete_row j t) ≡ (if i == j then none else get i t)
  unfolding get find delete_row
  get-delete_row i j [] = ground arith
  get-delete_row i j (x ∷ t) = ground (arith, get-delete_row i j t)

  pub Distinct-delete_row : (i : ℕ) (t : List V) → Distinct t → Distinct (delete_row i t)
  unfolding delete_row
  Distinct-delete_row i [] h = tt
  Distinct-delete_row i (x ∷ t) h =
      ground (arith, get-delete_row (row.id_of x) i t, Distinct-delete_row i t h.1)

  -- A key that is absent is no row's key.
  pub absent-All : (i : ℕ) (t : List V) → get i t ≡ none → All (λ r. (row.id_of r == i) ≡ false) t
  unfolding get find
  absent-All i [] h = tt
  absent-All i (x ∷ t) h = (ground arith, absent-All i t (ground arith))

-- What holds of the selected rows holds of each row that the condition selects.
pub where_rows-All :
    {V : Type 0} (p good : V → Bool) (t : List V)
    → All (λ r. good r ≡ true) (where_rows p t)
    → All (λ r. (not (p r) || good r) ≡ true) t
unfolding where_rows
where_rows-All p good [] h = tt
where_rows-All p good (x ∷ t) h = elim (Bool-cases (p x)) [
  | inl hit ↦
      let h' : (good x ≡ true) × All (λ r. good r ≡ true) (where_rows p t) =
        rw (hit, where_rows) at h in
      (rw (hit, h'.0), where_rows-All p good t h'.1)
  | inr miss ↦ (rw miss, where_rows-All p good t (rw miss at h))
]
