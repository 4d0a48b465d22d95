-- ===== src/Store/Counting.antt =====
-- How many rows of a table meet a condition, through inserts and updates.
use cat_game_backend.Base.{
  ℕ, ◌+◌, ◌≤◌, ◌≡◌, refl, sym, Bool, none, some, List, [], ◌∷◌, inl, inr, arith, Bool-cases, ◌==◌,
  length, if◌then◌else◌, ap, ◌∙◌,
}
use cat_game_backend.Store.Rows.{Row}
use cat_game_backend.Store.Table.{
  Distinct, find, get, put, insert_row, delete_row, where_rows, put_absent,
}

module _ {V : Type 0} where
  unfoldable pub count : (V → Bool) → List V → ℕ
  unfolding where_rows
  count p t = length (where_rows p t)

  pub count-insert_row :
      (p : V → Bool) (r : V) (t : List V)
      → count p (insert_row r t) ≡ count p t + (if p r then 1 else 0)
  unfolding count
  count-insert_row p r [] = ground arith
  count-insert_row p r (x ∷ t) = ground (arith, count-insert_row p r t)

  -- No row meets the condition.
  pub count-none : (p : V → Bool) (t : List V) → find p t ≡ none → count p t ≡ 0
  unfolding count find
  count-none p [] h = refl
  count-none p (x ∷ t) h = ground (arith, count-none p t)

  pub find-none : (p : V → Bool) (t : List V) → count p t ≡ 0 → find p t ≡ none
  unfolding count find
  find-none p [] h = refl
  find-none p (x ∷ t) h = ground (arith, find-none p t)

module _ {V : Type 0} ⦃row : Row V⦄ where
  pub count-put :
      (p : V → Bool) (u v : V) (t : List V)
      → Distinct t
      → get (row.id_of v) t ≡ some u
      → p v ≡ p u
      → count p (put v t) ≡ count p t
  unfolding count put get find
  count-put p u v [] d found e = refl
  count-put p u v (x ∷ t) d found e = elim (Bool-cases (row.id_of x == row.id_of v)) [
    | inl same ↦
        let absent : get (row.id_of v) t ≡ none =
          (let i : row.id_of x ≡ row.id_of v = ground arith in rw i at (d.0)) in
        let hit : x ≡ u = ground arith in
        let test : p v ≡ p x = e ∙ ap p (sym hit) in
        rw (same, put_absent v t absent) (ground (arith, test))
    | inr differs ↦ ground (arith, count-put p u v t d.1)
  ]

  pub count-delete_row : (p : V → Bool) (i : ℕ) (t : List V) → count p (delete_row i t) ≤ count p t
  unfolding count delete_row
  count-delete_row p i [] = omega arith
  count-delete_row p i (x ∷ t) = ground (arith, count-delete_row p i t)
