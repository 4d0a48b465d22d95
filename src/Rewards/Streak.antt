-- ===== src/Rewards/Streak.antt =====
-- A streak counts the days in a row on which a player was there.
use cat_game_backend.Base.{
  ℕ, zero, suc, ◌+◌, ◌≤◌, ◌<◌, ◌≡◌, ◌≢◌, refl, ◌∙◌, Bool, true, false, ◌&&◌, none, some, List, [],
  ◌∷◌, inl, inr, arith, any, ◌==◌, ltb, if◌then◌else◌, Option-cases, Bool-cases, ==_refl, All,
}
use mathlib.Core.Path.{subst}
use mathlib.Core.Option.{some-injective}
use cat_game_backend.Store.Rows.{user_row}
use cat_game_backend.Store.Table.{find, insert_row, find-holds, All-find}
use cat_game_backend.Rewards.Missions.{streak_after}
use cat_game_backend.Rewards.{Attendance, is_attendance, latest_attendance, next_streak}

abbrev pub was_there : ℕ → ℕ → List Attendance → Bool
was_there user_id day attendances = any (is_attendance user_id day) attendances

-- The days in a row that end with the day.
unfoldable pub days_in_a_row : ℕ → List Attendance → ℕ → ℕ
days_in_a_row user_id t zero = if was_there user_id 0 t then 1 else 0
days_in_a_row user_id t (suc day) =
    let before = days_in_a_row user_id t day in
    if was_there user_id (suc day) t then before + 1 else 0

-- Those that end before it.
unfoldable pub days_before : ℕ → List Attendance → ℕ → ℕ
days_before user_id t zero = 0
days_before user_id t (suc day) = days_in_a_row user_id t day

abbrev pub IsCounted : List Attendance → Attendance → Type 0
IsCounted t a = a.streak_count ≡ days_in_a_row a.user_id t a.check_in_date

abbrev pub IsUntil : ℕ → Attendance → Type 0
IsUntil day a = a.check_in_date ≤ day

was_there-insert_row :
    (user_id day : ℕ) (a : Attendance) (t : List Attendance)
    → was_there user_id day (insert_row a t)
      ≡ (if is_attendance user_id day a then true else was_there user_id day t)
was_there-insert_row user_id day a [] = ground arith
was_there-insert_row user_id day a (x ∷ t) = ground (arith, was_there-insert_row user_id day a t)

pub days_in_a_row-insert_row :
    (user_id day : ℕ) (a : Attendance) (t : List Attendance)
    → (a.user_id ≡ user_id → day < a.check_in_date)
    → days_in_a_row user_id (insert_row a t) day ≡ days_in_a_row user_id t day
unfolding days_in_a_row
days_in_a_row-insert_row user_id zero a t h =
    let other : is_attendance user_id 0 a ≡ false = ground arith in
    rw (was_there-insert_row user_id 0 a t, other)
days_in_a_row-insert_row user_id (suc day) a t h =
    let other : is_attendance user_id (suc day) a ≡ false = ground arith in
    rw (
      was_there-insert_row user_id (suc day) a t,
      other,
      days_in_a_row-insert_row user_id day a t (λ e. let above = h e in omega arith),
    )

pub days_in_a_row_new :
    (day : ℕ) (a : Attendance) (t : List Attendance)
    → a.check_in_date ≡ day
    → days_in_a_row a.user_id (insert_row a t) day ≡ days_before a.user_id t day + 1
unfolding days_in_a_row days_before
days_in_a_row_new zero a t e = rw (was_there-insert_row a.user_id zero a t, e, ==_refl a.user_id)
days_in_a_row_new (suc day) a t e = rw (
  was_there-insert_row a.user_id (suc day) a t,
  days_in_a_row-insert_row a.user_id day a t (λ same. omega arith),
  e,
  ==_refl a.user_id,
  ==_refl (suc day),
)

pub latest_attendance-Latest :
    (user_id day : ℕ) (t : List Attendance)
    → was_there user_id day t ≡ true
    → (a : Attendance) × (latest_attendance user_id t ≡ some a) × (day ≤ a.check_in_date)
unfolding latest_attendance
latest_attendance-Latest user_id day [] h = ground arith
latest_attendance-Latest user_id day (x ∷ t) h = elim (Bool-cases (was_there user_id day t)) [
  | inl before ↦
      let (a, e, late) = latest_attendance-Latest user_id day t before in
      elim (Bool-cases (x.user_id == user_id)) [
        | inl same ↦ elim (Bool-cases (ltb x.check_in_date a.check_in_date)) [
          | inl less ↦ (a, rw (same, e, less), late)
          | inr more ↦ (x, rw (same, e, more), ground arith)
        ]
        | inr other ↦ (a, rw (other, e), late)
      ]
  | inr not_before ↦ elim (Option-cases (latest_attendance user_id t)) [
    | inl e ↦ (x, ground arith, ground arith)
    | inr (a, e) ↦ elim (Bool-cases (ltb x.check_in_date a.check_in_date)) [
      | inl less ↦ (a, ground arith, ground arith)
      | inr more ↦ (x, ground arith, ground arith)
    ]
  ]
]

pub latest_attendance-All :
    (P : Attendance → Type 0) (user_id : ℕ) (a : Attendance) (t : List Attendance)
    → All P t
    → latest_attendance user_id t ≡ some a
    → P a × (a.user_id ≡ user_id) × (was_there user_id a.check_in_date t ≡ true)
unfolding latest_attendance
latest_attendance-All P user_id a [] h e = ground arith
latest_attendance-All P user_id a (x ∷ t) h e = elim (Bool-cases (x.user_id == user_id)) [
  | inr other ↦
      let (p, same, there) =
        latest_attendance-All P user_id a t h.1 (rw (other, latest_attendance) at e) in
      (p, same, ground arith)
  | inl same ↦ elim (Option-cases (latest_attendance user_id t)) [
    | inl none_yet ↦
        first h.0 same (some-injective x a (rw (same, none_yet, latest_attendance) at e))
    | inr (b, some_yet) ↦ elim (Bool-cases (ltb x.check_in_date b.check_in_date)) [
      | inl less ↦
          let e' : latest_attendance user_id t ≡ some a =
            some_yet ∙ (rw (same, some_yet, less, latest_attendance) at e) in
          let (p, user, there) = latest_attendance-All P user_id a t h.1 e' in
          (p, user, ground arith)
      | inr more ↦
          first h.0 same (some-injective x a (rw (same, some_yet, more, latest_attendance) at e))
    ]
  ]
]
  where
    first :
        P x
        → (x.user_id == user_id) ≡ true
        → x ≡ a
        → P a × (a.user_id ≡ user_id) × (was_there user_id a.check_in_date (x ∷ t) ≡ true)
    first p same eq =
        subst
          (λ a. P a × (a.user_id ≡ user_id) × (was_there user_id a.check_in_date (x ∷ t) ≡ true)) eq
          (p, ground arith, rw (same, ==_refl x.check_in_date))

not_there :
    (user_id day : ℕ) (t : List Attendance)
    → was_there user_id day t ≡ false
    → days_in_a_row user_id t day ≡ 0
unfolding days_in_a_row
not_there user_id zero t h = rw h
not_there user_id (suc day) t h = rw h

apart :
    (user_id d e : ℕ) (t : List Attendance)
    → was_there user_id d t ≡ true
    → was_there user_id e t ≡ false
    → d ≢ e
apart user_id d e t on away =
    λ q. let off : was_there user_id d t ≡ false = rw q away in ground arith

pub find-absent :
    (user_id day : ℕ) (t : List Attendance)
    → find (is_attendance user_id day) t ≡ none
    → was_there user_id day t ≡ false
unfolding find
find-absent user_id day [] h = refl
find-absent user_id day (x ∷ t) h = ground (arith, find-absent user_id day t)

find-away :
    (user_id day : ℕ) (t : List Attendance)
    → find (λ a. a.user_id == user_id && a.check_in_date + 1 == suc day) t ≡ none
    → was_there user_id day t ≡ false
unfolding find
find-away user_id day [] h = refl
find-away user_id day (x ∷ t) h = ground (arith, find-away user_id day t)

-- What the two ways to find the streak of a new day compute.
pub next_streak_lem :
    (user_id day : ℕ) (t : List Attendance)
    → All (IsCounted t) t
    → All (IsUntil day) t
    → was_there user_id day t ≡ false
    → next_streak day (latest_attendance user_id t) ≡ days_before user_id t day + 1
unfolding days_before
next_streak_lem user_id zero t counted until fresh =
    elim (Option-cases (latest_attendance user_id t)) [
      | inl e ↦ rw e refl
      | inr (a, e) ↦ rw e (ground arith)
    ]
next_streak_lem user_id (suc day) t counted until fresh =
    elim (Bool-cases (was_there user_id day t)) [
      | inl there ↦
          let (a, e, late) = latest_attendance-Latest user_id day t there in
          let (right, same, on) = latest_attendance-All (IsCounted t) user_id a t counted e in
          let (early, user, at_day) =
            latest_attendance-All (IsUntil (suc day)) user_id a t until e in
          let elsewhere : a.check_in_date ≢ suc day =
            apart user_id a.check_in_date (suc day) t on fresh in
          let yesterday : a.check_in_date ≡ day = omega arith in
          rw e (ground (arith, rw (same, yesterday) at right))
      | inr away ↦ elim (Option-cases (latest_attendance user_id t)) [
        | inl e ↦ rw (e, not_there user_id day t away) refl
        | inr (a, e) ↦
            let (right, same, on) = latest_attendance-All (IsCounted t) user_id a t counted e in
            let elsewhere : a.check_in_date ≢ day = apart user_id a.check_in_date day t on away in
            let gap : (a.check_in_date + 1 == suc day) ≡ false = ground arith in
            rw (e, not_there user_id day t away, gap) refl
      ]
    ]

pub streak_after_lem :
    (user_id day : ℕ) (t : List Attendance)
    → All (IsCounted t) t
    → streak_after (find (λ a. a.user_id == user_id && a.check_in_date + 1 == day) t)
      ≡ days_before user_id t day + 1
unfolding days_before
streak_after_lem user_id zero t counted =
    let yesterday = λ (a : Attendance). a.user_id == user_id && a.check_in_date + 1 == zero in
    elim (Option-cases (find yesterday t)) [
      | inl e ↦ rw e refl
      | inr (a, e) ↦ let hit = find-holds yesterday a t e in ground arith
    ]
streak_after_lem user_id (suc day) t counted =
    let yesterday = λ (a : Attendance). a.user_id == user_id && a.check_in_date + 1 == suc day in
    elim (Option-cases (find yesterday t)) [
      | inl e ↦ rw (e, not_there user_id day t (find-away user_id day t e)) refl
      | inr (a, e) ↦
          let hit = find-holds yesterday a t e in
          let same : a.user_id ≡ user_id = ground arith in
          let day_before : a.check_in_date ≡ day = ground arith in
          let right = All-find (IsCounted t) yesterday a t counted e in
          rw e (ground (arith, rw (same, day_before) at right))
    ]
