-- ===== src/Learning/Presentation/Shuffle.antt =====
-- The shuffled options keep the right answer.
use cat_game_backend.Base.{
  suc, ◌≡◌, refl, sym, ap, ◌∙◌, String, Bool, true, false, ◌||◌, some, List, [], ◌∷◌, inl, inr,
  arith, any, str_eq, str_eq_iff, length, ==_refl, Bool-cases,
}
use mathlib.Core.List.{Permᴰ}
use cat_game_backend.Core.Error.{ok}
use cat_game_backend.Learning.Presentation.{labels_of, lookup, assign, new_label, shuffled_options}

abbrev pub NoRepeat : List String → Type 0
NoRepeat [] = Unit
NoRepeat (l ∷ labels) = (any (str_eq l) labels ≡ false) × NoRepeat labels

str_eq_refl : (s : String) → str_eq s s ≡ true
str_eq_refl s = (str_eq_iff s s).1 refl

-- The order of the entries does not matter to a lookup.
record SameOptions (l l' : List (String × String)) : Type 0 where
  size : length l ≡ length l'
  has : (p : String → Bool) → any p (labels_of l) ≡ any p (labels_of l')
  labels : NoRepeat (labels_of l) → NoRepeat (labels_of l')
  at : (label : String) → NoRepeat (labels_of l) → lookup label l ≡ lookup label l'

str_eq_comm : (s t : String) → str_eq s t ≡ true → str_eq t s ≡ true
str_eq_comm s t h = (str_eq_iff t s).1 (sym ((str_eq_iff s t).0 h))

str_eq_sym : (s t : String) → str_eq s t ≡ str_eq t s
str_eq_sym s t = elim (Bool-cases (str_eq s t)) [
  | inl h ↦ h ∙ sym (str_eq_comm s t h)
  | inr h ↦ elim (Bool-cases (str_eq t s)) [
    | inl k ↦ let again = str_eq_comm t s k in ground arith
    | inr k ↦ h ∙ sym k
  ]
]

-- Two different labels are not both the one looked for.
differ : (s t label : String) → str_eq s t ≡ false → str_eq s label ≡ true → str_eq t label ≡ false
differ s t label h k = elim (Bool-cases (str_eq t label)) [
  | inr l ↦ l
  | inl l ↦
      let same : s ≡ t = (str_eq_iff s label).0 k ∙ sym ((str_eq_iff t label).0 l) in
      let equal = (str_eq_iff s t).1 same in ground arith
]

or-false : (a b : Bool) → (a || b) ≡ false → (a ≡ false) × (b ≡ false)
or-false a b h = ground arith

-- A label that stands in a list is not one that does not.
absent-differs :
    (l l' : String) (labels : List String)
    → any (str_eq l) labels ≡ false
    → any (str_eq l') labels ≡ true
    → str_eq l l' ≡ false
absent-differs l l' labels absent there = elim (Bool-cases (str_eq l l')) [
  | inr h ↦ h
  | inl h ↦
      let none_there : any (str_eq l') labels ≡ false =
        ap (λ k. any (str_eq k) labels) (sym ((str_eq_iff l l').0 h)) ∙ absent in
      ground arith
]

SameOptions-swap :
    (a b : String × String) (l : List (String × String)) → SameOptions (a ∷ b ∷ l) (b ∷ a ∷ l)
SameOptions-swap a b l = record {
  size = refl;
  has = λ p. ground arith;
  labels = λ h.
      let (other, absent) = or-false (str_eq a.0 b.0) (any (str_eq a.0) (labels_of l)) h.0 in
      (rw (str_eq_sym b.0 a.0, other) h.1.0, (absent, h.1.1));
  at = λ label h. elim (Bool-cases (str_eq a.0 label)) [
    | inl hit ↦
        let (other, absent) = or-false (str_eq a.0 b.0) (any (str_eq a.0) (labels_of l)) h.0 in
        rw (hit, differ a.0 b.0 label other hit) refl
    | inr miss ↦ rw miss refl
  ];
}

SameOptions-of : {l l' : List (String × String)} → Permᴰ l l' → SameOptions l l'
SameOptions-of Permᴰ.nil = record {
  size = refl;
  has = λ p. refl;
  labels = λ h. h;
  at = λ label h. refl;
}
SameOptions-of (Permᴰ.cons {a} {b} e d) =
    let rest = SameOptions-of d in
    rw e (record {
      size = ap suc rest.size;
      has = λ p. rw (rest.has p);
      labels = λ h. (sym (rest.has (str_eq b.0)) ∙ h.0, rest.labels h.1);
      at = λ label h. rw (rest.at label h.1);
    })
SameOptions-of (Permᴰ.swap {a' = a'} {b' = b'} {l = l} e e') = rw (e, e') (SameOptions-swap b' a' l)
SameOptions-of (Permᴰ.trans d d') =
    let first = SameOptions-of d in
    let second = SameOptions-of d' in
    record {
      size = first.size ∙ second.size;
      has = λ p. first.has p ∙ second.has p;
      labels = λ h. second.labels (first.labels h);
      at = λ label h. first.at label h ∙ second.at label (first.labels h);
    }

-- The label of the right answer, when the entries are given to the labels.
assigned :
    (correct text : String) (labels : List String) (entries : List (String × String))
    → NoRepeat labels
    → length labels ≡ length entries
    → lookup correct entries ≡ some text
    → (l : String) × (new_label correct labels entries ≡ some l)
      × (lookup l (assign labels entries) ≡ some text)
      × (any (str_eq l) labels ≡ true)
unfolding new_label assign
assigned correct text labels [] distinct size found = ground arith
assigned correct text [] (e ∷ entries) distinct size found = ground arith
assigned correct text (l ∷ labels) (e ∷ entries) distinct size found =
    elim (Bool-cases (str_eq e.0 correct)) [
      | inl hit ↦ (l, rw hit refl, rw (str_eq_refl l) (ground arith), rw (str_eq_refl l) refl)
      | inr miss ↦
          let (l', new, right, there) =
            assigned correct text labels entries distinct.1 (omega (arith, size)) (ground arith) in
          let other = absent-differs l l' labels distinct.0 there in
          (l', rw miss new, rw other right, rw there (ground arith))
    ]

labels_size : (options : List (String × String)) → length (labels_of options) ≡ length options
labels_size [] = refl
labels_size (o ∷ options) = ap suc (labels_size options)

assign_labels :
    (labels : List String) (entries : List (String × String))
    → length labels ≡ length entries
    → labels_of (assign labels entries) ≡ labels
unfolding assign
assign_labels [] entries h = refl
assign_labels (l ∷ labels) [] h = ground arith
assign_labels (l ∷ labels) (e ∷ entries) h =
    ap (λ ls. l ∷ ls) (assign_labels labels entries (omega (arith, h)))

-- If the shuffle permutes the options, no label occurs twice and the correct option is one of
-- them, shuffling returns; the labels are the same in the same order, and the new correct label
-- has the text that the correct option had.
pub shuffled_options-answer :
    (shuffle : List (String × String) → List (String × String)) (options : List (String × String))
    (correct text : String)
    → Permᴰ options (shuffle options)
    → NoRepeat (labels_of options)
    → lookup correct options ≡ some text
    → (shuffled : List (String × String)) × (new_correct : String) × (shuffled_options shuffle
          options correct
        ≡ ok (shuffled, new_correct))
      × (lookup new_correct shuffled ≡ some text)
      × (labels_of shuffled ≡ labels_of options)
unfolding shuffled_options
shuffled_options-answer shuffle options correct text perm distinct found =
    let same = SameOptions-of perm in
    let labels = labels_of options in
    let entries = shuffle options in
    let size : length labels ≡ length entries = labels_size options ∙ same.size in
    let (l, new, right, there) =
      assigned correct text labels entries distinct size (sym (same.at correct distinct) ∙ found) in
    (
      assign labels entries,
      l,
      rw (size, ==_refl (length entries), new, shuffled_options) refl,
      right,
      assign_labels labels entries size,
    )
