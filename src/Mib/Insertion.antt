-- ===== src/Mib/Insertion.antt =====
-- A sort by insertion, which does what the tree needs of sort.Strings.
use sssonector.Prelude.{
  All, Bool-cases, List, String, [], ap, arith, false, if◌then◌else◌, inl, inr, lt_string,
  lt_string_irrefl, lt_string_total, lt_string_trans, member, refl, ◌==◌, ◌||◌, ◌∙◌, ◌∷◌, ◌≡◌,
}
use sssonector.Prelude.{string_eq}
use sssonector.Mib.{IsSorted, Sorting}

unfoldable pub put : String → List String → List String
put s [] = s ∷ []
put s (t ∷ l) = let rest = put s l in if lt_string t s then t ∷ rest else s ∷ t ∷ l

unfoldable pub insertion_sort : List String → List String
insertion_sort [] = []
insertion_sort (s ∷ l) = put s (insertion_sort l)

not_above_trans :
    (s t u : String) → lt_string t s ≡ false → lt_string u t ≡ false → lt_string u s ≡ false
not_above_trans s t u h g = elim (Bool-cases (lt_string u s)) [
  | inr above ↦ above
  | inl less ↦ elim (Bool-cases (lt_string t u)) [
    | inl up ↦ absurd (ground (arith, h, lt_string_trans t u s up less))
    | inr down ↦
        let same = lt_string_total t u down g in
        absurd (ground (arith, less, h, ap (λ x. lt_string x s) same))
  ]
]

put-All : (P : String → Type 0) (s : String) (l : List String) → P s → All P l → All P (put s l)
unfolding put
put-All P s [] p h = (p, tt)
put-All P s (t ∷ l) p h = elim (Bool-cases (lt_string t s)) [
  | inl up ↦ rw up (h.0, put-All P s l p h.1)
  | inr down ↦ rw down (p, h)
]

All-not_above :
    (s t : String) (l : List String)
    → lt_string t s ≡ false
    → All (λ u. lt_string u t ≡ false) l
    → All (λ u. lt_string u s ≡ false) l
All-not_above s t [] h g = tt
All-not_above s t (u ∷ l) h g = (not_above_trans s t u h g.0, All-not_above s t l h g.1)

put-IsSorted : (s : String) (l : List String) → IsSorted l → IsSorted (put s l)
unfolding put IsSorted
put-IsSorted s [] h = (tt, tt)
put-IsSorted s (t ∷ l) h = elim (Bool-cases (lt_string t s)) [
  | inl up ↦
      let down : lt_string s t ≡ false = elim (Bool-cases (lt_string s t)) [
        | inr equal ↦ equal
        | inl less ↦ absurd (ground (arith, lt_string_trans s t s less up, lt_string_irrefl s))
      ] in
      rw up (put-All (λ u. lt_string u t ≡ false) s l down h.0, put-IsSorted s l h.1)
  | inr down ↦ rw down ((down, All-not_above s t l down h.0), h)
]

member-put : (k s : String) (l : List String) → member k (put s l) ≡ ((s == k) || member k l)
unfolding put
member-put k s [] = refl
member-put k s (t ∷ l) = elim (Bool-cases (lt_string t s)) [
  | inl up ↦ rw up (ground (arith, member-put k s l))
  | inr down ↦ rw down refl
]

pub insertion-IsSorted : (l : List String) → IsSorted (insertion_sort l)
unfolding insertion_sort IsSorted
insertion-IsSorted [] = tt
insertion-IsSorted (s ∷ l) = put-IsSorted s (insertion_sort l) (insertion-IsSorted l)

pub member-insertion : (k : String) (l : List String) → member k (insertion_sort l) ≡ member k l
unfolding insertion_sort
member-insertion k [] = refl
member-insertion k (s ∷ l) =
    member-put k s (insertion_sort l) ∙ ap (λ x. (s == k) || x) (member-insertion k l)

abbrev pub insertion : Sorting
insertion = record {
  sort = insertion_sort;
  member-sort = member-insertion;
  sort-IsSorted = insertion-IsSorted;
}
