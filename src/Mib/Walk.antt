-- ===== src/Mib/Walk.antt =====
-- internal/monitor/mib.go: what a manager gets that asks for the next entry again and again.
use sssonector.Prelude.{
  Bool-cases, List, String, [], ap, arith, eq_iff, false, if◌then◌else◌, inl, inr, length,
  lt_string, lt_string_irrefl, lt_string_total, lt_string_trans, member, refl, suc, sym, true, zero,
  ℕ, ◌&&◌, ◌+◌, ◌<◌, ◌==◌, ◌||◌, ◌∙◌, ◌∷◌, ◌≡◌, ◌≤◌,
}
use sssonector.Prelude.{string_eq}
use mathlib.Core.Path.{subst}
use sssonector.Mib.{MibTree, Sorting, get_next_entry, is_hidden, is_refused, oids_for}
use sssonector.Mib.Next.{
  IsLast, IsNext, IsTree, IsTree-keys, get_next_entry-IsNext, is_visible, member-oids_for,
}

module _ (sorting : Sorting) (community : String) (tree : MibTree) where
  -- The identifiers of the answers to at most `fuel` requests, each for what follows the last.
  unfoldable pub walk : ℕ → String → List String
  walk zero oid = []
  walk (suc fuel) oid = elim (get_next_entry sorting oid community tree) [
    | inl error ↦ []
    | inr e ↦ e.oid ∷ walk fuel e.oid
  ]

-- Each string is above the one before it, and the first above the given one.
unfoldable pub IsAscending : String → List String → Type 0
IsAscending s [] = Unit
IsAscending s (t ∷ l) = (lt_string s t ≡ true) × IsAscending t l

-- A list that has every visible identifier above the given one, no other, and in ascending order.
unfoldable pub Visits : String → MibTree → String → List String → Type 0
Visits community tree oid l =
    IsAscending oid l
    × ((j : String) → member j l ≡ (is_visible community j tree && lt_string oid j))

-- How many strings of a list are above a given one.
abbrev above : String → List String → ℕ
above s [] = 0
above s (t ∷ l) = (if lt_string s t then 1 else 0) + above s l

above-length : (s : String) (l : List String) → above s l ≤ length l
above-length s [] = omega arith
above-length s (t ∷ l) = ground (arith, above-length s l)

above_mono : (s t : String) (l : List String) → lt_string s t ≡ true → above t l ≤ above s l
above_mono s t [] h = omega arith
above_mono s t (u ∷ l) h = elim (Bool-cases (lt_string t u)) [
  | inl up ↦ ground (arith, up, lt_string_trans s t u h up, above_mono s t l h)
  | inr down ↦ ground (arith, down, above_mono s t l h)
]

above_decreases :
    (s t : String) (l : List String)
    → lt_string s t ≡ true
    → member t l ≡ true
    → above t l < above s l
above_decreases s t [] h m = ground arith
above_decreases s t (u ∷ l) h m = elim (Bool-cases (u == t)) [
  | inl same ↦
      let eq = (eq_iff u t).0 same in
      let up : lt_string s u ≡ true = ap (lt_string s) eq ∙ h in
      let down : lt_string t u ≡ false = ap (lt_string t) eq ∙ lt_string_irrefl t in
      ground (arith, up, down, above_mono s t l h)
  | inr other ↦
      let rest = above_decreases s t l h (ground (arith, m, other)) in
      elim (Bool-cases (lt_string t u)) [
        | inl up ↦ ground (arith, up, lt_string_trans s t u h up, rest)
        | inr down ↦ ground (arith, down, rest)
      ]
]

none_above :
    (s t : String) (l : List String) → above s l ≤ 0 → member t l ≡ true → lt_string s t ≡ false
none_above s t [] h m = ground arith
none_above s t (u ∷ l) h m = elim (Bool-cases (u == t)) [
  | inl same ↦ ap (lt_string s) (sym ((eq_iff u t).0 same)) ∙ ground (arith, h)
  | inr other ↦ none_above s t l (ground (arith, h)) (ground (arith, m, other))
]

oids_for-length :
    (community : String) (tree : MibTree) → length (oids_for community tree) ≤ length tree
unfolding oids_for
oids_for-length community [] = omega arith
oids_for-length community ((k, e) ∷ tree) = elim (Bool-cases (is_hidden community e)) [
  | inl hidden ↦ rw hidden (ground (arith, oids_for-length community tree))
  | inr shown ↦ rw shown (ground (arith, oids_for-length community tree))
]

module _ (sorting : Sorting) (community : String) (tree : MibTree)
    (known : is_refused community ≡ false) (h : IsTree tree) where
  -- A string above the least one that is visible above `oid`, or that one itself.
  next-or-above :
      (oid k j : String)
      → IsNext oid community tree k
      → (k == j) || (is_visible community j tree && lt_string k j)
        ≡ (is_visible community j tree && lt_string oid j)
  unfolding IsNext
  next-or-above oid k j next = elim (Bool-cases (k == j)) [
    | inl same ↦
        let eq = (eq_iff k j).0 same in
        let seen = ap (λ x. is_visible community x tree) (sym eq) ∙ next.0 in
        let up = ap (lt_string oid) (sym eq) ∙ next.1 in ground (arith, same, seen, up)
    | inr other ↦ elim (Bool-cases (is_visible community j tree)) [
      | inr unseen ↦ ground (arith, other, unseen)
      | inl seen ↦ elim (Bool-cases (lt_string oid j)) [
        | inl up ↦ elim (Bool-cases (lt_string k j)) [
          | inl higher ↦ ground (arith, other, seen, up, higher)
          | inr lower ↦
              let eq = lt_string_total k j lower (next.2 j seen up) in
              absurd (ground (arith, other, (eq_iff k j).1 eq))
        ]
        | inr down ↦ elim (Bool-cases (lt_string k j)) [
          | inl higher ↦ absurd (ground (arith, down, lt_string_trans oid k j next.1 higher))
          | inr lower ↦ ground (arith, other, seen, down, lower)
        ]
      ]
    ]
  ]

  walk-Visits_enough :
      (fuel : ℕ) (oid : String)
      → above oid (oids_for community tree) ≤ fuel
      → Visits community tree oid (walk sorting community tree fuel oid)
  unfolding walk IsAscending Visits IsNext IsLast
  walk-Visits_enough zero oid enough = (
    tt,
    λ j. elim (Bool-cases (is_visible community j tree)) [
      | inl seen ↦ ground (
        arith,
        seen,
        none_above oid j (oids_for community tree) enough
            (member-oids_for community tree (IsTree-keys tree h) j ∙ seen),
      )
      | inr unseen ↦ rw unseen refl
    ],
  )
  walk-Visits_enough (suc fuel) oid enough =
      elim (get_next_entry-IsNext sorting oid community tree known h) [
        | inl (last, e) ↦
            let done : walk sorting community tree (suc fuel) oid ≡ [] = rw (walk, e) refl in
            subst (Visits community tree oid) (sym done) (
              tt,
              λ j. elim (Bool-cases (is_visible community j tree)) [
                | inl seen ↦ ground (arith, seen, last j seen)
                | inr unseen ↦ rw unseen refl
              ],
            )
        | inr (e, answer, at, next) ↦
            let less =
              above_decreases oid e.oid (oids_for community tree) next.1
                (member-oids_for community tree (IsTree-keys tree h) e.oid ∙ next.0) in
            let rest = walk-Visits_enough fuel e.oid (omega (arith, less, enough)) in
            let more : walk sorting community tree (suc fuel) oid
                ≡ e.oid ∷ walk sorting community tree fuel e.oid =
              rw (walk, answer) refl in
            subst (Visits community tree oid) (sym more) (
              (next.1, rest.0),
              λ j. ap (λ x. (e.oid == j) || x) (rest.1 j) ∙ next-or-above oid e.oid j next,
            )
      ]

-- A manager that asks GetNextEntry for what follows an identifier, then for what follows the answer
-- and so on, for a community that the agent knows and a tree in which each identifier stands once
-- with an entry that names it: within as many requests as the tree has entries it has got every
-- visible identifier above the first one, no other, and each above the one before it.
pub walk-Visits :
    (sorting : Sorting) (community : String) (tree : MibTree)
    → is_refused community ≡ false
    → IsTree tree
    → (oid : String) → Visits community tree oid (walk sorting community tree (length tree) oid)
walk-Visits sorting community tree known h oid =
    let fits = above-length oid (oids_for community tree) in
    let few = oids_for-length community tree in
    walk-Visits_enough sorting community tree known h (length tree) oid (omega (arith, fits, few))
