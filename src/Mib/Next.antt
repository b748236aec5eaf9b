-- ===== src/Mib/Next.antt =====
-- internal/monitor/mib.go: which entry follows an identifier.
use sssonector.Prelude.{
  All, Bool, Bool-cases, HasDistinctKeys, List, Option, Option-cases, String, [], ap, arith, eq_iff,
  false, if◌then◌else◌, inl, inr, lookup, lt_string, lt_string_irrefl, member, none, not, refl,
  some, sym, true, ◌==◌, ◌∙◌, ◌∷◌, ◌≡◌, ◌⊎◌,
}
use sssonector.Prelude.{string_eq}
use mathlib.Core.Path.{subst}
use sssonector.Mib.{
  IsSorted, MibEntry, MibTree, Sorting, entry_at, first_after, get_next_entry, is_hidden,
  is_refused, no_next, oids_for,
}

-- Whether a community sees an entry under an identifier.
abbrev pub sees : String → Option MibEntry → Bool
sees community none = false
sees community (some e) = not (is_hidden community e)

abbrev pub is_visible : String → String → MibTree → Bool
is_visible community k tree = sees community (lookup k tree)

-- Each identifier stands once, with an entry that names it.
unfoldable pub IsTree : MibTree → Type 0
IsTree tree =
    HasDistinctKeys tree × ((k : String) (e : MibEntry) → lookup k tree ≡ some e → e.oid ≡ k)

-- The least visible identifier above the given one.
unfoldable pub IsNext : String → String → MibTree → String → Type 0
IsNext oid community tree k =
    (is_visible community k tree ≡ true)
    × (lt_string oid k ≡ true)
    × ((j : String)
        → is_visible community j tree ≡ true
        → lt_string oid j ≡ true
        → lt_string j k ≡ false)

-- No visible identifier is above the given one.
unfoldable pub IsLast : String → String → MibTree → Type 0
IsLast oid community tree =
    (j : String) → is_visible community j tree ≡ true → lt_string oid j ≡ false

same_key : (k : String) → (k == k) ≡ true
same_key k = (eq_iff k k).1 refl

is_visible-cons :
    (community j k : String) (e : MibEntry) (tree : MibTree)
    → is_visible community k ((j, e) ∷ tree)
      ≡ (if j == k then not (is_hidden community e) else is_visible community k tree)
unfolding lookup
is_visible-cons community j k e tree = ground arith

pub member-oids_for :
    (community : String) (tree : MibTree)
    → HasDistinctKeys tree
    → (k : String) → member k (oids_for community tree) ≡ is_visible community k tree
unfolding oids_for lookup
member-oids_for community [] h k = refl
member-oids_for community ((j, e) ∷ tree) h k =
    rw (is_visible-cons community j k e tree) (elim (Bool-cases (j == k)) [
      | inl same ↦
          let gone : member k (oids_for community tree) ≡ false =
            member-oids_for community tree h.1 k
            ∙ ap (sees community) (ap (λ x. lookup x tree) (sym ((eq_iff j k).0 same)) ∙ h.0) in
          ground (arith, same, gone)
      | inr other ↦ ground (arith, other, member-oids_for community tree h.1 k)
    ])

first_after-none :
    (oid : String) (l : List String)
    → first_after oid l ≡ none
    → (k : String) → member k l ≡ true
    → lt_string oid k ≡ false
unfolding first_after
first_after-none oid [] h k m = ground arith
first_after-none oid (s ∷ l) h k m = elim (Bool-cases (lt_string oid s)) [
  | inl above ↦ absurd (ground (arith, h, above))
  | inr below ↦ elim (Bool-cases (s == k)) [
    | inl same ↦ rw (← (eq_iff s k).0 same) below
    | inr other ↦ first_after-none oid l (ground (arith, h, below)) k (ground (arith, m, other))
  ]
]

All-member :
    (s : String) (l : List String)
    → All (λ t. lt_string t s ≡ false) l
    → (j : String) → member j l ≡ true
    → lt_string j s ≡ false
All-member s [] h j m = ground arith
All-member s (t ∷ l) h j m = elim (Bool-cases (t == j)) [
  | inl same ↦ rw (← (eq_iff t j).0 same) h.0
  | inr other ↦ All-member s l h.1 j (ground (arith, m, other))
]

least :
    (s : String) (l : List String)
    → All (λ t. lt_string t s ≡ false) l
    → (j : String) → member j (s ∷ l) ≡ true
    → lt_string j s ≡ false
least s l h j m = elim (Bool-cases (s == j)) [
  | inl same ↦ rw (← (eq_iff s j).0 same) (lt_string_irrefl s)
  | inr other ↦ All-member s l h j (ground (arith, m, other))
]

first_after-some :
    (oid k : String) (l : List String)
    → IsSorted l
    → first_after oid l ≡ some k
    → (member k l ≡ true)
      × (lt_string oid k ≡ true)
      × ((j : String) → member j l ≡ true → lt_string oid j ≡ true → lt_string j k ≡ false)
unfolding first_after IsSorted
first_after-some oid k [] h g = ground arith
first_after-some oid k (s ∷ l) h g = elim (Bool-cases (lt_string oid s)) [
  | inl above ↦
      let same : s ≡ k = ground (arith, g, above) in
      subst
        (λ x.
          (member x (s ∷ l) ≡ true)
          × (lt_string oid x ≡ true)
          × ((j : String)
              → member j (s ∷ l) ≡ true
              → lt_string oid j ≡ true
              → lt_string j x ≡ false))
        same (rw (same_key s) refl, above, λ j m up. least s l h.0 j m)
  | inr below ↦
      let rest = first_after-some oid k l h.1 (ground (arith, g, below)) in
      (
        ground (arith, rest.0),
        rest.1,
        λ j m up. elim (Bool-cases (s == j)) [
          | inl same ↦ absurd (ground (arith, up, below, ap (lt_string oid) ((eq_iff s j).0 same)))
          | inr other ↦ rest.2 j (ground (arith, m, other)) up
        ],
      )
]

-- GetNextEntry, for a community that it knows and a tree in which each identifier stands once with
-- an entry that names it: either no visible identifier is above the given one and the answer is the
-- error "No next OID found", or the answer is the tree's entry of the least visible one above it.
pub get_next_entry-IsNext :
    (sorting : Sorting) (oid community : String) (tree : MibTree)
    → is_refused community ≡ false
    → IsTree tree
    → (IsLast oid community tree × (get_next_entry sorting oid community tree ≡ inl no_next))
      ⊎ ((e : MibEntry) × (get_next_entry sorting oid community tree ≡ inr e)
          × (lookup e.oid tree ≡ some e)
          × IsNext oid community tree e.oid)
unfolding get_next_entry IsTree IsNext IsLast
get_next_entry-IsNext sorting oid community tree known h =
    let oids = sorting.sort (oids_for community tree) in
    let in_oids : (j : String) → is_visible community j tree ≡ true → member j oids ≡ true =
      λ j seen.
        sorting.member-sort j (oids_for community tree)
        ∙ member-oids_for community tree h.0 j
        ∙ seen in
    elim (Option-cases (first_after oid oids)) [
      | inl last ↦
          inl (λ j seen. first_after-none oid oids last j (in_oids j seen), rw (known, last) refl)
      | inr (k, found) ↦
          let first =
            first_after-some oid k oids (sorting.sort-IsSorted (oids_for community tree)) found in
          let seen : is_visible community k tree ≡ true =
            sym (member-oids_for community tree h.0 k)
            ∙ sym (sorting.member-sort k (oids_for community tree))
            ∙ first.0 in
          elim (Option-cases (lookup k tree)) [
            | inl missing ↦ absurd (ground (arith, ap (sees community) missing, seen))
            | inr (e, at) ↦
                let same = h.1 k e at in
                inr (
                  e,
                  rw (known, found) (ap inr (ap entry_at at)),
                  ap (λ x. lookup x tree) same ∙ at,
                  rw same (seen, first.1, λ j see up. first.2 j (in_oids j see) up),
                )
          ]
    ]

pub IsTree-keys : (tree : MibTree) → IsTree tree → HasDistinctKeys tree
unfolding IsTree
IsTree-keys tree h = h.0
