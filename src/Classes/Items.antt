-- ===== src/Classes/Items.antt =====
-- internal/buffer/pool.go: the items of the classes.
use sssonector.Prelude.{
  All, List, Option, Option-cases, [], ap, arith, inl, inr, length, none, refl, some, suc, zero, ℕ,
  ◌*◌, ◌∙◌, ◌∷◌, ◌≡◌, ◌≤◌,
}
use mathlib.Core.Path.{subst}
use sssonector.Buffers.{Slice, cap, get_elem?}
use sssonector.Buffers.Runs.{get_elem?-All, length-replicate, remove_at-All}
use sssonector.Classes.{Class, class_at, get_item, make_classes, set_items}
use sssonector.Classes.Doubling.{shifted}

-- The class's size is n, and so is the capacity of each of its items.
abbrev pub Holds : ℕ → Class → Type 0
Holds n c = (c.size ≡ n) × All (λ buf. cap buf ≡ n) c.items

-- The class at place i holds what is `s << i`.
abbrev pub AllHold : ℕ → List Class → Type 0
AllHold s cs = (i : ℕ) (c : Class) → class_at i cs ≡ some c → Holds (shifted s i) c

pub make_classes-AllHold : (n s : ℕ) → AllHold s (make_classes n s)
unfolding make_classes class_at
make_classes-AllHold zero s i c h = absurd (ground (arith, h))
make_classes-AllHold (suc n) s zero c h =
    subst (Holds s) {x = record { size = s; items = [] }} (ground (arith, h)) (refl, tt)
make_classes-AllHold (suc n) s (suc i) c h = make_classes-AllHold n (s * 2) i c h

pub set_items-AllHold :
    (s j : ℕ) (items : List Slice) (cs : List Class)
    → AllHold s cs
    → All (λ buf. cap buf ≡ shifted s j) items
    → AllHold s (set_items j items cs)
unfolding set_items class_at
set_items-AllHold s j items [] h new i c at = h i c at
set_items-AllHold s zero items (d ∷ cs) h new zero c at =
    subst (Holds s) (ground (arith, at)) ((h zero d refl).0, new)
set_items-AllHold s zero items (d ∷ cs) h new (suc i) c at = h (suc i) c at
set_items-AllHold s (suc j) items (d ∷ cs) h new zero c at = h zero c at
set_items-AllHold s (suc j) items (d ∷ cs) h new (suc i) c at =
    set_items-AllHold (s * 2) j items cs (λ k. h (suc k)) new i c at

pub set_items-length :
    (j : ℕ) (items : List Slice) (cs : List Class) → length (set_items j items cs) ≡ length cs
unfolding set_items
set_items-length j items [] = refl
set_items-length zero items (d ∷ cs) = refl
set_items-length (suc j) items (d ∷ cs) = ap suc (set_items-length j items cs)

pub class_at-none : (n : ℕ) (cs : List Class) → class_at n cs ≡ none → length cs ≤ n
unfolding class_at
class_at-none n [] h = omega arith
class_at-none zero (c ∷ cs) h = absurd (ground (arith, h))
class_at-none (suc n) (c ∷ cs) h = omega (arith, class_at-none n cs h)

pub class_at_beyond : (n : ℕ) (cs : List Class) → length cs ≤ n → class_at n cs ≡ none
unfolding class_at
class_at_beyond n [] h = refl
class_at_beyond zero (c ∷ cs) h = absurd (omega (arith, h))
class_at_beyond (suc n) (c ∷ cs) h = class_at_beyond n cs (omega (arith, h))

pub get_item-Holds :
    (choice : Option ℕ) (n : ℕ) (c : Class)
    → Holds n c
    → (cap (get_item choice c).0 ≡ n) × All (λ buf. cap buf ≡ n) (get_item choice c).1
unfolding get_item
get_item-Holds none n c h = (length-replicate c.size ∙ h.0, h.1)
get_item-Holds (some i) n c h = elim (Option-cases (get_elem? c.items i)) [
  | inl missing ↦ rw (get_item, missing) (length-replicate c.size ∙ h.0, h.1)
  | inr (buf, at) ↦
      rw (get_item, at)
        (
          get_elem?-All (λ b. cap b ≡ n) i c.items buf h.1 at,
          remove_at-All (λ b. cap b ≡ n) i c.items h.1,
        )
]
