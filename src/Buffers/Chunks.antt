-- ===== src/Buffers/Chunks.antt =====
-- internal/pool/buffer.go: the pool of chunks of one size, of which each Get makes a new one where it
-- gets no item.
use mathlib.Core.Path.{subst}
use sssonector.Prelude.{
  All, Bool-cases, List, Option, Option-cases, [], ap, eqb, eqb_iff, if◌then◌else◌, inl, inr, leb,
  none, not, refl, replicate, some, suc, sym, true, u64, ℕ, ◌∙◌, ◌∷◌, ◌≡◌,
}
use sssonector.Buffers.{Slice, cap, decrement, get_elem?, remove_at}
use sssonector.Buffers.Runs.{get_elem?-All, length-replicate, remove_at-All}

pub record ChunkPool : Type 0 where
  pub pool : List Slice
  pub size : ℕ
  pub capacity : ℕ

-- Sizes that are not negative; `none` is the panic.
unfoldable pub new_chunk_pool : ℕ → Option ChunkPool
new_chunk_pool size =
    if leb size 0 then none else some (record { pool = []; size = size; capacity = 0 })

-- A chunk that Get hands out.
abbrev pub hand_out : Slice → ChunkPool → ChunkPool × Slice
hand_out buf p =
    (record p { capacity = if eqb (cap buf) p.size then u64 (suc p.capacity) else p.capacity }, buf)

unfoldable pub get_chunk : Option ℕ → ChunkPool → ChunkPool × Slice
get_chunk place p =
    let new : Slice = record { array = replicate p.size 0; shown = p.size } in
    elim place [
      | none ↦ hand_out new p
      | some n ↦ elim (get_elem? p.pool n) [
        | none ↦ hand_out new p
        | some buf ↦ hand_out buf (record p { pool = remove_at n p.pool })
      ]
    ]

-- A nil slice has the capacity 0, which is not the size.
unfoldable pub put_chunk : Slice → ChunkPool → ChunkPool
put_chunk chunk p =
    if not (eqb (cap chunk) p.size)
    then p
    else record p { pool = chunk ∷ p.pool; capacity = decrement p.capacity }

-- Every item has the pool's size as its capacity.
abbrev pub IsSized : ChunkPool → Type 0
IsSized p = All (λ buf. cap buf ≡ p.size) p.pool

-- What a Get leaves and hands out.
abbrev pub Hands : ChunkPool → ChunkPool × Slice → Type 0
Hands p result =
    (cap result.1 ≡ p.size)
    × (result.0.capacity ≡ u64 (suc p.capacity))
    × (result.0.size ≡ p.size)
    × IsSized result.0

hand_out-Hands :
    (buf : Slice) (p q : ChunkPool)
    → cap buf ≡ p.size
    → q.size ≡ p.size
    → q.capacity ≡ p.capacity
    → IsSized q
    → Hands p (hand_out buf q)
hand_out-Hands buf p q fits size capacity sized =
    let same : eqb (cap buf) q.size ≡ true = (eqb_iff (cap buf) q.size).1 (fits ∙ sym size) in
    (fits, rw same (ap (λ n. u64 (suc n)) capacity), size, sized)

-- In a pool whose items all have the size as their capacity, as in a new one, a Get hands out a chunk
-- of that capacity, counts it, and leaves such a pool.
pub get_chunk-Hands : (place : Option ℕ) (p : ChunkPool) → IsSized p → Hands p (get_chunk place p)
unfolding get_chunk
get_chunk-Hands none p h =
    hand_out-Hands (record { array = replicate p.size 0; shown = p.size }) p p
      (length-replicate p.size) refl refl h
get_chunk-Hands (some n) p h = elim (Option-cases (get_elem? p.pool n)) [
  | inl missing ↦
      let new : Slice = record { array = replicate p.size 0; shown = p.size } in
      let step : get_chunk (some n) p ≡ hand_out new p = rw (get_chunk, missing) refl in
      subst (Hands p) (sym step) (hand_out-Hands new p p (length-replicate p.size) refl refl h)
  | inr (buf, at) ↦
      let left = record p { pool = remove_at n p.pool } in
      let step : get_chunk (some n) p ≡ hand_out buf left = rw (get_chunk, at) refl in
      subst (Hands p) (sym step) (
        hand_out-Hands buf p left (get_elem?-All (λ b. cap b ≡ p.size) n p.pool buf h at) refl refl
          (remove_at-All (λ b. cap b ≡ p.size) n p.pool h))
]

-- A Put leaves such a pool too, whatever is put.
pub put_chunk-IsSized : (chunk : Slice) (p : ChunkPool) → IsSized p → IsSized (put_chunk chunk p)
unfolding put_chunk
put_chunk-IsSized chunk p h = elim (Bool-cases (eqb (cap chunk) p.size)) [
  | inl same ↦ rw same ((eqb_iff (cap chunk) p.size).0 same, h)
  | inr other ↦ rw other h
]
