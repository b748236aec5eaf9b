-- ===== src/Pool/Moves.antt =====
-- How each operation moves the counters and the number of idle connections.
use sssonector.Prelude.{
  Bool, Bool-cases, List, Option, [], arith, dec_le, false, if◌then◌else◌, inl, inr, length, le→leb,
  ltb, nat_eq, none, refl, some, true, ℕ, ◌+◌, ◌∷◌, ◌≡◌, ◌≤◌,
}
use sssonector.Pool.{
  GetResult, Pool, PutResult, begin_get, check_active, check_idle, close, creating, deactivate,
  enlist, err_factory, finish_get, got, health_check, is_stale, keys, put, put_closed, put_ok,
  take_idle, try_factory, update,
}

abbrev pub is_handed : GetResult → ℕ
is_handed (got c) = 1
is_handed creating = 1
is_handed _ = 0

abbrev pub is_failed : GetResult → ℕ
is_failed err_factory = 1
is_failed _ = 0

abbrev pub is_put : PutResult → ℕ
is_put put_ok = 1
is_put put_closed = 0

take_idle_kept :
    (now : ℕ) (alive : ℕ → Bool) (idle : List ℕ) (p : Pool)
    → p.began + length idle ≤ p.max_active + p.ended
    → let (p', r) = take_idle now alive idle p in
      (p'.max_active ≡ p.max_active)
      × (p'.began ≡ p.began + is_handed r)
      × (p'.ended ≡ p.ended)
      × (p'.began + length p'.idle ≤ p.max_active + p.ended)
unfolding take_idle
take_idle_kept now alive [] p h = elim (dec_le (p.max_active + p.ended) p.began) [
  | yes full ↦
      rw (le→leb (p.max_active + p.ended) p.began full) (refl, omega arith, refl, omega arith)
  | no room ↦ ground arith
]
take_idle_kept now alive (c ∷ rest) p h = elim (Bool-cases (is_stale now alive p c)) [
  | inl stale ↦
      rw stale
        (take_idle_kept now alive rest (record p { idle = rest; shut = c ∷ p.shut }) (omega arith))
  | inr fresh ↦ rw fresh (refl, refl, refl, omega arith)
]

check_idle-length :
    (now : ℕ) (alive : ℕ → Bool) (idle : List ℕ) (p : Pool)
    → length (check_idle now alive idle p).0 ≤ length idle
unfolding check_idle
check_idle-length now alive [] p = omega arith
check_idle-length now alive (c ∷ rest) p = ground (arith, check_idle-length now alive rest p)

check_active_kept :
    (alive : ℕ → Bool) (conns : List ℕ) (p : Pool)
    → let (p', n) = check_active alive conns p in
      (p'.max_active ≡ p.max_active)
      × (p'.began ≡ p.began)
      × (p'.ended ≡ p.ended + n)
      × (p'.idle ≡ p.idle)
unfolding check_active
check_active_kept alive [] p = (refl, refl, omega arith, refl)
check_active_kept alive (c ∷ rest) p =
    let failed = record p { fail_count = update c (p.fail_count c + 1) p.fail_count } in
    let gone = record failed {
      active_conns = deactivate c p.active_conns;
      ended = p.ended + 1;
      shut = c ∷ p.shut;
    } in
    let (a, b, d, e) = check_active_kept alive rest gone in
    elim (Bool-cases (alive c)) [
      | inl fine ↦ rw fine (check_active_kept alive rest p)
      | inr dead ↦ elim (Bool-cases (ltb p.max_retries (p.fail_count c + 1))) [
        | inl often ↦ rw dead (rw often (a, b, omega (arith, d), e))
        | inr seldom ↦ rw dead (rw seldom (check_active_kept alive rest failed))
      ]
    ]

if_either :
    {A : Type 0} (P : A → Type 0) (test : Bool) {x y : A} → P x → P y → P (if test then x else y)
if_either P true h g = h
if_either P false h g = g

-- How an operation moves the counters.
abbrev pub Moves : Pool → ℕ → ℕ → Pool → Type 0
Moves p hand back p' =
    (p'.max_active ≡ p.max_active)
    × (p'.began ≡ p.began + hand)
    × (p'.ended ≡ p.ended + back)
    × (p'.began + length p'.idle ≤ p.max_active + p'.ended)

module _ (p : Pool) (h : p.began + length p.idle ≤ p.max_active + p.ended) where
  pub begin_get-Moves :
      (now : ℕ) (alive : ℕ → Bool)
      → let (p', r) = begin_get now alive p in Moves p (is_handed r) 0 p'
  unfolding begin_get
  begin_get-Moves now alive =
      let (x, y, z, w) = take_idle_kept now alive p.idle p h in
      if_either (λ (q : Pool × GetResult). Moves p (is_handed q.1) 0 q.0) p.closed
        (refl, omega arith, omega arith, h) (x, y, omega (arith, z), omega (arith, w, z))

  enlist-Moves :
      (now : ℕ) (conns : Option (List (ℕ × Bool)))
      → let (p', r) = enlist now p conns in Moves p 0 (is_failed r) p'
  enlist-Moves now none = (refl, omega arith, omega arith, h)
  enlist-Moves now (some conns) = (refl, omega arith, omega arith, h)

  pub finish_get-Moves :
      (now : ℕ) (answers : ℕ → Bool)
      → let (p', r) = finish_get now answers p in Moves p 0 (is_failed r) p'
  unfolding finish_get
  finish_get-Moves now answers =
      if_either (λ (q : Pool × GetResult). Moves p 0 (is_failed q.1) q.0)
        (try_factory answers 0 p.max_retries) (enlist-Moves now p.active_conns)
        (refl, omega arith, refl, omega arith)

  pub put-Moves : (now c : ℕ) → let (p', r) = put now c p in Moves p 0 (is_put r) p'
  unfolding put
  put-Moves now c =
      let Q = λ (q : Pool × PutResult). Moves p 0 (is_put q.1) q.0 in
      if_either Q p.closed (refl, omega arith, omega arith, h)
        (if_either Q (ltb p.max_retries (p.fail_count c)) (refl, omega arith, refl, omega arith)
          (if_either Q (ltb (length p.idle) p.max_idle) (refl, omega arith, refl, omega arith)
            (refl, omega arith, refl, omega arith)))

  pub close-Moves : Moves p 0 0 (close p)
  unfolding close
  close-Moves =
      if_either (Moves p 0 0) p.closed (refl, omega arith, omega arith, h)
        (refl, omega arith, omega arith, omega arith)

  pub health_check-Moves :
      (now : ℕ) (alive : ℕ → Bool) → let (p', n) = health_check now alive p in Moves p 0 n p'
  unfolding health_check
  health_check-Moves now alive =
      let (kept, shut') = check_idle now alive p.idle p in
      let fewer = check_idle-length now alive p.idle p in
      let (x, y, z, w) =
        check_active_kept alive (keys p.active_conns) (record p { idle = kept; shut = shut' }) in
      if_either (λ (q : Pool × ℕ). Moves p 0 q.1 q.0) p.closed (refl, omega arith, omega arith, h)
        (x, omega (arith, y), z, rw w (omega (arith, y, z, fewer)))
