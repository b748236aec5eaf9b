-- ===== src/Hardening/Capabilities.antt =====
-- internal/security/manager.go: what the process has done when Apply returns.
use mathlib.Core.List.{append-nil, append_assoc}
use mathlib.Core.Path.{subst}
use sssonector.Prelude.{
  Bool, Bool-cases, List, String, [], ap, arith, drop, eqb, eqb_iff, false, inl, inr, ltb, not,
  refl, suc, sym, true, zero, ℕ, ◌&&◌, ◌++◌, ◌+◌, ◌<◌, ◌==◌, ◌||◌, ◌∙◌, ◌∷◌, ◌≡◌, ◌≤◌,
}
use sssonector.Prelude.{string_eq}
use sssonector.Hardening.{
  Call, Resource, SecurityManager, SecurityOptions, apply, capbset_drop, core, fsize, has_filter,
  keeps, load_filter, map_min_addr, mlockall, no_new_privs, nofile, nproc, securebits, setrlimit,
  start_stack,
}
use sssonector.Hardening.Plan.{
  apply-plan, drops, limit_calls, make_all, memory_calls, only_if, plan, process_calls,
  resource_calls,
}

abbrev is_drop : ℕ → Call → Bool
is_drop i no_new_privs = false
is_drop i securebits = false
is_drop i mlockall = false
is_drop i map_min_addr = false
is_drop i start_stack = false
is_drop i load_filter = false
is_drop i (setrlimit resource n) = false
is_drop i (capbset_drop j) = eqb j i

-- Whether the capability was dropped.
abbrev pub dropped : ℕ → List Call → Bool
dropped i [] = false
dropped i (call ∷ calls) = is_drop i call || dropped i calls

dropped-append :
    (i : ℕ) (calls others : List Call)
    → dropped i (calls ++ others) ≡ dropped i calls || dropped i others
dropped-append i [] others = refl
dropped-append i (call ∷ calls) others =
    let ih = dropped-append i calls others in ground (arith, ih)

-- A list of which no call drops the capability.
HasNone : ℕ → List Call → Type 0
HasNone i calls = dropped i calls ≡ false

dropped_behind :
    (i : ℕ) (calls others : List Call)
    → HasNone i calls
    → dropped i (calls ++ others) ≡ dropped i others
unfolding HasNone
dropped_behind i calls others h = rw (dropped-append i calls others, h) refl

dropped_before :
    (i : ℕ) (calls others : List Call)
    → HasNone i others
    → dropped i (calls ++ others) ≡ dropped i calls
unfolding HasNone
dropped_before i calls others h = rw (dropped-append i calls others, h) (ground arith)

HasNone-append :
    (i : ℕ) (calls others : List Call)
    → HasNone i calls
    → HasNone i others
    → HasNone i (calls ++ others)
unfolding HasNone
HasNone-append i calls others h g = rw (dropped-append i calls others, h, g) refl

HasNone-only_if :
    (i : ℕ) (asked : Bool) (call : Call)
    → is_drop i call ≡ false
    → HasNone i (only_if asked (call ∷ []))
unfolding HasNone
HasNone-only_if i true call h = rw h refl
HasNone-only_if i false call h = refl

process_none : (i : ℕ) (o : SecurityOptions) → HasNone i (process_calls o)
process_none i o =
    HasNone-append i _ _ (HasNone-only_if i o.no_new_privs no_new_privs refl)
      (HasNone-only_if i o.secure_exec securebits refl)

memory_none : (i : ℕ) (o : SecurityOptions) → HasNone i (memory_calls o)
memory_none i o = HasNone-append i _ _ (HasNone-only_if i o.mlock mlockall refl) (
    HasNone-append i _ _ (HasNone-only_if i o.stack_protect map_min_addr refl)
      (HasNone-only_if i o.randomize_va start_stack refl))

limit_none : (i : ℕ) (resource : Resource) (n : ℕ) → HasNone i (limit_calls resource n)
limit_none i resource n = HasNone-only_if i (ltb 0 n) (setrlimit resource n) refl

resource_none : (i : ℕ) (o : SecurityOptions) → HasNone i (resource_calls o)
resource_none i o =
    HasNone-append i _ _ (HasNone-only_if i o.no_core_dump (setrlimit core 0) refl) (
      HasNone-append i _ _ (limit_none i fsize o.rlimit_fsize) (
        HasNone-append i _ _ (limit_none i nofile o.rlimit_nofile)
          (limit_none i nproc o.rlimit_nproc)))

drops_below :
    (retain_caps : List String) (left from i : ℕ)
    → i < from
    → dropped i (drops retain_caps left from) ≡ false
unfolding drops
drops_below retain_caps zero from i h = refl
drops_below retain_caps (suc left) from i h = elim (Bool-cases (keeps retain_caps from)) [
  | inl kept ↦ rw (drops, kept) (drops_below retain_caps left (suc from) i (omega (arith, h)))
  | inr lost ↦
      let other : eqb from i ≡ false = ground (arith, h) in
      rw (drops, lost, other) (drops_below retain_caps left (suc from) i (omega (arith, h)))
]

dropped-drops :
    (retain_caps : List String) (left from i : ℕ)
    → from ≤ i
    → i < from + left
    → dropped i (drops retain_caps left from) ≡ not (keeps retain_caps i)
unfolding drops
dropped-drops retain_caps zero from i h g = absurd (omega (arith, h, g))
dropped-drops retain_caps (suc left) from i h g = elim (Bool-cases (eqb from i)) [
  | inl here ↦
      let same : from ≡ i = (eqb_iff from i).0 here in
      let after = drops_below retain_caps left (suc from) i (omega (arith, same)) in
      elim (Bool-cases (keeps retain_caps i)) [
        | inl kept ↦ rw (drops, same, kept) (drops_below retain_caps left (suc i) i (omega arith))
        | inr lost ↦ rw (drops, same, lost) (ground arith)
      ]
  | inr other ↦
      let ih =
        dropped-drops retain_caps left (suc from) i (ground (arith, other, h)) (omega (arith, g)) in
      elim (Bool-cases (keeps retain_caps from)) [
        | inl kept ↦ rw (drops, kept) ih
        | inr lost ↦ rw (drops, lost, other) ih
      ]
]

make_all_accepted :
    (kernel : List Call → Call → Bool) (calls made after : List Call)
    → make_all kernel calls made ≡ (true, after)
    → after ≡ made ++ calls
unfolding make_all
make_all_accepted kernel [] made after h = ground (arith, h, append-nil made)
make_all_accepted kernel (call ∷ calls) made after h = elim (Bool-cases (kernel made call)) [
  | inl accepted ↦
      make_all_accepted kernel calls (made ++ (call ∷ [])) after (ground (arith, accepted, h))
      ∙ append_assoc made (call ∷ []) calls
  | inr refused ↦ absurd (ground (arith, refused, h))
]

-- The first call that the kernel refused, and those behind it.
abbrev pub StopsIn : (List Call → Call → Bool) → List Call → List Call → Type 0
StopsIn kernel calls after =
    (call : Call) × (rest : List Call) × (calls ≡ after ++ (call ∷ rest))
    × (kernel after call ≡ false)

make_all_refused :
    (kernel : List Call → Call → Bool) (calls made after : List Call)
    → make_all kernel calls made ≡ (false, after)
    → StopsIn kernel (made ++ calls) after
unfolding make_all
make_all_refused kernel [] made after h = absurd (ground (arith, h))
make_all_refused kernel (call ∷ calls) made after h = elim (Bool-cases (kernel made call)) [
  | inl accepted ↦
      subst (λ l. StopsIn kernel l after) (append_assoc made (call ∷ []) calls)
        (make_all_refused kernel calls (made ++ (call ∷ [])) after (ground (arith, accepted, h)))
  | inr refused ↦
      let same : made ≡ after = ground (arith, refused, h) in
      subst (StopsIn kernel (made ++ (call ∷ calls))) same (call, calls, refl, refused)
]

module _ (cap_last_cap : ℕ) (kernel : List Call → Call → Bool) where
  -- Where Apply returns an error, the calls that were made are the plan's up to the first that the
  -- kernel refused, and none behind it was made.
  pub apply_fails :
      (m : SecurityManager) (after : List Call)
      → apply cap_last_cap kernel m [] ≡ (false, after)
      → StopsIn kernel (plan cap_last_cap m) after
  apply_fails m after h =
      make_all_refused kernel (plan cap_last_cap m) [] after
        (sym (apply-plan cap_last_cap kernel m []) ∙ h)

  -- Where Apply returns no error and the options drop privileges, a capability up to the last has been
  -- dropped just if no name to retain is CAP_ and its number.
  pub apply-dropped :
      (m : SecurityManager) (after : List Call) (i : ℕ)
      → apply cap_last_cap kernel m [] ≡ (true, after)
      → m.options.drop_privileges ≡ true
      → i ≤ cap_last_cap
      → dropped i after ≡ not (keeps m.options.retain_caps i)
  apply-dropped m after i h drop last =
      let o = m.options in
      let all : after ≡ plan cap_last_cap m =
        make_all_accepted kernel (plan cap_last_cap m) [] after
          (sym (apply-plan cap_last_cap kernel m []) ∙ h) in
      let own =
        dropped-drops o.retain_caps (suc cap_last_cap) 0 i (omega arith) (omega (arith, last)) in
      let filters = not (o.seccomp_mode == "disabled") && has_filter m in
      let filter = only_if filters (load_filter ∷ []) in
      let caps = only_if o.drop_privileges (drops o.retain_caps (suc cap_last_cap) 0) in
      ap (dropped i) all
      ∙ (dropped_behind i (process_calls o) _ (process_none i o)
          ∙ (dropped_behind i (memory_calls o) _ (memory_none i o)
              ∙ (dropped_behind i (resource_calls o) _ (resource_none i o)
                  ∙ (dropped_before i caps filter (HasNone-only_if i filters load_filter refl)
                      ∙ (ap (λ b. dropped i (only_if b (drops o.retain_caps (suc cap_last_cap) 0)))
                            drop
                          ∙ own)))))
