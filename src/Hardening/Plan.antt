-- ===== src/Hardening/Plan.antt =====
-- internal/security/manager.go: what Apply does, as one list of calls.
use sssonector.Prelude.{
  Bool, Bool-cases, List, String, [], ap, false, if◌then◌else◌, inl, inr, ltb, not, refl, suc, sym,
  true, zero, ℕ, ◌&&◌, ◌++◌, ◌==◌, ◌∙◌, ◌∷◌, ◌≡◌,
}
use sssonector.Prelude.{string_eq}
use sssonector.Hardening.{
  Action, Call, Resource, SecurityManager, SecurityOptions, apply, attempt, capbset_drop, continue,
  core, drop_capabilities, drop_from, fsize, has_filter, keeps, limit_to, load_filter, map_min_addr,
  mlockall, no_new_privs, nofile, nproc, securebits, set_memory_protections, set_process_security,
  set_resource_limits, setrlimit, start_stack, then_do, when,
}

abbrev pub only_if : Bool → List Call → List Call
only_if asked calls = if asked then calls else []

-- The capabilities from i on that no name keeps.
unfoldable pub drops : List String → ℕ → ℕ → List Call
drops retain_caps zero i = []
drops retain_caps (suc left) i =
    only_if (not (keeps retain_caps i)) (capbset_drop i ∷ []) ++ drops retain_caps left (suc i)

-- The calls that the options ask for, in their order.
abbrev pub process_calls : SecurityOptions → List Call
process_calls o =
    only_if o.no_new_privs (no_new_privs ∷ []) ++ only_if o.secure_exec (securebits ∷ [])

abbrev pub memory_calls : SecurityOptions → List Call
memory_calls o =
    only_if o.mlock (mlockall ∷ [])
    ++ (only_if o.stack_protect (map_min_addr ∷ []) ++ only_if o.randomize_va (start_stack ∷ []))

abbrev pub limit_calls : Resource → ℕ → List Call
limit_calls resource n = only_if (ltb 0 n) (setrlimit resource n ∷ [])

abbrev pub resource_calls : SecurityOptions → List Call
resource_calls o =
    only_if o.no_core_dump (setrlimit core 0 ∷ [])
    ++ (limit_calls fsize o.rlimit_fsize
        ++ (limit_calls nofile o.rlimit_nofile ++ limit_calls nproc o.rlimit_nproc))

abbrev pub plan : ℕ → SecurityManager → List Call
plan cap_last_cap m =
    let o = m.options in
    process_calls o
    ++ (memory_calls o
        ++ (resource_calls o
            ++ (only_if o.drop_privileges (drops o.retain_caps (suc cap_last_cap) 0)
                ++ only_if (not (o.seccomp_mode == "disabled") && has_filter m)
                    (load_filter ∷ []))))

-- The calls one after the other, up to the first that the kernel refuses.
unfoldable pub make_all : (List Call → Call → Bool) → List Call → Action
make_all kernel [] made = (true, made)
make_all kernel (call ∷ calls) made =
    let rest = make_all kernel calls (made ++ (call ∷ [])) in
    if kernel made call then rest else (false, made)

module _ (cap_last_cap : ℕ) (kernel : List Call → Call → Bool) where
  -- An action that makes the calls of a list.
  abbrev Makes : Action → List Call → Type 0
  Makes action calls = (made : List Call) → action made ≡ make_all kernel calls made

  make_all-append :
      (first next : List Call) (made : List Call)
      → make_all kernel (first ++ next) made
        ≡ continue (make_all kernel next) (make_all kernel first made)
  unfolding make_all
  make_all-append [] next made = refl
  make_all-append (call ∷ calls) next made = elim (Bool-cases (kernel made call)) [
    | inl accepted ↦ rw accepted (make_all-append calls next (made ++ (call ∷ [])))
    | inr refused ↦ rw refused refl
  ]

  continue-same :
      (f g : Action) (result : Bool × List Call)
      → ((made : List Call) → f made ≡ g made)
      → continue f result ≡ continue g result
  continue-same f g (true, made) h = h made
  continue-same f g (false, made) h = refl

  then_do-Makes :
      (a b : Action) (first next : List Call)
      → Makes a first
      → Makes b next
      → Makes (then_do a b) (first ++ next)
  then_do-Makes a b first next h g made =
      ap (continue b) (h made)
      ∙ (continue-same b (make_all kernel next) (make_all kernel first made) g
          ∙ sym (make_all-append first next made))

  when-Makes :
      (asked : Bool) (a : Action) (calls : List Call)
      → Makes a calls
      → Makes (when asked a) (only_if asked calls)
  unfolding make_all
  when-Makes true a calls h made = h made
  when-Makes false a calls h made = refl

  attempt-Makes : (call : Call) → Makes (attempt cap_last_cap kernel call) (call ∷ [])
  unfolding make_all
  attempt-Makes call made = refl

  drop_from-Makes :
      (retain_caps : List String) (left i : ℕ)
      → Makes (drop_from cap_last_cap kernel retain_caps left i) (drops retain_caps left i)
  unfolding drop_from drops make_all
  drop_from-Makes retain_caps zero i made = refl
  drop_from-Makes retain_caps (suc left) i made =
      then_do-Makes _ _ _ _ (when-Makes _ _ _ (attempt-Makes (capbset_drop i)))
        (drop_from-Makes retain_caps left (suc i)) made

  set_process_security-Makes :
      (o : SecurityOptions) → Makes (set_process_security cap_last_cap kernel o) (process_calls o)
  unfolding set_process_security
  set_process_security-Makes o =
      then_do-Makes _ _ _ _ (when-Makes _ _ _ (attempt-Makes no_new_privs))
        (when-Makes _ _ _ (attempt-Makes securebits))

  set_memory_protections-Makes :
      (o : SecurityOptions) → Makes (set_memory_protections cap_last_cap kernel o) (memory_calls o)
  unfolding set_memory_protections
  set_memory_protections-Makes o =
      then_do-Makes _ _ _ _ (when-Makes _ _ _ (attempt-Makes mlockall)) (
        then_do-Makes _ _ _ _ (when-Makes _ _ _ (attempt-Makes map_min_addr))
          (when-Makes _ _ _ (attempt-Makes start_stack)))

  limit_to-Makes :
      (resource : Resource) (n : ℕ)
      → Makes (limit_to cap_last_cap kernel resource n) (limit_calls resource n)
  limit_to-Makes resource n = when-Makes _ _ _ (attempt-Makes (setrlimit resource n))

  set_resource_limits-Makes :
      (o : SecurityOptions) → Makes (set_resource_limits cap_last_cap kernel o) (resource_calls o)
  unfolding set_resource_limits
  set_resource_limits-Makes o =
      then_do-Makes _ _ _ _ (when-Makes _ _ _ (attempt-Makes (setrlimit core 0))) (
        then_do-Makes _ _ _ _ (limit_to-Makes fsize o.rlimit_fsize) (
          then_do-Makes _ _ _ _ (limit_to-Makes nofile o.rlimit_nofile)
            (limit_to-Makes nproc o.rlimit_nproc)))

  -- Apply makes the calls that the options ask for in the order of the plan, up to the first that the
  -- kernel refuses, and fails just if there is one.
  pub apply-plan :
      (m : SecurityManager) (made : List Call)
      → apply cap_last_cap kernel m made ≡ make_all kernel (plan cap_last_cap m) made
  unfolding apply drop_capabilities
  apply-plan m = then_do-Makes _ _ _ _ (set_process_security-Makes m.options) (
      then_do-Makes _ _ _ _ (set_memory_protections-Makes m.options) (
        then_do-Makes _ _ _ _ (set_resource_limits-Makes m.options) (
          then_do-Makes _ _ _ _
            (when-Makes _ _ _ (drop_from-Makes m.options.retain_caps (suc cap_last_cap) 0))
            (when-Makes _ _ _ (attempt-Makes load_filter)))))
