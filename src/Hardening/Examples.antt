-- ===== src/Hardening/Examples.antt =====
-- Hardening with the default options.
use sssonector.Prelude.{
  Bool, List, String, [], arith, false, member, none, not, refl, suc, true, zero, ℕ, ◌||◌, ◌∷◌, ◌≡◌,
}
use sssonector.Prelude.{string_eq}
use sssonector.Hardening.{
  Call, SecurityManager, SecurityOptions, apply, cap_name, capbset_drop, core, drop_capabilities,
  drop_from, get_default_options, keeps, load_filter, map_min_addr, mlockall, no_new_privs, nofile,
  securebits, set_memory_protections, set_process_security, set_resource_limits, setrlimit,
  start_stack,
}
use sssonector.Hardening.Plan.{apply-plan, make_all, plan}
use sssonector.Hardening.Capabilities.{apply-dropped, dropped}

abbrev willing : List Call → Call → Bool
willing made call = true

-- This kernel locks no memory.
abbrev unlocking : List Call → Call → Bool
unlocking made no_new_privs = true
unlocking made securebits = true
unlocking made mlockall = false
unlocking made map_min_addr = true
unlocking made start_stack = true
unlocking made load_filter = true
unlocking made (setrlimit resource n) = true
unlocking made (capbset_drop i) = true

abbrev options : SecurityOptions
options = record {
  no_new_privs = true;
  secure_exec = false;
  drop_privileges = true;
  retain_caps = "CAP_1" ∷ [];
  mlock = true;
  stack_protect = false;
  randomize_va = false;
  seccomp_mode = "disabled";
  allowed_syscalls = [];
  no_core_dump = true;
  rlimit_fsize = 0;
  rlimit_nofile = 1024;
  rlimit_nproc = 0;
}

abbrev manager : SecurityManager
manager = record { seccomp_filter = none; options = options }

abbrev calls : List Call
calls =
    no_new_privs
    ∷ mlockall
    ∷ setrlimit core 0
    ∷ setrlimit nofile 1024
    ∷ capbset_drop 0
    ∷ capbset_drop 2
    ∷ []

applied_test : apply 2 willing manager [] ≡ (true, calls)
unfolding apply set_process_security set_memory_protections set_resource_limits drop_capabilities
    drop_from keeps cap_name
applied_test = refl

locked_test : apply 2 unlocking manager [] ≡ (false, no_new_privs ∷ [])
unfolding apply set_process_security set_memory_protections set_resource_limits drop_capabilities
    drop_from keeps cap_name
locked_test = refl

apply-plan_example : apply 2 willing manager [] ≡ make_all willing (plan 2 manager) []
apply-plan_example = apply-plan 2 willing manager []

apply-dropped_example : dropped 1 calls ≡ not (keeps ("CAP_1" ∷ []) 1)
apply-dropped_example = apply-dropped 2 willing manager calls 1 applied_test refl (omega arith)

-- The default names are not of the form that the loop compares with: none of 41 capabilities is kept.
abbrev keeps_any : List String → ℕ → Bool
keeps_any retain_caps zero = false
keeps_any retain_caps (suc n) = keeps retain_caps n || keeps_any retain_caps n

default_caps_test : keeps_any (get_default_options.retain_caps) 41 ≡ false
unfolding keeps cap_name get_default_options
default_caps_test = refl

-- The default list does not allow futex, nor exit_group.
futex_test : member "futex" (get_default_options.allowed_syscalls) ≡ false
unfolding get_default_options
futex_test = refl

exit_group_test : member "exit_group" (get_default_options.allowed_syscalls) ≡ false
unfolding get_default_options
exit_group_test = refl
