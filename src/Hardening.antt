-- ===== src/Hardening.antt =====
-- internal/security/manager.go: hardening of the process. The kernel is an argument: whether it accepts
-- a call after the calls that it accepted before. A call is named by what it sets; an int that is not
-- positive is 0. The constant CAP_LAST_CAP of the package unix is a parameter, and below 100.
-- Of the options, those that the code reads.
pub mod Plan
pub mod Capabilities
mod Examples
use sssonector.Prelude.{
  Bool, List, Option, String, [], concat, eqb, false, if◌then◌else◌, ltb, member, none, not, some,
  suc, true, zero, ℕ, ◌%◌, ◌&&◌, ◌++◌, ◌/◌, ◌==◌, ◌∷◌,
}
use sssonector.Prelude.{string_eq}

pub data Resource : Type 0 where
  core fsize nofile nproc : Resource

pub data Call : Type 0 where
  no_new_privs securebits mlockall map_min_addr start_stack load_filter : Call
  setrlimit : Resource → ℕ → Call
  capbset_drop : ℕ → Call

pub record SecurityOptions : Type 0 where
  pub no_new_privs : Bool
  pub secure_exec : Bool
  pub drop_privileges : Bool
  pub retain_caps : List String
  pub mlock : Bool
  pub stack_protect : Bool
  pub randomize_va : Bool
  pub seccomp_mode : String
  pub allowed_syscalls : List String
  pub no_core_dump : Bool
  pub rlimit_fsize : ℕ
  pub rlimit_nofile : ℕ
  pub rlimit_nproc : ℕ

-- The filter as the calls that it allows.
pub record SecurityManager : Type 0 where
  pub seccomp_filter : Option (List ℕ)
  pub options : SecurityOptions

-- The package seccomp: whether it makes a filter and takes a rule, and the number of a name.
module _ (new_filter : Bool) (get_syscall_from_name : String → Option ℕ) (add_rule : ℕ → Bool) where
  unfoldable pub add_rules : List String → Option (List ℕ)
  add_rules [] = some []
  add_rules (name ∷ names) = elim (get_syscall_from_name name) [
    | none ↦ none
    | some id ↦
        if not (add_rule id)
        then none
        else elim (add_rules names) [ none ↦ none | some ids ↦ some (id ∷ ids) ]
  ]

  unfoldable pub init_seccomp : SecurityOptions → Option (List ℕ)
  init_seccomp options = if not new_filter then none else add_rules options.allowed_syscalls

  -- `none` is an error.
  unfoldable pub new_security_manager : SecurityOptions → Option SecurityManager
  new_security_manager options =
      if options.seccomp_mode == "disabled"
      then some (record { seccomp_filter = none; options = options })
      else elim (init_seccomp options) [
        | none ↦ none
        | some ids ↦ some (record { seccomp_filter = some ids; options = options })
      ]

-- What is done from the calls that were accepted so far: whether without an error, and the accepted
-- calls after it.
abbrev pub Action : Type 0
Action = List Call → Bool × List Call

abbrev pub skip : Action
skip made = (true, made)

abbrev pub continue : Action → Bool × List Call → Bool × List Call
continue next (true, made) = next made
continue next (false, made) = (false, made)

abbrev pub then_do : Action → Action → Action
then_do first next made = continue next (first made)

abbrev pub when : Bool → Action → Action
when asked action = if asked then action else skip

-- "CAP_%d" of a number below 100.
abbrev pub digit : ℕ → String
digit n =
    if eqb n 0
    then "0"
    else if eqb n 1
    then "1"
    else if eqb n 2
    then "2"
    else if eqb n 3
    then "3"
    else if eqb n 4
    then "4"
    else if eqb n 5
    then "5"
    else if eqb n 6
    then "6"
    else if eqb n 7
    then "7"
    else if eqb n 8
    then "8"
    else "9"

unfoldable pub cap_name : ℕ → String
cap_name i =
    if ltb i 10
    then concat "CAP_" (digit i)
    else concat "CAP_" (concat (digit (i / 10)) (digit (i % 10)))

-- The loop over RetainCaps.
unfoldable pub keeps : List String → ℕ → Bool
keeps retain_caps i = member (cap_name i) retain_caps

abbrev pub has_filter : SecurityManager → Bool
has_filter m = elim m.seccomp_filter [ none ↦ false | some _ ↦ true ]

module _ (cap_last_cap : ℕ) (kernel : List Call → Call → Bool) where
  abbrev pub attempt : Call → Action
  attempt call made = if kernel made call then (true, made ++ (call ∷ [])) else (false, made)

  unfoldable pub set_process_security : SecurityOptions → Action
  set_process_security o =
      then_do (when o.no_new_privs (attempt no_new_privs)) (when o.secure_exec (attempt securebits))

  unfoldable pub set_memory_protections : SecurityOptions → Action
  set_memory_protections o = then_do (when o.mlock (attempt mlockall)) (
      then_do (when o.stack_protect (attempt map_min_addr))
        (when o.randomize_va (attempt start_stack)))

  abbrev pub limit_to : Resource → ℕ → Action
  limit_to resource n = when (ltb 0 n) (attempt (setrlimit resource n))

  unfoldable pub set_resource_limits : SecurityOptions → Action
  set_resource_limits o = then_do (when o.no_core_dump (attempt (setrlimit core 0))) (
      then_do (limit_to fsize o.rlimit_fsize)
        (then_do (limit_to nofile o.rlimit_nofile) (limit_to nproc o.rlimit_nproc)))

  -- The loop from i on, with so many turns left.
  unfoldable pub drop_from : List String → ℕ → ℕ → Action
  drop_from retain_caps zero i = skip
  drop_from retain_caps (suc left) i =
      then_do (when (not (keeps retain_caps i)) (attempt (capbset_drop i)))
        (drop_from retain_caps left (suc i))

  unfoldable pub drop_capabilities : SecurityOptions → Action
  drop_capabilities o = drop_from o.retain_caps (suc cap_last_cap) 0

  unfoldable pub apply : SecurityManager → Action
  apply m =
      let o = m.options in
      then_do (set_process_security o) (
        then_do (set_memory_protections o) (
          then_do (set_resource_limits o) (
            then_do (when o.drop_privileges (drop_capabilities o))
              (when (not (o.seccomp_mode == "disabled") && has_filter m) (attempt load_filter)))))

unfoldable pub get_default_options : SecurityOptions
get_default_options = record {
  no_new_privs = true;
  secure_exec = true;
  drop_privileges = true;
  retain_caps = "CAP_NET_ADMIN" ∷ "CAP_NET_RAW" ∷ "CAP_NET_BIND_SERVICE" ∷ [];
  mlock = true;
  stack_protect = true;
  randomize_va = true;
  seccomp_mode = "filtered";
  allowed_syscalls =
      "read" ∷ "write" ∷ "open" ∷ "close" ∷ "stat" ∷ "fstat" ∷ "lstat" ∷ "poll" ∷ "lseek" ∷ "mmap"
      ∷ "mprotect" ∷ "munmap" ∷ "brk" ∷ "rt_sigaction" ∷ "rt_sigprocmask" ∷ "rt_sigreturn" ∷ "ioctl"
      ∷ "pread64" ∷ "pwrite64" ∷ "readv" ∷ "writev" ∷ "pipe" ∷ "select" ∷ "sched_yield" ∷ "mremap"
      ∷ "msync" ∷ "mincore" ∷ "madvise" ∷ "socket" ∷ "connect" ∷ "accept" ∷ "sendto" ∷ "recvfrom"
      ∷ "sendmsg" ∷ "recvmsg" ∷ "bind" ∷ "listen" ∷ "getsockname" ∷ "getpeername" ∷ "socketpair"
      ∷ "setsockopt" ∷ "getsockopt" ∷ "clone" ∷ "fork" ∷ "vfork" ∷ "execve" ∷ "exit" ∷ "wait4"
      ∷ "kill" ∷ "uname" ∷ "fcntl" ∷ "flock" ∷ "fsync" ∷ "fdatasync" ∷ "truncate" ∷ "ftruncate"
      ∷ "getcwd" ∷ "chdir" ∷ "rename" ∷ "mkdir" ∷ "rmdir" ∷ "creat" ∷ "link" ∷ "unlink" ∷ "symlink"
      ∷ "readlink" ∷ "chmod" ∷ "fchmod" ∷ "chown" ∷ "fchown" ∷ "lchown" ∷ "umask" ∷ "gettimeofday"
      ∷ "getrlimit" ∷ "getrusage" ∷ "sysinfo" ∷ "times" ∷ "ptrace" ∷ "getuid" ∷ "syslog" ∷ "getgid"
      ∷ "setuid" ∷ "setgid" ∷ "geteuid" ∷ "getegid" ∷ "setpgid" ∷ "getppid" ∷ "getpgrp" ∷ "setsid"
      ∷ "setreuid" ∷ "setregid" ∷ "getgroups" ∷ "setgroups" ∷ "setresuid" ∷ "getresuid"
      ∷ "setresgid" ∷ "getresgid" ∷ "getpgid" ∷ "setfsuid" ∷ "setfsgid" ∷ "getsid" ∷ "capget"
      ∷ "capset" ∷ "rt_sigpending" ∷ "rt_sigtimedwait" ∷ "rt_sigqueueinfo" ∷ "rt_sigsuspend"
      ∷ "sigaltstack" ∷ "utime" ∷ "mknod" ∷ "uselib" ∷ "personality" ∷ "ustat" ∷ "statfs"
      ∷ "fstatfs" ∷ "sysfs" ∷ "getpriority" ∷ "setpriority" ∷ "sched_setparam" ∷ "sched_getparam"
      ∷ [];
  no_core_dump = true;
  rlimit_fsize = 1073741824;
  rlimit_nofile = 1024;
  rlimit_nproc = 64;
}
