-- ===== src/Mib/Tree.antt =====
-- internal/monitor/mib.go: the tree's objects and the values they get from the metrics. Of `Metrics`
-- the fields that the tree reads; `start_time` is what its method Unix answers.
use sssonector.Prelude.{
  Bool-cases, Float64, String, [], eq_iff, if◌then◌else◌, inl, inr, lookup, lt_int64, ltb, none,
  refl, some, u32, u64, ℕ, ◌-◌, ◌/◌, ◌==◌, ◌∷◌, ◌≡◌,
}
use sssonector.Prelude.{string_eq}
use sssonector.Mib.{
  MibTree, Value, add_counter64, add_gauge32, add_integer, add_string, int, int32, int64, text,
}

pub record Metrics (F : Float64) : Type 0 where
  pub bytes_in : ℕ
  pub bytes_out : ℕ
  pub connections : ℕ
  pub cpu_usage : F.Float
  pub memory_usage : ℕ
  pub connect_time : ℕ
  pub disconnect_time : ℕ
  pub last_error : String
  pub start_time : ℕ

-- `/` of int64, which rounds toward 0.
abbrev pub div_int64 : ℕ → ℕ → ℕ
div_int64 a d =
    if ltb a 9223372036854775808
    then a / d
    else u64 (18446744073709551616 - (18446744073709551616 - a) / d)

-- `int32(bytes / 1024 / 1024)`
abbrev pub megabytes : ℕ → ℕ
megabytes bytes = u32 (div_int64 (div_int64 bytes 1024) 1024)

module _ {F : Float64} (to_int32 : F.Float → ℕ) where
  unfoldable pub new_mib_tree : Metrics F → MibTree
  new_mib_tree m =
      let performance =
        add_gauge32 ".1.3.6.1.4.1.54321.1.9" "memoryUsage" "Memory usage in MB"
          (megabytes m.memory_usage) "read-only"
          (add_gauge32 ".1.3.6.1.4.1.54321.1.8" "cpuUsage" "CPU usage percentage"
            (to_int32 m.cpu_usage) "read-only"
            (add_gauge32 ".1.3.6.1.4.1.54321.1.7" "activeConnections" "Current active connections"
              m.connections "read-only"
              (add_counter64 ".1.3.6.1.4.1.54321.1.2" "bytesOut" "Total bytes sent" m.bytes_out
                "read-only"
                (add_counter64 ".1.3.6.1.4.1.54321.1.1" "bytesIn" "Total bytes received" m.bytes_in
                  "read-only" [])))) in
      let status =
        add_counter64 ".1.3.6.1.4.1.54321.2.3" "startTime" "Service start time" m.start_time
          "read-only"
          (add_string ".1.3.6.1.4.1.54321.2.2" "lastError" "Last error message" "" "read-only" (
            add_integer ".1.3.6.1.4.1.54321.2.1" "tunnelStatus" "Tunnel operational status" 1
              "read-only" performance)) in
      add_gauge32 ".1.3.6.1.4.1.54321.3.3" "downloadRateLimit" "Download rate limit in kbps" 10240
        "read-write"
        (add_gauge32 ".1.3.6.1.4.1.54321.3.2" "uploadRateLimit" "Upload rate limit in kbps" 10240
          "read-write"
          (add_integer ".1.3.6.1.4.1.54321.3.1" "maxConnections" "Maximum allowed connections" 10
            "read-write" status))

  -- The value that an update gives the entry of an identifier.
  unfoldable pub updated_value : Metrics F → String → Value → Value
  updated_value m oid old =
      if oid == ".1.3.6.1.4.1.54321.1.1"
      then int64 m.bytes_in
      else if oid == ".1.3.6.1.4.1.54321.1.2"
      then int64 m.bytes_out
      else if oid == ".1.3.6.1.4.1.54321.1.7"
      then int32 m.connections
      else if oid == ".1.3.6.1.4.1.54321.1.8"
      then int32 (to_int32 m.cpu_usage)
      else if oid == ".1.3.6.1.4.1.54321.1.9"
      then int32 (megabytes m.memory_usage)
      else if oid == ".1.3.6.1.4.1.54321.2.1"
      then (if lt_int64 m.disconnect_time m.connect_time then int 1 else int 0)
      else if oid == ".1.3.6.1.4.1.54321.2.2"
      then text m.last_error
      else if oid == ".1.3.6.1.4.1.54321.2.3"
      then int64 m.start_time
      else old

  unfoldable pub update_metrics : Metrics F → MibTree → MibTree
  update_metrics m [] = []
  update_metrics m ((k, e) ∷ tree) =
      (k, record e { value = updated_value m k e.value }) ∷ update_metrics m tree

  pub lookup-update_metrics :
      (m : Metrics F) (oid : String) (tree : MibTree)
      → lookup oid (update_metrics m tree) ≡ elim (lookup oid tree) [
        | none ↦ none
        | some e ↦ some (record e { value = updated_value m oid e.value })
      ]
  unfolding lookup update_metrics
  lookup-update_metrics m oid [] = refl
  lookup-update_metrics m oid ((k, e) ∷ tree) = elim (Bool-cases (k == oid)) [
    | inl same ↦ rw same (rw ((eq_iff k oid).0 same) refl)
    | inr other ↦ rw other (lookup-update_metrics m oid tree)
  ]
