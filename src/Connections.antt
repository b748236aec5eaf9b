-- ===== src/Connections.antt =====
-- internal/connection/manager.go: the table of live connections, its count and its state. A
-- connection is a number; what `RemoteAddr` gives for it is an argument. The callbacks are kept as a
-- list of calls.
pub mod Counting
pub mod Runs
pub mod Connect
mod Examples
use text.Mathlib.Text.{◌==◌ as str_eq}
use sssonector.Prelude.{
  Bool, List, String, [], delete, eqb, false, if◌then◌else◌, insert, leb, lookup, ltb, map, nat_eq,
  none, some, true, ℕ, ◌++◌, ◌+◌, ◌-◌, ◌∷◌,
}

pub data ConnectionState : Type 0 where
  connected disconnected : ConnectionState

pub record ConnectionInfo : Type 0 where
  pub remote_addr : String
  pub state : ConnectionState
  pub bytes_sent : ℕ
  pub bytes_received : ℕ

pub data Call : Type 0 where
  on_connect on_disconnect : ℕ → Call

pub record Manager : Type 0 where
  pub max_connections : ℕ
  pub conns : List (ℕ × ConnectionInfo)
  pub conn_count : ℕ
  pub state : ConnectionState
  pub has_on_connect : Bool
  pub has_on_disconnect : Bool
  pub calls : List Call

unfoldable pub new_manager : ℕ → Manager
new_manager max = record {
  max_connections = max;
  conns = [];
  conn_count = 0;
  state = disconnected;
  has_on_connect = false;
  has_on_disconnect = false;
  calls = [];
}

unfoldable pub set_callbacks : Bool → Bool → Manager → Manager
set_callbacks on_connect' on_disconnect' m = record m {
  has_on_connect = on_connect';
  has_on_disconnect = on_disconnect';
}

-- False is the error that the maximum is reached.
unfoldable pub accept : ℕ → String → Manager → Manager × Bool
accept conn addr m = if leb m.max_connections m.conn_count then (m, false) else (
  record m {
    conns =
        insert conn
          (record { remote_addr = addr; state = connected; bytes_sent = 0; bytes_received = 0 })
          m.conns;
    conn_count = m.conn_count + 1;
    state = connected;
    calls = if m.has_on_connect then m.calls ++ (on_connect conn ∷ []) else m.calls;
  },
  true,
)

-- `connCount` is an int; it is never lowered at 0 (Connections/Counting.antt).
unfoldable pub remove : ℕ → Manager → Manager
remove conn m = elim (lookup conn m.conns) [
  | none ↦ m
  | some info ↦ record m {
    conns = delete conn m.conns;
    conn_count = m.conn_count - 1;
    calls = if m.has_on_disconnect then m.calls ++ (on_disconnect conn ∷ []) else m.calls;
    state = if eqb (m.conn_count - 1) 0 then disconnected else m.state;
  }
]

-- The first entry with the address is updated, in the order of iteration.
unfoldable pub update_first : String → ℕ → ℕ → List (ℕ × ConnectionInfo) → List (ℕ × ConnectionInfo)
update_first addr sent received [] = []
update_first addr sent received ((c, info) ∷ rest) =
    let later = update_first addr sent received rest in
    if str_eq info.remote_addr addr
    then (c, record info { bytes_sent = sent; bytes_received = received }) ∷ rest
    else (c, info) ∷ later

unfoldable pub update_stats : String → ℕ → ℕ → Manager → Manager
unfolding update_first
update_stats addr sent received m = record m { conns = update_first addr sent received m.conns }

unfoldable pub get_connections : Manager → List ConnectionInfo
get_connections m = map (λ (c : ℕ × ConnectionInfo). c.1) m.conns

unfoldable pub disconnect_calls : List (ℕ × ConnectionInfo) → List Call
disconnect_calls [] = []
disconnect_calls ((c, _) ∷ rest) = on_disconnect c ∷ disconnect_calls rest

unfoldable pub stop : Manager → Manager
unfolding disconnect_calls
stop m = record m {
  conns = [];
  conn_count = 0;
  state = disconnected;
  calls = if m.has_on_disconnect then m.calls ++ disconnect_calls m.conns else m.calls;
}

unfoldable pub can_accept_more : Manager → Bool
can_accept_more m = ltb m.conn_count m.max_connections
