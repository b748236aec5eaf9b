-- ===== src/Service.antt =====
-- internal/service/base.go: the life of the service around its tunnel. What the tunnel's Start and
-- Stop answer, and the time, are arguments; the process id and the platform's name are left out.
pub mod Lifecycle
mod Examples
use sssonector.Prelude.{
  Bool, Option, false, if◌then◌else◌, none, not, some, true, ℕ, ◌&&◌, ◌-◌, ◌/◌,
}

pub data Mode : Type 0 where
  mode_server mode_client mode_other : Mode

pub data State : Type 0 where
  stopped starting running stopping reloading : State

pub data ServiceError : Type 0 where
  already_running not_running invalid_mode invalid_command : ServiceError
  start_failed stop_failed server_missing client_missing : ServiceError
  reload_stop reload_start : ServiceError → ServiceError

-- `has_server` and `has_client` say whether the tunnel's pointer is set.
pub record BaseService : Type 0 where
  pub mode : Mode
  pub state : State
  pub start_time : ℕ
  pub last_reload : ℕ
  pub has_server : Bool
  pub has_client : Bool
  pub uptime_seconds : ℕ

abbrev pub is_running : State → Bool
is_running running = true
is_running _ = false

unfoldable pub new_base_service : Mode → BaseService
new_base_service mode = record {
  mode = mode;
  state = stopped;
  start_time = 0;
  last_reload = 0;
  has_server = false;
  has_client = false;
  uptime_seconds = 0;
}

-- The `switch` of `Start`; `ok` is what the tunnel's Start answers.
start_tunnel : Mode → Bool → BaseService → BaseService × Option ServiceError
start_tunnel mode_server ok s =
    let t = record s { has_server = true } in
    if ok
    then (record t { state = running }, none)
    else (record t { state = stopped }, some start_failed)
start_tunnel mode_client ok s =
    let t = record s { has_client = true } in
    if ok
    then (record t { state = running }, none)
    else (record t { state = stopped }, some start_failed)
start_tunnel mode_other ok s = (record s { state = stopped }, some invalid_mode)

unfoldable pub start : ℕ → Bool → BaseService → BaseService × Option ServiceError
unfolding start_tunnel
start now ok s =
    if is_running s.state
    then (s, some already_running)
    else start_tunnel s.mode ok (record s { state = starting; start_time = now })

-- The `switch` of `Stop`; `ok` is what the tunnel's Stop answers, if there is a tunnel.
stop_tunnel : Mode → Bool → BaseService → BaseService × Option ServiceError
stop_tunnel mode_server ok s =
    if s.has_server && not ok
    then (record s { state = stopped }, some stop_failed)
    else (record s { state = stopped }, none)
stop_tunnel mode_client ok s =
    if s.has_client && not ok
    then (record s { state = stopped }, some stop_failed)
    else (record s { state = stopped }, none)
stop_tunnel mode_other ok s = (record s { state = stopped }, none)

unfoldable pub stop : Bool → BaseService → BaseService × Option ServiceError
unfolding stop_tunnel
stop ok s =
    if is_running s.state
    then stop_tunnel s.mode ok (record s { state = stopping })
    else (s, some not_running)

reload_after_start : BaseService × Option ServiceError → BaseService × Option ServiceError
reload_after_start (s, none) = (record s { state = running }, none)
reload_after_start (s, some e) = (s, some (reload_start e))

reload_after_stop : ℕ → Bool → BaseService × Option ServiceError → BaseService × Option ServiceError
unfolding start reload_after_start
reload_after_stop now start_ok (s, none) = reload_after_start (start now start_ok s)
reload_after_stop now start_ok (s, some e) = (s, some (reload_stop e))

unfoldable pub reload : ℕ → Bool → Bool → BaseService → BaseService × Option ServiceError
unfolding stop reload_after_stop
reload now stop_ok start_ok s =
    if is_running s.state
    then reload_after_stop now start_ok
        (stop stop_ok (record s { state = reloading; last_reload = now }))
    else (s, some not_running)

unfoldable pub update_metrics : ℕ → BaseService → BaseService
update_metrics now s =
    if is_running s.state
    then record s { uptime_seconds = (now - s.start_time) / 1000000000 }
    else s

unfoldable pub status : ℕ → BaseService → BaseService
unfolding update_metrics
status now s = if is_running s.state then update_metrics now s else s

unfoldable pub metrics : ℕ → BaseService → BaseService × Option ServiceError
unfolding update_metrics
metrics now s = if is_running s.state then (update_metrics now s, none) else (s, some not_running)

tunnel_health : Mode → BaseService → Option ServiceError
tunnel_health mode_server s = if s.has_server then none else some server_missing
tunnel_health mode_client s = if s.has_client then none else some client_missing
tunnel_health mode_other s = none

unfoldable pub health : BaseService → Option ServiceError
unfolding tunnel_health
health s = if is_running s.state then tunnel_health s.mode s else some not_running

pub data Command : Type 0 where
  cmd_status cmd_reload cmd_metrics cmd_health cmd_unknown : Command

-- `ExecuteCommand`, with the answers that its command needs.
unfoldable pub execute_command :
    Command → ℕ → Bool → Bool → BaseService → BaseService × Option ServiceError
unfolding status reload metrics health
execute_command cmd_status now stop_ok start_ok s = (status now s, none)
execute_command cmd_reload now stop_ok start_ok s = reload now stop_ok start_ok s
execute_command cmd_metrics now stop_ok start_ok s = metrics now s
execute_command cmd_health now stop_ok start_ok s = (s, health s)
execute_command cmd_unknown now stop_ok start_ok s = (s, some invalid_command)
