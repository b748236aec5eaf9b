-- ===== src/Service/Lifecycle.antt =====
-- Which states the service comes to rest in, and what a reload does.
use sssonector.Prelude.{Bool, List, Option, [], arith, none, some, true, ℕ, ◌∷◌, ◌≡◌, ◌≢◌}
use sssonector.Service.{
  BaseService, Command, Mode, ServiceError, cmd_health, cmd_metrics, cmd_reload, cmd_status,
  cmd_unknown, execute_command, health, metrics, mode_other, new_base_service, not_running, reload,
  reload_stop, reloading, running, start, starting, stop, stopped, stopping,
}

pub data Op : Type 0 where
  starts : ℕ → Bool → Op
  stops : Bool → Op
  runs : Command → ℕ → Bool → Bool → Op

unfoldable pub perform : Op → BaseService → BaseService × Option ServiceError
perform (starts now ok) s = start now ok s
perform (stops ok) s = stop ok s
perform (runs cmd now stop_ok start_ok) s = execute_command cmd now stop_ok start_ok s

unfoldable pub run : List Op → BaseService → BaseService
run [] s = s
run (op ∷ ops) s = run ops (perform op s).0

-- A running service has its tunnel, and no service rests in a passing state.
pub record Inv (s : BaseService) : Type 0 where
  pub not_starting : s.state ≢ starting
  pub not_stopping : s.state ≢ stopping
  pub healthy : s.state ≡ running → health s ≡ none
  pub known_mode : s.state ≡ running → s.mode ≢ mode_other

perform-Inv : (op : Op) (s : BaseService) → Inv s → Inv (perform op s).0
unfolding perform start stop execute_command
perform-Inv (starts now ok) s v = ground (arith, v.healthy, v.known_mode)
perform-Inv (stops ok) s v = ground (arith, v.healthy, v.known_mode)
perform-Inv (runs cmd_status now stop_ok start_ok) s v = ground (arith, v.healthy, v.known_mode)
perform-Inv (runs cmd_reload now stop_ok start_ok) s v = ground (arith, v.healthy, v.known_mode)
perform-Inv (runs cmd_metrics now stop_ok start_ok) s v = ground (arith, v.healthy, v.known_mode)
perform-Inv (runs cmd_health now stop_ok start_ok) s v = ground (arith, v.healthy, v.known_mode)
perform-Inv (runs cmd_unknown now stop_ok start_ok) s v = v

lifecycle-Inv_from : (ops : List Op) (s : BaseService) → Inv s → Inv (run ops s)
unfolding run
lifecycle-Inv_from [] s v = v
lifecycle-Inv_from (op ∷ ops) s v = lifecycle-Inv_from ops (perform op s).0 (perform-Inv op s v)

-- After any sequence of starts, stops and commands on a new service, whatever the tunnel answers:
-- the service is not left in its starting or stopping state, and where it is running, its health
-- check passes and its mode is server or client.
pub lifecycle-Inv : (mode : Mode) (ops : List Op) → Inv (run ops (new_base_service mode))
unfolding new_base_service
lifecycle-Inv mode ops = lifecycle-Inv_from ops (new_base_service mode) (record {
  not_starting = ground arith;
  not_stopping = ground arith;
  healthy = ground arith;
  known_mode = ground arith;
})

-- A reload of a running service always fails: it marks the service as reloading and then asks it to
-- stop, which only a running service does. The tunnel is neither stopped nor started, and the service
-- is left reloading, where stop, metrics, health and a further reload all answer that it does not run.
pub reload_strands :
    (now : ℕ) (stop_ok start_ok : Bool) (s : BaseService) (later : ℕ) (ok ok' : Bool)
    → s.state ≡ running
    → let (t, e) = reload now stop_ok start_ok s in
      (e ≡ some (reload_stop not_running))
      × (t ≡ record s { state = reloading; last_reload = now })
      × (stop ok t ≡ (t, some not_running))
      × (metrics later t ≡ (t, some not_running))
      × (health t ≡ some not_running)
      × (reload later ok ok' t ≡ (t, some not_running))
unfolding reload stop metrics health
reload_strands now stop_ok start_ok s later ok ok' r = ground arith

-- No command reloads: whatever the state of the service and the answers of the tunnel, a reload
-- returns an error.
pub reload_fails :
    (now : ℕ) (stop_ok start_ok : Bool) (s : BaseService) → (reload now stop_ok start_ok s).1 ≢ none
unfolding reload
reload_fails now stop_ok start_ok s = ground arith

-- A start of a service that is not running, with a tunnel that starts, followed by a stop with a
-- tunnel that stops, succeeds twice and leaves the service stopped, with its health refused.
pub start-stop :
    (now : ℕ) (s : BaseService)
    → s.state ≢ running
    → s.mode ≢ mode_other
    → let (t, e) = start now true s in
      let (u, e') = stop true t in
      (e ≡ none)
      × (t.state ≡ running)
      × (t.start_time ≡ now)
      × (health t ≡ none)
      × (e' ≡ none)
      × (u.state ≡ stopped)
      × (health u ≡ some not_running)
unfolding start stop health
start-stop now s r m = ground arith
