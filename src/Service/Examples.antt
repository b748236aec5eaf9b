-- ===== src/Service/Examples.antt =====
-- The life of a server, and the theorems at concrete inputs.
use sssonector.Prelude.{[], false, refl, true, ◌∷◌, ◌≡◌}
use sssonector.Service.{BaseService, mode_client, mode_server, new_base_service, running, start}
use sssonector.Service.Lifecycle.{Inv, lifecycle-Inv, run, starts, stops}

abbrev serving : BaseService
serving = record {
  mode = mode_server;
  state = running;
  start_time = 5;
  last_reload = 0;
  has_server = true;
  has_client = false;
  uptime_seconds = 0;
}

serving_runs : (start 5 true (new_base_service mode_server)).0 ≡ serving
unfolding start new_base_service
serving_runs = refl

lifecycle-Inv_example : Inv (run (starts 5 true ∷ stops false ∷ []) (new_base_service mode_client))
lifecycle-Inv_example = lifecycle-Inv mode_client (starts 5 true ∷ stops false ∷ [])
