-- ===== src/Connections/Runs.antt =====
-- Sequences of the manager's methods: the count, and what a connection accepted twice leaves behind.
use sssonector.Prelude.{
  List, Option-cases, String, [], arith, inl, inr, insert, length, lookup, lookup-delete,
  lookup-insert, nat_eq, none, refl, ℕ, ◌+◌, ◌<◌, ◌∷◌, ◌≡◌, ◌≤◌,
}
use sssonector.Connections.{
  ConnectionInfo, Manager, accept, connected, new_manager, remove, stop, update_stats,
}
use sssonector.Connections.Counting.{
  AcceptsOnce, Inv, Op, accept-Inv, accepts, length-delete-lt, length-insert_new, length-insert_old,
  perform, remove-Inv, removes, run, stops, update_first-HasDistinctKeys, update_first-length,
  updates,
}

perform-Inv :
    (op : Op) (ops : List Op) (m : Manager)
    → AcceptsOnce (op ∷ ops) m
    → Inv m
    → Inv (perform op m) × AcceptsOnce ops (perform op m)
unfolding perform stop update_stats
perform-Inv (accepts conn addr) ops m h v = (accept-Inv conn addr m h.0 v, h.1)
perform-Inv (removes conn) ops m h v = (remove-Inv conn m v, h)
perform-Inv (updates addr sent received) ops m h v = (
  record {
    distinct = update_first-HasDistinctKeys addr sent received m.conns v.distinct;
    counted = omega (arith, update_first-length addr sent received m.conns, v);
    bounded = v.bounded;
    idle = v.idle;
    busy = v.busy;
  },
  h,
)
perform-Inv stops ops m h v = (
  record {
    distinct = tt;
    counted = refl;
    bounded = omega arith;
    idle = λ _. refl;
    busy = λ p. absurd (omega arith);
  },
  h,
)

traffic-Inv_from : (ops : List Op) (m : Manager) → AcceptsOnce ops m → Inv m → Inv (run ops m)
unfolding run
traffic-Inv_from [] m h v = v
traffic-Inv_from (op ∷ ops) m h v =
    let (v', h') = perform-Inv op ops m h v in traffic-Inv_from ops (perform op m) h' v'

-- From a new manager, and over any sequence of accepts, removals, updates and stops in which no
-- connection is accepted while it is registered, the count is the size of the table and within the
-- maximum, no connection stands twice, and the manager says that it is connected exactly while it
-- has connections.
pub traffic-Inv :
    (max : ℕ) (ops : List Op) → AcceptsOnce ops (new_manager max) → Inv (run ops (new_manager max))
unfolding new_manager
traffic-Inv max ops h = traffic-Inv_from ops (new_manager max) h (record {
  distinct = tt;
  counted = refl;
  bounded = omega arith;
  idle = λ _. refl;
  busy = λ p. absurd (omega arith);
})

-- A registered connection that is accepted again is counted twice and stored once, so its removal
-- leaves one too many in the count for good: the table no longer has it, the manager goes on to say
-- that it is connected, and removing it again changes nothing.
pub accept_twice_leaks :
    (conn : ℕ) (addr addr' : String) (m : Manager)
    → lookup conn m.conns ≡ none
    → m.conn_count + 1 < m.max_connections
    → let m' = remove conn (accept conn addr' (accept conn addr m).0).0 in
      (lookup conn m'.conns ≡ none)
      × (m'.conn_count ≡ m.conn_count + 1)
      × (m'.state ≡ connected)
      × (remove conn m' ≡ m')
unfolding accept remove
accept_twice_leaks conn addr addr' m fresh room =
    let first : ConnectionInfo = record {
      remote_addr = addr;
      state = connected;
      bytes_sent = 0;
      bytes_received = 0;
    } in
    let again : ConnectionInfo = record first { remote_addr = addr' } in
    let twice : List (ℕ × ConnectionInfo) = insert conn again (insert conn first m.conns) in
    ground (
      arith,
      lookup-insert conn conn again (insert conn first m.conns),
      lookup-delete conn conn twice,
    )

covers_step :
    (op : Op) (m : Manager)
    → length m.conns ≤ m.conn_count
    → m.conn_count ≤ m.max_connections
    → let m' = perform op m in
      (length m'.conns ≤ m'.conn_count)
      × (m'.conn_count ≤ m'.max_connections)
      × (m'.max_connections ≡ m.max_connections)
unfolding perform accept remove stop update_stats
covers_step (accepts conn addr) m low high =
    let info : ConnectionInfo = record {
      remote_addr = addr;
      state = connected;
      bytes_sent = 0;
      bytes_received = 0;
    } in
    elim (Option-cases (lookup conn m.conns)) [
      | inl e ↦ ground (arith, length-insert_new conn info m.conns e)
      | inr (w, e) ↦ ground (arith, length-insert_old conn info w m.conns e)
    ]
covers_step (removes conn) m low high = elim (Option-cases (lookup conn m.conns)) [
  | inl e ↦ ground arith
  | inr (w, e) ↦ ground (arith, length-delete-lt conn w m.conns e)
]
covers_step (updates addr sent received) m low high =
    ground (arith, update_first-length addr sent received m.conns)
covers_step stops m low high = ground arith

covers_run :
    (ops : List Op) (m : Manager)
    → length m.conns ≤ m.conn_count
    → m.conn_count ≤ m.max_connections
    → (length (run ops m).conns ≤ (run ops m).conn_count)
      × ((run ops m).conn_count ≤ m.max_connections)
unfolding run
covers_run [] m low high = (low, high)
covers_run (op ∷ ops) m low high =
    let (a, b, c) = covers_step op m low high in
    let (d, e) = covers_run ops (perform op m) a b in (d, omega arith)

-- Over every sequence of operations on a new manager, also where connections are accepted twice, the
-- count never passes the maximum and is never less than the size of the table, so it is never
-- lowered at 0.
pub run-count_bounds :
    (max : ℕ) (ops : List Op)
    → (length (run ops (new_manager max)).conns ≤ (run ops (new_manager max)).conn_count)
      × ((run ops (new_manager max)).conn_count ≤ max)
unfolding new_manager
run-count_bounds max ops = covers_run ops (new_manager max) (omega arith) (omega arith)
