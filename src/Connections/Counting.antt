-- ===== src/Connections/Counting.antt =====
-- The count of connections against the table, for clients that register a connection once.
use text.Mathlib.Text.{◌==◌ as str_eq}
use sssonector.Prelude.{
  Bool-cases, HasDistinctKeys, List, Option-cases, String, [], arith, delete,
  delete-HasDistinctKeys, has_key, inl, inr, insert, insert-HasDistinctKeys, leb, length, lookup,
  nat_eq, none, refl, some, suc, ℕ, ◌<◌, ◌∷◌, ◌≡◌, ◌≤◌,
}
use sssonector.Connections.{
  ConnectionInfo, Manager, accept, connected, disconnected, remove, stop, update_first,
  update_stats,
}

-- The count is the size of the table, no connection stands twice, the maximum is kept, and the
-- manager says that it is connected exactly if the table is not empty.
pub record Inv (m : Manager) : Type 0 where
  pub distinct : HasDistinctKeys m.conns
  pub counted : m.conn_count ≡ length m.conns
  pub bounded : m.conn_count ≤ m.max_connections
  pub idle : m.conn_count ≡ 0 → m.state ≡ disconnected
  pub busy : 0 < m.conn_count → m.state ≡ connected

module _ {V : Type 0} where
  pub length-insert_new :
      (k : ℕ) (v : V) (l : List (ℕ × V))
      → lookup k l ≡ none
      → length (insert k v l) ≡ suc (length l)
  unfolding lookup insert
  length-insert_new k v [] h = refl
  length-insert_new k v ((j, w) ∷ l) h = ground (arith, length-insert_new k v l)

  pub length-insert_old :
      (k : ℕ) (v w : V) (l : List (ℕ × V)) → lookup k l ≡ some w → length (insert k v l) ≡ length l
  unfolding lookup insert
  length-insert_old k v w [] h = ground arith
  length-insert_old k v w ((j, x) ∷ l) h = ground (arith, length-insert_old k v w l)

  pub length-delete_missing :
      (k : ℕ) (l : List (ℕ × V)) → lookup k l ≡ none → length (delete k l) ≡ length l
  unfolding lookup delete
  length-delete_missing k [] h = refl
  length-delete_missing k ((j, w) ∷ l) h = ground (arith, length-delete_missing k l)

  length-delete-le : (k : ℕ) (l : List (ℕ × V)) → length (delete k l) ≤ length l
  unfolding delete
  length-delete-le k [] = omega arith
  length-delete-le k ((j, w) ∷ l) = ground (arith, length-delete-le k l)

  pub length-delete-lt :
      (k : ℕ) (v : V) (l : List (ℕ × V)) → lookup k l ≡ some v → length (delete k l) < length l
  unfolding lookup delete
  length-delete-lt k v [] h = ground arith
  length-delete-lt k v ((j, w) ∷ l) h = ground (arith, length-delete-le k l, length-delete-lt k v l)

  pub length-delete_found :
      (k : ℕ) (v : V) (l : List (ℕ × V))
      → HasDistinctKeys l
      → lookup k l ≡ some v
      → suc (length (delete k l)) ≡ length l
  unfolding lookup delete
  length-delete_found k v [] d h = ground arith
  length-delete_found k v ((j, w) ∷ l) d h =
      ground (arith, length-delete_found k v l d.1, length-delete_missing k l, d.0)

pub data Op : Type 0 where
  accepts : ℕ → String → Op
  removes : ℕ → Op
  updates : String → ℕ → ℕ → Op
  stops : Op

unfoldable pub perform : Op → Manager → Manager
perform (accepts conn addr) m = (accept conn addr m).0
perform (removes conn) m = remove conn m
perform (updates addr sent received) m = update_stats addr sent received m
perform stops m = stop m

unfoldable pub run : List Op → Manager → Manager
run [] m = m
run (op ∷ ops) m = run ops (perform op m)

-- Each connection that is accepted is not in the table at that time.
abbrev pub AcceptsOnce : List Op → Manager → Type 0
AcceptsOnce [] m = Unit
AcceptsOnce (accepts conn addr ∷ ops) m =
    (lookup conn m.conns ≡ none) × AcceptsOnce ops (perform (accepts conn addr) m)
AcceptsOnce (removes conn ∷ ops) m = AcceptsOnce ops (perform (removes conn) m)
AcceptsOnce (updates addr sent received ∷ ops) m =
    AcceptsOnce ops (perform (updates addr sent received) m)
AcceptsOnce (stops ∷ ops) m = AcceptsOnce ops (perform stops m)

keys-update_first :
    (addr : String) (sent received : ℕ) (l : List (ℕ × ConnectionInfo)) (k : ℕ)
    → has_key k (update_first addr sent received l) ≡ has_key k l
unfolding update_first lookup
keys-update_first addr sent received [] k = refl
keys-update_first addr sent received ((c, info) ∷ l) k =
    ground (arith, keys-update_first addr sent received l k)

missing-update_first :
    (addr : String) (sent received : ℕ) (l : List (ℕ × ConnectionInfo)) (k : ℕ)
    → lookup k l ≡ none
    → lookup k (update_first addr sent received l) ≡ none
missing-update_first addr sent received l k h =
    ground (arith, keys-update_first addr sent received l k)

pub update_first-length :
    (addr : String) (sent received : ℕ) (l : List (ℕ × ConnectionInfo))
    → length (update_first addr sent received l) ≡ length l
unfolding update_first
update_first-length addr sent received [] = refl
update_first-length addr sent received ((c, info) ∷ l) =
    ground (arith, update_first-length addr sent received l)

pub update_first-HasDistinctKeys :
    (addr : String) (sent received : ℕ) (l : List (ℕ × ConnectionInfo))
    → HasDistinctKeys l
    → HasDistinctKeys (update_first addr sent received l)
unfolding update_first
update_first-HasDistinctKeys addr sent received [] h = h
update_first-HasDistinctKeys addr sent received ((c, info) ∷ l) h =
    elim (Bool-cases (str_eq info.remote_addr addr)) [
      | inl hit ↦ rw hit h
      | inr miss ↦ rw miss (
        missing-update_first addr sent received l c h.0,
        update_first-HasDistinctKeys addr sent received l h.1,
      )
    ]

pub accept-Inv :
    (conn : ℕ) (addr : String) (m : Manager)
    → lookup conn m.conns ≡ none
    → Inv m
    → Inv (accept conn addr m).0
unfolding accept
accept-Inv conn addr m fresh v =
    let info : ConnectionInfo = record {
      remote_addr = addr;
      state = connected;
      bytes_sent = 0;
      bytes_received = 0;
    } in
    elim (Bool-cases (leb m.max_connections m.conn_count)) [
      | inl full ↦ rw full v
      | inr room ↦ rw room (record {
        distinct = insert-HasDistinctKeys conn info m.conns v.distinct;
        counted = omega (arith, length-insert_new conn info m.conns fresh, v);
        bounded = ground arith;
        idle = λ h. absurd (omega arith);
        busy = λ _. refl;
      })
    ]

pub remove-Inv : (conn : ℕ) (m : Manager) → Inv m → Inv (remove conn m)
unfolding remove
remove-Inv conn m v = elim (Option-cases (lookup conn m.conns)) [
  | inl e ↦ rw (e, remove) v
  | inr (info, e) ↦
      rw (e, remove)
        (record {
          distinct = delete-HasDistinctKeys conn m.conns v.distinct;
          counted = omega (arith, length-delete_found conn info m.conns v.distinct e, v);
          bounded = omega (arith, v);
          idle = ground (arith, v);
          busy = ground (arith, v);
        })
]
