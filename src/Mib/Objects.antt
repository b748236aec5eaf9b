-- ===== src/Mib/Objects.antt =====
-- internal/monitor/mib.go: what the tree keeps from its start and through every update.
use sssonector.Prelude.{
  Bool-cases, Float64, HasDistinctKeys, List, Option-cases, String, [], ap, arith, eq_iff, inl, inr,
  insert, insert-HasDistinctKeys, lookup, lookup-insert, refl, some, sym, ℕ, ◌==◌, ◌∙◌, ◌∷◌, ◌≡◌,
}
use sssonector.Prelude.{string_eq}
use sssonector.Mib.{
  MibEntry, MibTree, add_counter64, add_gauge32, add_integer, add_string, get_entry, is_hidden,
  is_refused,
}
use sssonector.Mib.Tree.{
  Metrics, lookup-update_metrics, new_mib_tree, update_metrics, updated_value,
}
use sssonector.Mib.Next.{IsTree}

insert-IsTree :
    (k : String) (e : MibEntry) (tree : MibTree)
    → e.oid ≡ k
    → IsTree tree
    → IsTree (insert k e tree)
unfolding IsTree
insert-IsTree k e tree same h = (
  insert-HasDistinctKeys k e tree h.0,
  λ j d at. elim (Bool-cases (k == j)) [
    | inl key ↦
        let found = sym (lookup-insert k j e tree) ∙ at in
        let eq : e ≡ d = ground (arith, key, found) in
        ap (λ x. x.oid) (sym eq) ∙ same ∙ (eq_iff k j).0 key
    | inr other ↦ h.1 j d (ground (arith, other, lookup-insert k j e tree, at))
  ],
)

empty-IsTree : IsTree []
unfolding IsTree lookup
empty-IsTree = (tt, λ k e at. ground (arith, at))

module _ {F : Float64} (to_int32 : F.Float → ℕ) where
  pub new_mib_tree-IsTree : (m : Metrics F) → IsTree (new_mib_tree to_int32 m)
  unfolding new_mib_tree add_counter64 add_gauge32 add_integer add_string
  new_mib_tree-IsTree m =
      let put = insert-IsTree in
      put _ _ _ refl (
        put _ _ _ refl (
          put _ _ _ refl (
            put _ _ _ refl (
              put _ _ _ refl (
                put _ _ _ refl (
                  put _ _ _ refl (
                    put _ _ _ refl
                      (put _ _ _ refl (put _ _ _ refl (put _ _ _ refl empty-IsTree))))))))))

  update_metrics-HasDistinctKeys :
      (m : Metrics F) (tree : MibTree)
      → HasDistinctKeys tree
      → HasDistinctKeys (update_metrics to_int32 m tree)
  unfolding update_metrics
  update_metrics-HasDistinctKeys m [] h = tt
  update_metrics-HasDistinctKeys m ((k, e) ∷ tree) h = (
    lookup-update_metrics to_int32 m k tree ∙ rw (h.0) refl,
    update_metrics-HasDistinctKeys m tree h.1,
  )

  pub update_metrics-IsTree :
      (m : Metrics F) (tree : MibTree) → IsTree tree → IsTree (update_metrics to_int32 m tree)
  unfolding IsTree
  update_metrics-IsTree m tree h = (
    update_metrics-HasDistinctKeys m tree h.0,
    λ k d at. elim (Option-cases (lookup k tree)) [
      | inl missing ↦ absurd (ground (arith, lookup-update_metrics to_int32 m k tree, missing, at))
      | inr (e, old) ↦
          let set = record e { value = updated_value to_int32 m k e.value } in
          let there : lookup k (update_metrics to_int32 m tree) ≡ some set =
            lookup-update_metrics to_int32 m k tree ∙ rw old refl in
          let eq : set ≡ d = ground (arith, sym there ∙ at) in
          ap (λ x. x.oid) (sym eq) ∙ h.1 k e old
    ],
  )

  -- The tree after the updates of a run, the oldest first.
  unfoldable pub served : MibTree → List (Metrics F) → MibTree
  served tree [] = tree
  served tree (m ∷ metrics) = served (update_metrics to_int32 m tree) metrics

  served-IsTree_from :
      (tree : MibTree) (metrics : List (Metrics F)) → IsTree tree → IsTree (served tree metrics)
  unfolding served
  served-IsTree_from tree [] h = h
  served-IsTree_from tree (m ∷ metrics) h =
      served-IsTree_from (update_metrics to_int32 m tree) metrics (update_metrics-IsTree m tree h)

  -- A new tree has, after any updates, each identifier once and with an entry that names it.
  pub served-IsTree :
      (m : Metrics F) (metrics : List (Metrics F))
      → IsTree (served (new_mib_tree to_int32 m) metrics)
  served-IsTree m metrics =
      served-IsTree_from (new_mib_tree to_int32 m) metrics (new_mib_tree-IsTree m)

  -- GetEntry after an update: the same error as before, or the entry as it was but for its value,
  -- which is the one that the metrics have for the identifier. So an update changes neither what an
  -- entry's Validate answers nor who may read it.
  pub get_entry-update_metrics :
      (m : Metrics F) (oid community : String) (tree : MibTree)
      → get_entry oid community (update_metrics to_int32 m tree)
        ≡ elim (get_entry oid community tree) [
          | inl error ↦ inl error
          | inr e ↦ inr (record e { value = updated_value to_int32 m oid e.value })
        ]
  unfolding get_entry
  get_entry-update_metrics m oid community tree = elim (Bool-cases (is_refused community)) [
    | inl refused ↦ rw refused refl
    | inr known ↦
        rw (known, lookup-update_metrics to_int32 m oid tree)
          (elim (Option-cases (lookup oid tree)) [
            | inl missing ↦ rw missing refl
            | inr (e, at) ↦ rw at (elim (Bool-cases (is_hidden community e)) [
              | inl hidden ↦ rw hidden refl
              | inr shown ↦ rw shown refl
            ])
          ])
  ]
