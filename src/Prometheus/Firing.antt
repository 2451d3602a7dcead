-- ===== src/Prometheus/Firing.antt =====
-- prometheus/alerts.rs: which alerts are shown, how often, and in which order.
use mathlib.Core.List.{Memᴰ}
use mathlib.Core.Path.{subst}
use cubelite.Prelude.{
  ◌≤◌, ◌≡◌, ◌⊎◌, inl, inr, refl, sym, true, false, Option, List, [], ◌∷◌, map, if◌then◌else◌, any,
  filter, count, arith, Bool-cases,
}
use cubelite.Prelude.Lex.{InOrder, IsSorted-InOrder}
use cubelite.Prelude.Members.{Mem-filter, filter-Mem, Mem-sort_by, sort_by-Mem, Mem-map, map-Mem}
use cubelite.Prelude.Sort.{sort_by, sort_by-IsSorted, count-sort_by}
use cubelite.Prelude.Texts.{Text}
use cubelite.K8s.{Labels}
use cubelite.Prometheus.Alerts.{
  Alert, asked, labels_eq, is_of_cluster, retain_new, alert_cmp, with_expr, finish,
  alert_series_query,
}
use cubelite.Prometheus.Clusters.{OfCluster, is_of_cluster-OfCluster, OfCluster-is_of_cluster}
use cubelite.Prometheus.AlertOrder.{Before, alert_cmp-Before, labels_eq-same}
use cubelite.Prometheus.Labels.{alert_cmp-IsOrder, labels_eq_refl, labels_eq_symm, any-labels_eq}

retain_new-Mem :
    (seen : List Labels) (xs : List Alert) {a : Alert} → Memᴰ a (retain_new seen xs) → Memᴰ a xs
unfolding retain_new
retain_new-Mem seen [] m = m
retain_new-Mem seen (x ∷ xs) {a} m = elim (Bool-cases (any (λ l. labels_eq l x.labels) seen)) [
  | inl e ↦ Memᴰ.tail (
      retain_new-Mem seen xs (
        subst
          (λ k. Memᴰ a (
            if k
            then retain_new (if k then seen else x.labels ∷ seen) xs
            else x ∷ retain_new (if k then seen else x.labels ∷ seen) xs))
          e m))
  | inr e ↦
      kept (λ k. retain_new-Mem (x.labels ∷ seen) xs k)
        (subst
          (λ k. Memᴰ a (
            if k
            then retain_new (if k then seen else x.labels ∷ seen) xs
            else x ∷ retain_new (if k then seen else x.labels ∷ seen) xs))
          e m)
]
  where
    kept :
        (Memᴰ a (retain_new (x.labels ∷ seen) xs) → Memᴰ a xs)
        → Memᴰ a (x ∷ retain_new (x.labels ∷ seen) xs)
        → Memᴰ a (x ∷ xs)
    kept rest (Memᴰ.head k) = Memᴰ.head k
    kept rest (Memᴰ.tail k) = Memᴰ.tail (rest k)

-- At most one alert of a label set is kept, and none of one that was seen.
count-retain_new :
    (seen : List Labels) (xs : List Alert) (l : Labels)
    → count (λ (a : Alert). labels_eq l a.labels) (retain_new seen xs)
      ≤ (if any (λ s. labels_eq s l) seen then 0 else 1)
unfolding retain_new
count-retain_new seen [] l = ground arith
count-retain_new seen (x ∷ xs) l = elim (Bool-cases (any (λ s. labels_eq s x.labels) seen)) [
  | inl e ↦ rw e (count-retain_new seen xs l)
  | inr e ↦ rw e (
      ground (
        arith,
        count-retain_new (x.labels ∷ seen) xs l,
        labels_eq_symm l x.labels,
        any-labels_eq seen l x.labels,
      ))
]

-- Of each alert's label set one alert is kept, unless it was seen.
Mem-retain_new :
    (seen : List Labels) (xs : List Alert) {b : Alert}
    → Memᴰ b xs
    → (any (λ s. labels_eq s b.labels) seen ≡ true)
      ⊎ ((a : Alert) × Memᴰ a (retain_new seen xs) × (labels_eq a.labels b.labels ≡ true))
unfolding retain_new
Mem-retain_new seen [] m = elim m [ ]
Mem-retain_new seen (x ∷ xs) {b} (Memᴰ.head e) =
    elim (Bool-cases (any (λ l. labels_eq l x.labels) seen)) [
      | inl k ↦ inl (subst (λ (a : Alert). any (λ l. labels_eq l a.labels) seen ≡ true) (sym e) k)
      | inr k ↦ inr (
        x,
        rw k (Memᴰ.head refl),
        subst (λ (a : Alert). labels_eq x.labels a.labels ≡ true) (sym e) (labels_eq_refl x.labels),
      )
    ]
Mem-retain_new seen (x ∷ xs) {b} (Memᴰ.tail m) =
    elim (Bool-cases (any (λ l. labels_eq l x.labels) seen)) [
      | inl k ↦ rw k (elim (Mem-retain_new seen xs m) [
        | inl h ↦ inl h
        | inr (a, there, same) ↦ inr (a, there, same)
      ])
      | inr k ↦ rw k (from (Mem-retain_new (x.labels ∷ seen) xs m))
    ]
  where
    from :
        (any (λ s. labels_eq s b.labels) (x.labels ∷ seen) ≡ true)
          ⊎ ((a : Alert) × Memᴰ a (retain_new (x.labels ∷ seen) xs)
              × (labels_eq a.labels b.labels ≡ true))
        → (any (λ s. labels_eq s b.labels) seen ≡ true)
          ⊎ ((a : Alert) × Memᴰ a (x ∷ retain_new (x.labels ∷ seen) xs)
              × (labels_eq a.labels b.labels ≡ true))
    from (inl h) = elim (Bool-cases (labels_eq x.labels b.labels)) [
      | inl same ↦ inr (x, Memᴰ.head refl, same)
      | inr other ↦ inl (ground arith)
    ]
    from (inr (a, there, same)) = inr (a, Memᴰ.tail there, same)

count-with_expr :
    (cluster : Option Text) (l : Labels) (xs : List Alert)
    → count (λ (a : Alert). labels_eq l a.labels) (map (with_expr cluster) xs)
      ≡ count (λ (a : Alert). labels_eq l a.labels) xs
count-with_expr cluster l [] = refl
count-with_expr cluster l (x ∷ xs) = rw (count-with_expr cluster l xs) refl

-- Of two alerts shown, the first is more severe, by a list of the severities that stands with the
-- order, or as severe and its start comes first as a text, or is the same and its name and then its
-- labels come first or are the same; and no label set is shown twice.
pub finish-InOrder :
    (alerts : List Alert) (cluster : Option Text) (l : Labels)
    → InOrder Before (finish alerts cluster)
      × (count (λ (a : Alert). labels_eq l a.labels) (finish alerts cluster) ≤ 1)
unfolding finish
finish-InOrder alerts cluster l =
    let own : List Alert = filter (is_of_cluster (asked cluster)) alerts in
    let kept : List Alert = retain_new [] own in
    (
      IsSorted-InOrder alert_cmp _ alert_cmp-Before
          (sort_by-IsSorted alert_cmp-IsOrder (map (with_expr cluster) kept)),
      omega (
        arith,
        count-sort_by alert_cmp (λ (a : Alert). labels_eq l a.labels)
            (map (with_expr cluster) kept),
        count-with_expr cluster l kept,
        count-retain_new [] own l,
      ),
    )

-- An alert that is shown is one of those given with its fallback expression, and has the cluster as
-- its cluster label, or has no such label, or is shown for no cluster or a blank one.
pub finish_sound :
    (alerts : List Alert) (cluster : Option Text) (a : Alert)
    → Memᴰ a (finish alerts cluster)
    → (b : Alert) × Memᴰ b alerts
      × OfCluster cluster b
      × (a ≡ record b { expr = alert_series_query b.name cluster })
unfolding finish
finish_sound alerts cluster a m =
    let own : List Alert = filter (is_of_cluster (asked cluster)) alerts in
    let kept : List Alert = retain_new [] own in
    let (b, e, there) =
      map-Mem (with_expr cluster) kept (sort_by-Mem alert_cmp (map (with_expr cluster) kept) m) in
    let (of_cluster, listed) =
      Mem-filter (is_of_cluster (asked cluster)) alerts (retain_new-Mem [] own there) in
    (b, listed, is_of_cluster-OfCluster cluster b of_cluster, e)

-- An alert that is given, and has the cluster as its cluster label, or has no such label, or is
-- given for no cluster or a blank one, is shown, or one with the same labels is.
pub finish_complete :
    (alerts : List Alert) (cluster : Option Text) (b : Alert)
    → Memᴰ b alerts
    → OfCluster cluster b
    → (a : Alert) × Memᴰ a (finish alerts cluster) × (a.labels ≡ b.labels)
unfolding finish
finish_complete alerts cluster b m h = shown (
    Mem-retain_new [] (filter (is_of_cluster (asked cluster)) alerts)
      (filter-Mem (is_of_cluster (asked cluster)) alerts (OfCluster-is_of_cluster cluster b h) m))
  where
    shown :
        (false ≡ true)
          ⊎ ((a : Alert) × Memᴰ a (retain_new [] (filter (is_of_cluster (asked cluster)) alerts))
              × (labels_eq a.labels b.labels ≡ true))
        → (a : Alert) × Memᴰ a (
            sort_by alert_cmp (
              map
                (with_expr cluster)
                (retain_new [] (filter (is_of_cluster (asked cluster)) alerts))))
          × (a.labels ≡ b.labels)
    shown (inl h) = cc
    shown (inr (a, there, same)) = (
      with_expr cluster a,
      Mem-sort_by alert_cmp
          (map (with_expr cluster) (retain_new [] (filter (is_of_cluster (asked cluster)) alerts)))
          (Mem-map (with_expr cluster)
            (retain_new [] (filter (is_of_cluster (asked cluster)) alerts)) there),
      labels_eq-same a.labels b.labels same,
    )
