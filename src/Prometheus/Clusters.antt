-- ===== src/Prometheus/Clusters.antt =====
-- prometheus/alerts.rs: the alerts of a cluster.
use cubelite.Prelude.{
  ◌≡◌, ◌⊎◌, inl, inr, refl, ap, true, Option, none, some, [], ◌∷◌, not, is_empty, filter_option,
}
use cubelite.Prelude.Maps.{get}
use cubelite.Prelude.Texts.{Text, codes, text_eq, text_eq_iff, trim}
use cubelite.Prometheus.Alerts.{Alert, asked, is_of_cluster}

-- The alert is of the cluster that is asked for, or has no cluster label; a blank cluster is none.
abbrev pub OfCluster : Option Text → Alert → Type 0
OfCluster none a = Unit {0}
OfCluster (some c) a =
    (trim c ≡ [])
    ⊎ (get text_eq a.labels (codes "cluster") ≡ none)
    ⊎ (get text_eq a.labels (codes "cluster") ≡ some (trim c))

label-cluster :
    (o : Option Text) (t : Text)
    → elim o [ none ↦ true | some v ↦ text_eq v t ] ≡ true
    → (o ≡ none) ⊎ (o ≡ some t)
label-cluster none t h = inl refl
label-cluster (some v) t h = inr (ap some ((text_eq_iff v t).0 h))

cluster-label :
    (o : Option Text) (t : Text)
    → (o ≡ none) ⊎ (o ≡ some t)
    → elim o [ none ↦ true | some v ↦ text_eq v t ] ≡ true
cluster-label none t h = refl
cluster-label (some v) t (inl h) = cc h
cluster-label (some v) t (inr h) = let same : v ≡ t = cc h in (text_eq_iff v t).1 same

pub is_of_cluster-OfCluster :
    (cluster : Option Text) (a : Alert)
    → is_of_cluster (asked cluster) a ≡ true
    → OfCluster cluster a
unfolding is_of_cluster
is_of_cluster-OfCluster none a h = tt
is_of_cluster-OfCluster (some c) a h = go (trim c) h
  where
    go :
        (t : Text)
        → is_of_cluster (filter_option (λ x. not (is_empty x)) (some t)) a ≡ true
        → (t ≡ [])
          ⊎ (get text_eq a.labels (codes "cluster") ≡ none)
          ⊎ (get text_eq a.labels (codes "cluster") ≡ some t)
    go [] h = inl refl
    go (x ∷ t) h = inr (label-cluster (get text_eq a.labels (codes "cluster")) (x ∷ t) h)

pub OfCluster-is_of_cluster :
    (cluster : Option Text) (a : Alert)
    → OfCluster cluster a
    → is_of_cluster (asked cluster) a ≡ true
unfolding is_of_cluster
OfCluster-is_of_cluster none a h = refl
OfCluster-is_of_cluster (some c) a h = go (trim c) h
  where
    go :
        (t : Text)
        → (t ≡ [])
          ⊎ (get text_eq a.labels (codes "cluster") ≡ none)
          ⊎ (get text_eq a.labels (codes "cluster") ≡ some t)
        → is_of_cluster (filter_option (λ x. not (is_empty x)) (some t)) a ≡ true
    go [] h = refl
    go (x ∷ t) (inl h) = cc h
    go (x ∷ t) (inr h) = cluster-label (get text_eq a.labels (codes "cluster")) (x ∷ t) h
