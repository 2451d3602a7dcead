-- ===== src/Watcher/Pods.antt =====
-- watcher.rs: when a pod counts as ready, its restarts, and the order of its containers' details.
use cubelite.Prelude.{
  ℕ, ◌+◌, ◌<◌, ◌^◌, ◌≡◌, refl, sym, ap, ◌∙◌, Bool, ◌&&◌, not, some, List, [], ◌∷◌, map, any, all,
  length, count, is_empty, unwrap_or, map_option-eq-some, arith, count-le-length, length-map,
}
use cubelite.Prelude.Int.{ℤ, pos, int_eq, int_add, sum_i32, as_i32, as_i32-pos}
use cubelite.Prelude.Texts.{text_eq}
use cubelite.K8s.{Container, ContainerStatus, Pod}
use cubelite.Watcher.{
  ContainerInfo, PodInfo, default_spec, default_status, container_info, is_positive, pod_to_info,
}

-- A container is ready if a status of its name says so.
abbrev pub is_container_ready : Pod → Container → Bool
is_container_ready pod c =
    any (λ (s : ContainerStatus). text_eq s.name c.name && s.ready)
      (unwrap_or (unwrap_or pod.status default_status).container_statuses [])

abbrev pub containers_of : Pod → List Container
containers_of pod = (unwrap_or pod.spec default_spec).containers

count-map {ℓ κ} :
    {A : Type ℓ} {B : Type κ} (f : A → B) (p : B → Bool) (xs : List A)
    → count p (map f xs) ≡ count (λ a. p (f a)) xs
count-map f p [] = refl
count-map f p (x ∷ xs) = ground (arith, count-map f p xs)

-- All pass exactly if as many pass as there are.
all-count {ℓ} :
    {A : Type ℓ} (p : A → Bool) (xs : List A)
    → all p xs ≡ int_eq (pos (count p xs)) (pos (length xs))
unfolding int_eq
all-count p [] = refl
all-count p (x ∷ xs) = ground (arith, all-count p xs, count-le-length p xs)

is_positive-length {ℓ} :
    {A : Type ℓ} (xs : List A) → is_positive (pos (length xs)) ≡ not (is_empty xs)
is_positive-length [] = refl
is_positive-length (x ∷ xs) = ground arith

-- The counts, as they stand in the `i32`s
count-as_i32 :
    (pod : Pod)
    → length (containers_of pod) < 2 ^ 31
    → (as_i32 (
          length (
            map
              (container_info
                (unwrap_or (unwrap_or pod.status default_status).container_statuses []))
              (containers_of pod)))
        ≡ pos (length (containers_of pod)))
      × (as_i32 (
            count
              (λ (c : ContainerInfo). c.ready)
              (map
                (container_info
                  (unwrap_or (unwrap_or pod.status default_status).container_statuses []))
                (containers_of pod)))
          ≡ pos (count (is_container_ready pod) (containers_of pod)))
unfolding container_info
count-as_i32 pod h =
    let info : Container → ContainerInfo =
      container_info (unwrap_or (unwrap_or pod.status default_status).container_statuses []) in
    let len : length (map info (containers_of pod)) ≡ length (containers_of pod) =
      length-map info (containers_of pod) in
    let cnt = count-map info (λ (c : ContainerInfo). c.ready) (containers_of pod) in
    (
      ap as_i32 len ∙ as_i32-pos _ h,
      ap as_i32 cnt
          ∙ as_i32-pos (count (is_container_ready pod) (containers_of pod))
              (omega (arith, count-le-length (is_container_ready pod) (containers_of pod))),
    )

ready_eq {ℓ} :
    {A : Type ℓ} (p : A → Bool) (xs : List A) {t r : ℤ}
    → t ≡ pos (length xs)
    → r ≡ pos (count p xs)
    → (is_positive t && int_eq r t) ≡ (not (is_empty xs) && all p xs)
ready_eq p xs e k =
    (λ i. is_positive (e i) && int_eq (k i) (e i))
    ∙ (λ i. is_positive-length xs i && sym (all-count p xs) i)

-- A pod with less than 2^31 containers is ready exactly if it has containers and each has a status
-- that says it is ready; the counts are those of its containers and of its ready containers.
pub pod_to_info-ready :
    (pod : Pod) (info : PodInfo)
    → length (containers_of pod) < 2 ^ 31
    → pod_to_info pod ≡ some info
    → (info.ready
        ≡ (not (is_empty (containers_of pod)) && all (is_container_ready pod) (containers_of pod)))
      × (info.total_containers ≡ pos (length (containers_of pod)))
      × (info.ready_containers ≡ pos (count (is_container_ready pod) (containers_of pod)))
unfolding pod_to_info
pod_to_info-ready pod info h e =
    let (name, named, same) = map_option-eq-some _ pod.metadata.name e in
    let (total, ready) = count-as_i32 pod h in
    (
      sym (ap (λ (i : PodInfo). i.ready) same)
          ∙ ready_eq (is_container_ready pod) (containers_of pod) total ready,
      sym (ap (λ (i : PodInfo). i.total_containers) same) ∙ total,
      sym (ap (λ (i : PodInfo). i.ready_containers) same) ∙ ready,
    )

-- The restarts of the statuses that are listed.
abbrev pub total_of : List ℕ → ℕ
total_of [] = 0
total_of (n ∷ ns) = n + total_of ns

-- A sum that fits in an `i32` is the sum.
sum_i32-total_of : (ns : List ℕ) → total_of ns < 2 ^ 31 → sum_i32 (map pos ns) ≡ pos (total_of ns)
unfolding sum_i32 as_i32
sum_i32-total_of [] h = refl
sum_i32-total_of (n ∷ ns) h =
    rw (sum_i32-total_of ns (omega arith)) (unfold int_add in as_i32-pos (n + total_of ns) h)

-- The restarts of a pod are the sum of the counts of its container statuses, without those of its
-- init containers and sidecars, if these counts are not negative and the sum fits in 31 bits.
pub pod_to_info-restarts :
    (pod : Pod) (info : PodInfo) (counts : List ℕ)
    → map
        (λ (s : ContainerStatus). s.restart_count)
        (unwrap_or (unwrap_or pod.status default_status).container_statuses [])
      ≡ map pos counts
    → total_of counts < 2 ^ 31
    → pod_to_info pod ≡ some info
    → info.restarts ≡ pos (total_of counts)
unfolding pod_to_info
pod_to_info-restarts pod info counts listed h e =
    let (name, named, same) = map_option-eq-some _ pod.metadata.name e in
    sym (ap (λ (i : PodInfo). i.restarts) same) ∙ ap sum_i32 listed ∙ sum_i32-total_of counts h
