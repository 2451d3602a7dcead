-- ===== src/Watcher/Containers.antt =====
-- watcher.rs: the order of a pod's container details.
use mathlib.Core.List.{append-nil}
use cubelite.Prelude.{
  ◌≡◌, refl, sym, ap, ◌∙◌, Bool, true, false, ◌&&◌, not, List, [], ◌∷◌, ◌++◌, map, filter,
  unwrap_or, arith,
}
use cubelite.K8s.{Container, ContainerStatus, PodSpec, PodStatus, Pod}
use cubelite.Watcher.{
  ContainerDetail, default_spec, default_status, detail, is_sidecar, pod_to_container_details,
}

abbrev pub spec_of : Pod → PodSpec
spec_of pod = unwrap_or pod.spec default_spec

abbrev pub inits_of : Pod → List Container
inits_of pod = unwrap_or (spec_of pod).init_containers []

module _ {ℓ κ} {A : Type ℓ} {B : Type κ} (f : A → B) (p : B → Bool) where
  filter-map_all : (xs : List A) → ((a : A) → p (f a) ≡ true) → filter p (map f xs) ≡ map f xs
  filter-map_all [] h = refl
  filter-map_all (x ∷ xs) h = rw (h x, filter-map_all xs h) refl

  filter-map_none : (xs : List A) → ((a : A) → p (f a) ≡ false) → filter p (map f xs) ≡ []
  filter-map_none [] h = refl
  filter-map_none (x ∷ xs) h = rw (h x, filter-map_none xs h) refl

filter-append {ℓ} :
    {A : Type ℓ} (p : A → Bool) (xs ys : List A) → filter p (xs ++ ys) ≡ filter p xs ++ filter p ys
filter-append p [] ys = refl
filter-append p (x ∷ xs) ys = ground (arith, filter-append p xs ys)

map-map_name :
    (f : Container → ContainerDetail) (xs : List Container)
    → ((c : Container) → (f c).name ≡ c.name)
    → map (λ (d : ContainerDetail). d.name) (map f xs) ≡ map (λ (c : Container). c.name) xs
map-map_name f [] h = refl
map-map_name f (x ∷ xs) h = rw (h x, map-map_name f xs h) refl

abbrev pub is_app : ContainerDetail → Bool
is_app d = not d.init && not d.sidecar

-- What a filter by the flags leaves of the three parts
three_parts :
    (f g h : Container → ContainerDetail) (xs ys zs : List Container)
    → ((c : Container) → ((f c).init ≡ false) × ((f c).sidecar ≡ false))
    → ((c : Container) → ((g c).init ≡ false) × ((g c).sidecar ≡ true))
    → ((c : Container) → ((h c).init ≡ true) × ((h c).sidecar ≡ false))
    → (filter is_app (map f xs ++ (map g ys ++ map h zs)) ≡ map f xs)
      × (filter (λ (d : ContainerDetail). d.sidecar) (map f xs ++ (map g ys ++ map h zs))
          ≡ map g ys)
      × (filter (λ (d : ContainerDetail). d.init) (map f xs ++ (map g ys ++ map h zs)) ≡ map h zs)
three_parts f g h xs ys zs hf hg hh = (
  cut is_app
      ∙ rw
          (
            filter-map_all f is_app xs (λ c. ground (arith, hf c)),
            filter-map_none g is_app ys (λ c. ground (arith, hg c)),
            filter-map_none h is_app zs (λ c. ground (arith, hh c)),
          )
          (append-nil (map f xs)),
  cut (λ (d : ContainerDetail). d.sidecar)
      ∙ rw
          (
            filter-map_none f (λ d. d.sidecar) xs (λ c. (hf c).1),
            filter-map_all g (λ d. d.sidecar) ys (λ c. (hg c).1),
            filter-map_none h (λ d. d.sidecar) zs (λ c. (hh c).1),
          )
          (append-nil (map g ys)),
  cut (λ (d : ContainerDetail). d.init)
      ∙ rw
          (
            filter-map_none f (λ d. d.init) xs (λ c. (hf c).0),
            filter-map_none g (λ d. d.init) ys (λ c. (hg c).0),
            filter-map_all h (λ d. d.init) zs (λ c. (hh c).0),
          )
          refl,
)
  where
    cut :
        (p : ContainerDetail → Bool)
        → filter p (map f xs ++ (map g ys ++ map h zs))
          ≡ filter p (map f xs) ++ (filter p (map g ys) ++ filter p (map h zs))
    cut p =
        filter-append p (map f xs) (map g ys ++ map h zs)
        ∙ ap (λ l. filter p (map f xs) ++ l) (filter-append p (map g ys) (map h zs))

-- The details of a pod's containers are the app containers, then the sidecars, then the plain init
-- containers, each part in the order of the spec, flagged as what it is, and under the names of the
-- spec.
pub pod_to_container_details-order :
    (pod : Pod)
    → (pod_to_container_details pod
        ≡ filter is_app (pod_to_container_details pod)
          ++ (filter (λ (d : ContainerDetail). d.sidecar) (pod_to_container_details pod)
              ++ filter (λ (d : ContainerDetail). d.init) (pod_to_container_details pod)))
      × (map (λ (d : ContainerDetail). d.name) (filter is_app (pod_to_container_details pod))
          ≡ map (λ (c : Container). c.name) (spec_of pod).containers)
      × (map
            (λ (d : ContainerDetail). d.name)
            (filter (λ (d : ContainerDetail). d.sidecar) (pod_to_container_details pod))
          ≡ map (λ (c : Container). c.name) (filter is_sidecar (inits_of pod)))
      × (map
            (λ (d : ContainerDetail). d.name)
            (filter (λ (d : ContainerDetail). d.init) (pod_to_container_details pod))
          ≡ map (λ (c : Container). c.name) (filter (λ c. not (is_sidecar c)) (inits_of pod)))
unfolding pod_to_container_details
pod_to_container_details-order pod =
    let status : PodStatus = unwrap_or pod.status default_status in
    let statuses : List ContainerStatus =
      unwrap_or status.container_statuses [] ++ unwrap_or status.init_container_statuses [] in
    let app : Container → ContainerDetail = λ c. detail statuses c.name false false in
    let sidecar : Container → ContainerDetail = λ c. detail statuses c.name true true in
    let plain : Container → ContainerDetail = λ c. detail statuses c.name true false in
    let (apps, sidecars, plains) =
      three_parts app sidecar plain (spec_of pod).containers (filter is_sidecar (inits_of pod))
        (filter (λ c. not (is_sidecar c)) (inits_of pod)) (λ c. unfold detail in (refl, refl))
        (λ c. unfold detail in (refl, refl)) (λ c. unfold detail in (refl, refl)) in
    (
      λ i. sym apps i ++ (sym sidecars i ++ sym plains i),
      ap (map (λ (d : ContainerDetail). d.name)) apps
          ∙ map-map_name app (spec_of pod).containers (λ c. unfold detail in refl),
      ap (map (λ (d : ContainerDetail). d.name)) sidecars
          ∙ map-map_name sidecar (filter is_sidecar (inits_of pod)) (λ c. unfold detail in refl),
      ap (map (λ (d : ContainerDetail). d.name)) plains
          ∙ map-map_name plain (filter (λ c. not (is_sidecar c)) (inits_of pod))
              (λ c. unfold detail in refl),
    )
