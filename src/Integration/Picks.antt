-- ===== src/Integration/Picks.antt =====
-- integration.rs: what a pick among the services of the cluster guarantees.
use mathlib.Core.List.{Memᴰ}
use mathlib.Core.Path.{subst}
use cubelite.Prelude.{
  ◌⊎◌, inl, inr, Bool-cases, ℕ, ◌≤◌, ◌≡◌, refl, ap, ◌∙◌, Bool, true, false, ◌&&◌, not, Option, none,
  some, List, [], any, find, filter, length, filter_map, map_option, ◌==◌, arith, length-take,
  and_then-eq-some, map_option-eq-some,
}
use cubelite.Prelude.Members.{
  find-some, filter_option-some, all-Mem, filter-Mem, Mem-filter, Mem-take, filter_map-Mem,
}
use cubelite.Prelude.Texts.{text_eq, is_text, text_eq_iff}
use cubelite.K8s.{Service, OwnerReference}
use cubelite.Integration.Classify.{DetectedService}
use cubelite.Integration.Detect.{
  Integration, Verified, key_eq, key_of, Candidate, enumerate, is_main, ranked, claim_of, claims,
  selects_instance, owner_claim, trusted_owner, is_only_instance, is_one_click, web_ui_of,
  pick_from, pick,
}
use cubelite.Integration.Ranking.{made, ranked-Mem, Mem-ranked}

module _ (rules : Integration) where
  controlled-true : (o : Option Bool) → elim o [ none ↦ false | some c ↦ c ] ≡ true → o ≡ some true
  controlled-true none h = cc
  controlled-true (some c) h = ap some h

  trusted_owner-some :
      (best : Candidate) (owner : OwnerReference)
      → trusted_owner rules best ≡ some owner
      → (best.trusted ≡ true)
        × (owner_claim best.service rules.operator ≡ some owner)
        × (owner.controller ≡ some true)
        × (selects_instance rules.operator best.service owner.name ≡ true)
  unfolding trusted_owner
  trusted_owner-some best owner h =
      let (claimed, selects) =
        filter_option-some
          (λ (o : OwnerReference). selects_instance rules.operator best.service o.name) _ h in
      let (owned, both) =
        filter_option-some
          (λ (o : OwnerReference). best.trusted && elim o.controller [ none ↦ false | some c ↦ c ])
          (owner_claim best.service rules.operator) claimed in
      (ground arith, owned, controlled-true owner.controller (ground arith), selects)

  is_one_click-true :
      (found : List Candidate) (best : Candidate)
      → is_one_click rules found best ≡ true
      → (owner : OwnerReference) × (trusted_owner rules best ≡ some owner)
        × (is_only_instance rules found best owner ≡ true)
  unfolding is_one_click
  is_one_click-true found best h = from (trusted_owner rules best) refl h
    where
      from :
          (o : Option OwnerReference)
          → trusted_owner rules best ≡ o
          → elim o [ none ↦ false | some owner ↦ is_only_instance rules found best owner ] ≡ true
          → (owner : OwnerReference) × (trusted_owner rules best ≡ some owner)
            × (is_only_instance rules found best owner ≡ true)
      from none e k = cc
      from (some owner) e k = (owner, e, k)

  others :
      (found : List Candidate) (best c : Candidate) (owner : OwnerReference)
      → is_only_instance rules found best owner ≡ true
      → Memᴰ c found
      → is_main rules c.found ≡ true
      → (c.index == best.index) ≡ false
      → (is_text c.service.metadata.namespace best.found.namespace ≡ true)
        × (selects_instance rules.operator c.service owner.name ≡ true)
  unfolding is_only_instance
  others found best c owner h m main other =
      let both = all-Mem _ _ h (
        filter-Mem (λ (c : Candidate). is_main rules c.found && not (c.index == best.index)) found
          (ground arith) m) in
      (ground arith, ground arith)

  pick_from-one_click :
      (found : List Candidate)
      → (pick_from rules found).one_click ≡ true
      → (best : Candidate) × ((pick_from rules found).main ≡ some best.found)
        × Memᴰ best found
        × (is_one_click rules found best ≡ true)
  unfolding pick_from
  pick_from-one_click found h = from (find (λ (c : Candidate). is_main rules c.found) found) refl h
    where
      from :
          (o : Option Candidate)
          → find (λ (c : Candidate). is_main rules c.found) found ≡ o
          → elim o [ none ↦ false | some c ↦ is_one_click rules found c ] ≡ true
          → (best : Candidate) × (map_option
                (λ (c : Candidate). c.found)
                (find (λ (c : Candidate). is_main rules c.found) found)
              ≡ some best.found)
            × Memᴰ best found
            × (is_one_click rules found best ≡ true)
      from none e k = cc
      from (some best) e k =
          (best, ap (map_option (λ (c : Candidate). c.found)) e, (find-some _ found e).1, k)

  -- A one-click pick is of a listed main service that was verified, whose claimed owner is its
  -- controller and selects its pods.
  pub pick-one_click :
      (services : List Service) (verified : Verified)
      → (pick rules services verified).one_click ≡ true
      → (best : Candidate) × (owner : OwnerReference) × ((pick rules services verified).main
          ≡ some best.found)
        × Memᴰ (best.index, best.service) (enumerate 0 services)
        × (rules.classify best.service ≡ some best.found)
        × (any (key_eq (key_of rules best.found)) verified ≡ true)
        × (owner_claim best.service rules.operator ≡ some owner)
        × (owner.controller ≡ some true)
        × (selects_instance rules.operator best.service owner.name ≡ true)
  unfolding pick
  pick-one_click services verified h =
      let (best, main, m, one) = pick_from-one_click (ranked rules services verified) h in
      let (owner, claimed, only) = is_one_click-true (ranked rules services verified) best one in
      let (trusted, owned, controller, selects) = trusted_owner-some best owner claimed in
      let (classified, listed, checked) = ranked-Mem rules services verified m in
      (best, owner, main, listed, classified, ground arith, owned, controller, selects)

  -- With a one-click pick, the pick is of a listed service with an owner, and each listed service
  -- of the main kind is that service, or is of its namespace and selects the pods of the same
  -- owner.
  pub pick-only_instance :
      (services : List Service) (verified : Verified) (i : ℕ) (s : Service) (d : DetectedService)
      → (pick rules services verified).one_click ≡ true
      → Memᴰ (i, s) (enumerate 0 services)
      → rules.classify s ≡ some d
      → is_main rules d ≡ true
      → (best : Candidate) × (owner : OwnerReference) × ((pick rules services verified).main
          ≡ some best.found)
        × Memᴰ (best.index, best.service) (enumerate 0 services)
        × (rules.classify best.service ≡ some best.found)
        × (owner_claim best.service rules.operator ≡ some owner)
        × (((i == best.index) ≡ true)
            ⊎ ((is_text s.metadata.namespace best.found.namespace ≡ true)
                × (selects_instance rules.operator s owner.name ≡ true)))
  unfolding pick
  pick-only_instance services verified i s d h there e main =
      let (best, picked, m, one) = pick_from-one_click (ranked rules services verified) h in
      let (owner, claimed, only) = is_one_click-true (ranked rules services verified) best one in
      let (trusted, owned, controller, selects) = trusted_owner-some best owner claimed in
      (
        best,
        owner,
        picked,
        (ranked-Mem rules services verified m).1,
        (ranked-Mem rules services verified m).0,
        owned,
        (elim (Bool-cases (i == best.index)) [
          | inl same ↦ inl same
          | inr other ↦ inr (
              others (ranked rules services verified) best (made rules verified i s d) owner only
                (Mem-ranked rules services verified i s d there e) main other)
        ]),
      )

  web_ui_of-some :
      (found : List Candidate) (best : Candidate) (ui : DetectedService)
      → web_ui_of rules found best ≡ some ui
      → (is_main rules ui ≡ false) × (ui.namespace ≡ best.found.namespace)
  unfolding web_ui_of
  web_ui_of-some found best ui h =
      let (c, picked, same) = map_option-eq-some _ _ h in
      let (passes, there) =
        find-some
          (λ (c : Candidate).
            not (is_main rules c.found) && text_eq c.found.namespace best.found.namespace)
          found picked in
      subst
        (λ (d : DetectedService). (is_main rules d ≡ false) × (d.namespace ≡ best.found.namespace))
        same (ground arith, (text_eq_iff c.found.namespace best.found.namespace).0 (ground arith))

  -- If a web UI is picked, it goes with the picked main service: it is of another kind, in the same
  -- namespace.
  pub pick-web_ui :
      (services : List Service) (verified : Verified) (ui : DetectedService)
      → (pick rules services verified).web_ui ≡ some ui
      → (main : DetectedService) × ((pick rules services verified).main ≡ some main)
        × (is_main rules ui ≡ false)
        × (ui.namespace ≡ main.namespace)
  unfolding pick pick_from
  pick-web_ui services verified ui h =
      let found = ranked rules services verified in
      let (best, e, k) =
        and_then-eq-some (find (λ (c : Candidate). is_main rules c.found) found)
          (web_ui_of rules found) h in
      let (other, same) = web_ui_of-some found best ui k in
      (best.found, ap (map_option (λ (c : Candidate). c.found)) e, other, same)

  claim_of-some :
      (c : Candidate) (s : Service) (o : OwnerReference)
      → claim_of rules c ≡ some (s, o)
      → (c.service ≡ s) × (owner_claim s rules.operator ≡ some o)
  claim_of-some c s o h =
      let (p, owned, same) =
        map_option-eq-some (λ o. (c.service, o)) (owner_claim c.service rules.operator) h in
      let here : c.service ≡ s = cc same in
      let claimed : p ≡ o = cc same in
      (here, subst (λ t. owner_claim t rules.operator ≡ some o) here (owned ∙ ap some claimed))

  -- At most three owners are checked, and each is claimed by a listed service of the main kind.
  pub claims_bounds :
      (services : List Service) (s : Service) (o : OwnerReference)
      → Memᴰ (s, o) (claims rules services)
      → (length (claims rules services) ≤ 3)
        × ((i : ℕ) × (d : DetectedService) × Memᴰ (i, s) (enumerate 0 services)
            × (rules.classify s ≡ some d)
            × (is_main rules d ≡ true)
            × (owner_claim s rules.operator ≡ some o))
  unfolding claims
  claims_bounds services s o m =
      let main : Candidate → Bool = λ c. is_main rules c.found in
      let found : List Candidate = ranked rules services [] in
      let asked : List (Service × OwnerReference) =
        filter_map (claim_of rules) (filter main found) in
      let (c, e, there) =
        filter_map-Mem (claim_of rules) (filter main found) (Mem-take 3 asked m) in
      let (passes, listed) = Mem-filter main found there in
      let (here, owned) = claim_of-some c s o e in
      let (classified, place, trusted) = ranked-Mem rules services [] listed in
      (
        length-take 3 asked,
        (
          c.index,
          c.found,
          subst (λ t. Memᴰ (c.index, t) (enumerate 0 services)) here place,
          subst (λ t. rules.classify t ≡ some c.found) here classified,
          passes,
          owned,
        ),
      )
