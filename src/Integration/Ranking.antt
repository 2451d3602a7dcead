-- ===== src/Integration/Ranking.antt =====
-- integration.rs: the ranking of the candidates, and that the pick is the first of it.
use mathlib.Core.List.{Memᴰ}
use Prim.Native.Nat.{Ordering}
use Prim.Native.Nat.Ordering.{lt}
use mathlib.Core.Path.{subst}
use cubelite.Prelude.{
  ℕ, ◌≡◌, refl, sym, ap, Bool, true, false, ◌&&◌, not, Option, none, some, List, [], ◌∷◌, any, find,
  map_option, arith, Bool-cases, inl, inr, ◌⊎◌, All, map_option-eq-some,
}
use cubelite.Prelude.Members.{find-some, Mem-sort_by, sort_by-Mem, Mem-filter_map, filter_map-Mem}
use cubelite.Prelude.Order.{
  IsOrder, is_le, then_with, bool_cmp, text_cmp, cmp_refl, bool_cmp-IsOrder, key-IsOrder,
  then_with-IsOrder, text_cmp-IsOrder,
}
use cubelite.Prelude.Lex.{then_with-le, bool_cmp-lt, bool_cmp-eq, text_cmp-eq}
use cubelite.Prelude.Sort.{IsSorted, sort_by-IsSorted}
use cubelite.Prelude.Texts.{text_eq}
use cubelite.K8s.{Service}
use cubelite.Integration.Classify.{DetectedService}
use cubelite.Integration.Detect.{
  Integration, Verified, key_eq, key_of, Candidate, enumerate, is_main, candidate, candidate_cmp,
  ranked, well_known_namespaces, pick_from, pick,
}

module _ {A : Type 0} {cmp : A → A → Ordering} (o : IsOrder cmp) where
  All-Mem : (P : A → Type 0) (xs : List A) {a : A} → All P xs → Memᴰ a xs → P a
  All-Mem P [] h m = elim m [ ]
  All-Mem P (x ∷ xs) h (Memᴰ.head e) = subst P (sym e) h.0
  All-Mem P (x ∷ xs) h (Memᴰ.tail m) = All-Mem P xs h.1 m

  -- In a sorted list, the first that passes is at most each other that passes.
  find-IsSorted :
      (p : A → Bool) (xs : List A) {b c : A}
      → IsSorted cmp xs
      → find p xs ≡ some b
      → Memᴰ c xs
      → p c ≡ true
      → is_le (cmp b c) ≡ true
  find-IsSorted p [] h e m k = cc
  find-IsSorted p (x ∷ xs) {b} {c} h e m k = elim (Bool-cases (p x)) [
    | inl t ↦ let same : x ≡ b = ground arith in subst (λ y. is_le (cmp y c) ≡ true) same (least m)
    | inr t ↦ elim m [
      | Memᴰ.head q ↦ ground (arith, subst (λ y. p y ≡ true) q k)
      | Memᴰ.tail q ↦ find-IsSorted p xs h.1 (ground arith) q k
    ]
  ]
    where
      least : Memᴰ c (x ∷ xs) → is_le (cmp x c) ≡ true
      least (Memᴰ.head q) = subst (λ y. is_le (cmp x y) ≡ true) (sym q) (ap is_le (cmp_refl o x))
      least (Memᴰ.tail q) = All-Mem (λ y. is_le (cmp x y) ≡ true) xs h.0 q

  find-none : (p : A → Bool) (xs : List A) {c : A} → find p xs ≡ none → Memᴰ c xs → p c ≡ false
  find-none p [] h m = elim m [ ]
  find-none p (x ∷ xs) h (Memᴰ.head e) = subst (λ y. p y ≡ false) (sym e) (ground arith)
  find-none p (x ∷ xs) h (Memᴰ.tail m) = find-none p xs (ground arith) m

module _ (rules : Integration) where
  -- The candidate that a listed service gives.
  abbrev pub made : Verified → ℕ → Service → DetectedService → Candidate
  made verified i s d = record {
    found = d;
    index = i;
    service = s;
    trusted = is_main rules d && any (key_eq (key_of rules d)) verified;
  }

  candidate-some :
      (verified : Verified) (i : ℕ) (s : Service) (c : Candidate)
      → candidate rules verified (i, s) ≡ some c
      → (d : DetectedService) × (rules.classify s ≡ some d) × (made verified i s d ≡ c)
  unfolding candidate
  candidate-some verified i s c h = from (rules.classify s) refl h
    where
      from :
          (o : Option DetectedService)
          → rules.classify s ≡ o
          → map_option (made verified i s) o ≡ some c
          → (d : DetectedService) × (rules.classify s ≡ some d) × (made verified i s d ≡ c)
      from none e k = cc
      from (some d) e k = (d, e, cc k)

  pub ranked-Mem :
      (services : List Service) (verified : Verified) {c : Candidate}
      → Memᴰ c (ranked rules services verified)
      → (rules.classify c.service ≡ some c.found)
        × Memᴰ (c.index, c.service) (enumerate 0 services)
        × (c.trusted ≡ (is_main rules c.found && any (key_eq (key_of rules c.found)) verified))
  unfolding ranked
  ranked-Mem services verified {c} m =
      let ((i, s), e, there) =
        filter_map-Mem (candidate rules verified) (enumerate 0 services)
          (sort_by-Mem (candidate_cmp rules) _ m) in
      let (d, classified, same) = candidate-some verified i s c e in
      subst
        (λ (c : Candidate).
          (rules.classify c.service ≡ some c.found)
          × Memᴰ (c.index, c.service) (enumerate 0 services)
          × (c.trusted ≡ (is_main rules c.found && any (key_eq (key_of rules c.found)) verified)))
        same (classified, there, refl)

  pub Mem-ranked :
      (services : List Service) (verified : Verified) (i : ℕ) (s : Service) (d : DetectedService)
      → Memᴰ (i, s) (enumerate 0 services)
      → rules.classify s ≡ some d
      → Memᴰ (made verified i s d) (ranked rules services verified)
  unfolding ranked candidate
  Mem-ranked services verified i s d m e =
      Mem-sort_by (candidate_cmp rules) _
        (Mem-filter_map (candidate rules verified) (enumerate 0 services) (rw e refl) m)

  candidate_cmp-IsOrder : IsOrder (candidate_cmp rules)
  unfolding candidate_cmp
  candidate_cmp-IsOrder =
      then_with-IsOrder
        (key-IsOrder (λ (c : Candidate). not (is_main rules c.found)) bool_cmp-IsOrder)
        (then_with-IsOrder (key-IsOrder (λ (c : Candidate). not c.trusted) bool_cmp-IsOrder) (
          then_with-IsOrder
            (key-IsOrder
              (λ (c : Candidate). not (any (text_eq c.found.namespace) well_known_namespaces))
              bool_cmp-IsOrder)
            (then_with-IsOrder
              (key-IsOrder (λ (c : Candidate). not (rules.conventional c.found)) bool_cmp-IsOrder)
              (then_with-IsOrder
                (key-IsOrder (λ (c : Candidate). c.found.namespace) text_cmp-IsOrder)
                (key-IsOrder (λ (c : Candidate). c.found.name) text_cmp-IsOrder)))))

  ranked-IsSorted :
      (services : List Service) (verified : Verified)
      → IsSorted (candidate_cmp rules) (ranked rules services verified)
  unfolding ranked
  ranked-IsSorted services verified = sort_by-IsSorted candidate_cmp-IsOrder _

  -- The candidate that is picked
  abbrev pub best_of : List Service → Verified → Option Candidate
  best_of services verified =
      find (λ (c : Candidate). is_main rules c.found) (ranked rules services verified)

  abbrev pub is_well_known : Candidate → Bool
  is_well_known c = any (text_eq c.found.namespace) well_known_namespaces

  -- The order of the main candidates: verified, of a well-known namespace, conventional, namespace,
  -- name
  abbrev pub Precedes : Candidate → Candidate → Type 0
  Precedes b c =
      ((b.trusted ≡ true) × (c.trusted ≡ false))
      ⊎ ((b.trusted ≡ c.trusted)
          × (((is_well_known b ≡ true) × (is_well_known c ≡ false))
              ⊎ ((is_well_known b ≡ is_well_known c)
                  × (((rules.conventional b.found ≡ true) × (rules.conventional c.found ≡ false))
                      ⊎ ((rules.conventional b.found ≡ rules.conventional c.found)
                          × ((text_cmp b.found.namespace c.found.namespace ≡ lt)
                              ⊎ ((b.found.namespace ≡ c.found.namespace)
                                  × (is_le (text_cmp b.found.name c.found.name) ≡ true))))))))

  -- A test that is passed comes first.
  passed_first :
      (x y : Bool) (rest : Ordering) {More : Type 0}
      → is_le (then_with (bool_cmp (not x) (not y)) rest) ≡ true
      → (is_le rest ≡ true → More)
      → ((x ≡ true) × (y ≡ false)) ⊎ ((x ≡ y) × More)
  passed_first x y rest h more = elim (then_with-le (bool_cmp (not x) (not y)) rest h) [
    | inl l ↦ inl (bool_cmp-lt x y l)
    | inr (e, k) ↦ inr (bool_cmp-eq x y e, more k)
  ]

  candidate_cmp-Precedes :
      (b c : Candidate)
      → is_main rules b.found ≡ true
      → is_main rules c.found ≡ true
      → is_le (candidate_cmp rules b c) ≡ true
      → Precedes b c
  unfolding candidate_cmp bool_cmp
  candidate_cmp-Precedes b c p q h = passed_first b.trusted c.trusted _ (rw (p, q) at h) (λ h1.
      passed_first (is_well_known b) (is_well_known c) _ h1 (λ h2.
        passed_first (rules.conventional b.found) (rules.conventional c.found) _ h2 (λ h3.
          (elim (then_with-le (text_cmp b.found.namespace c.found.namespace) _ h3) [
            | inl l ↦ inl l
            | inr (e, h4) ↦ inr (text_cmp-eq b.found.namespace c.found.namespace e, h4)
          ]))))

  -- If a main service is picked, it comes before each listed service of the main kind: a verified
  -- one before others, then one of a well-known namespace, then one with a conventional name, then
  -- by namespace and by name.
  pub pick-first :
      (services : List Service) (verified : Verified) (m : DetectedService) (i : ℕ) (s : Service)
      (d : DetectedService)
      → (pick rules services verified).main ≡ some m
      → Memᴰ (i, s) (enumerate 0 services)
      → rules.classify s ≡ some d
      → is_main rules d ≡ true
      → (best : Candidate) × (best_of services verified ≡ some best)
        × (best.found ≡ m)
        × Precedes best (made verified i s d)
  unfolding pick pick_from
  pick-first services verified m i s d h there k p =
      let (best, e, same) =
        map_option-eq-some (λ (c : Candidate). c.found) (best_of services verified) h in
      (
        best,
        e,
        same,
        candidate_cmp-Precedes best (made verified i s d)
            (find-some (λ c. is_main rules c.found) (ranked rules services verified) e).0 p
            (find-IsSorted candidate_cmp-IsOrder (λ c. is_main rules c.found)
              (ranked rules services verified) (ranked-IsSorted services verified) e
              (Mem-ranked services verified i s d there k) p),
      )

  -- If nothing is picked, no listed service is of the main kind.
  pub pick-none :
      (services : List Service) (verified : Verified)
      → (pick rules services verified).main ≡ none
      → (i : ℕ) (s : Service) (d : DetectedService) → Memᴰ (i, s) (enumerate 0 services)
      → rules.classify s ≡ some d
      → is_main rules d ≡ false
  unfolding pick pick_from
  pick-none services verified h i s d there k =
      find-none candidate_cmp-IsOrder (λ c. is_main rules c.found) (ranked rules services verified)
        (from (find (λ (c : Candidate). is_main rules c.found) (ranked rules services verified)) h)
        (Mem-ranked services verified i s d there k)
    where
      from : (o : Option Candidate) → map_option (λ (c : Candidate). c.found) o ≡ none → o ≡ none
      from none e = refl
      from (some c) e = cc
