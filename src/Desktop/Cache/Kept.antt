-- ===== src/Desktop/Cache/Kept.antt =====
-- cache.rs: every step of the calls keeps the invariant of the cache.
use cubelite.Prelude.{
  ℕ, zero, suc, ◌%◌, ◌^◌, ◌≤◌, ◌<◌, ◌≡◌, refl, sym, ◌∙◌, Bool, true, Option, none, some, ◌==◌,
  ==_iff, arith, All, Bool-cases, Option-cases, inl, inr,
}
use mathlib.Core.Path.{subst}
use cubelite.Prelude.Results.{ok}
use cubelite.Desktop.Cache
use cubelite.Desktop.Cache.{
  ConnKey, key_eq, Arc, ConnCache, Call, Settled, new_cache, cached, look_up, connected, settle,
}
use cubelite.Desktop.Cache.Entries.{All-get, All-insert, cached-some}
use cubelite.Desktop.Cache.Steps.{Opened, World, move, after_settle, Step, Reach}
use cubelite.Desktop.Cache.Current.{
  IsCurrent, IsCurrentEntry, Seen, Pending, Inv, tasks-set, forgotten-Inv, cleared-Inv,
  invalidate-entries,
}

module _ {E : Type 0} where
  module _ (endpoint_eq : E → E → Bool) (exact : (a b : E) → endpoint_eq a b ≡ true → a ≡ b) where
    -- What the cache gives out was opened for the endpoint asked for, after the last change.
    pub cached-IsCurrent :
        (w : World E) (key : ConnKey) (endpoint : E) {conn : Arc (Opened E)}
        → All (IsCurrentEntry w) w.cache.map
        → cached endpoint_eq w.cache key endpoint ≡ some conn
        → IsCurrent w key endpoint conn
    cached-IsCurrent w key endpoint h found =
        let (e, same, there) = cached-some endpoint_eq w.cache key endpoint found in
        let (k, p, epoch) = All-get (IsCurrentEntry w) w.cache.map key h there in
        (k, p ∙ exact e endpoint same, epoch)

    -- The moment at which a generation was read is now, if the generation is the one of now.
    Seen-now :
        (w : World E) (generation b : ℕ)
        → w.bumps < 2 ^ 64
        → w.cache.generation ≡ w.bumps % 2 ^ 64
        → Seen w generation b
        → (w.cache.generation == generation) ≡ true
        → b ≡ w.bumps
    Seen-now w generation b small now (before, seen) h =
        let same : w.cache.generation ≡ generation = (==_iff w.cache.generation generation).0 h in
        omega arith

    -- What a call ends with under the second lock
    abbrev pub SettledWell : World E → ConnKey → E → Settled E (Opened E) → Type 0
    SettledWell w key endpoint Settled.start_over = Unit
    SettledWell w key endpoint (Settled.settled conn cache) =
        IsCurrent w key endpoint conn
        × All (IsCurrentEntry w) cache.map
        × (cache.generation ≡ w.cache.generation)

    settle-SettledWell :
        (w : World E) (key : ConnKey) (endpoint : E) (rounds generation : ℕ)
        (fresh : Arc (Opened E))
        → w.bumps < 2 ^ 64
        → Inv w
        → Pending w key endpoint (Call.opened rounds generation fresh)
        → SettledWell w key endpoint (settle endpoint_eq w.cache key endpoint generation fresh)
    unfolding settle
    settle-SettledWell w key endpoint rounds generation fresh small inv (b, seen, serves, late) =
        elim (Bool-cases (w.cache.generation == generation)) [
          | inr changed ↦ rw changed tt
          | inl same ↦
              let current : fresh.value.epoch ≡ w.epoch key.1 =
                late (Seen-now w generation b small inv.generation seen same) in
              elim (Option-cases (cached endpoint_eq w.cache key endpoint)) [
                | inr (conn, e) ↦
                    rw (same, e) (cached-IsCurrent w key endpoint inv.entries e, inv.entries, refl)
                | inl e ↦
                    rw (same, e)
                      (
                        (serves.0, serves.1, current),
                        All-insert (IsCurrentEntry w) w.cache.map key (endpoint, fresh) inv.entries
                            (serves.0, serves.1, current),
                        refl,
                      )
              ]
        ]

    look_up-Pending :
        (w : World E) (key : ConnKey) (endpoint : E) (rounds : ℕ)
        → Inv w
        → Pending w key endpoint (look_up endpoint_eq w.cache key endpoint rounds)
    unfolding look_up
    look_up-Pending w key endpoint zero inv = tt
    look_up-Pending w key endpoint (suc rounds) inv = from (cached endpoint_eq w.cache key endpoint)
      where
        from :
            (o : Option (Arc (Opened E)))
            → Pending w key endpoint (elim o [
              | some conn ↦ Call.returned (ok conn)
              | none ↦ Call.opening rounds w.cache.generation
            ])
        from none = (w.bumps, (omega arith, inv.generation))
        from (some conn) = tt

    moved-Inv :
        (w : World E) (id : ℕ) (call : Call (Opened E))
        → Inv w
        → Pending w (w.tasks id).key (w.tasks id).endpoint call
        → Inv (move w id call)
    moved-Inv w id call inv pending = record {
      entries = inv.entries;
      generation = inv.generation;
      tasks =
          tasks-set w (move w id call) id (record (w.tasks id) { call = call }) inv.tasks pending;
    }

    finished-Inv :
        (w : World E) (id rounds : ℕ) (result : Settled E (Opened E))
        → Inv w
        → SettledWell w (w.tasks id).key (w.tasks id).endpoint result
        → Inv (after_settle w id rounds result)
    finished-Inv w id rounds Settled.start_over inv h = moved-Inv w id (Call.waiting rounds) inv tt
    finished-Inv w id rounds (Settled.settled conn cache) inv (h, entries, generation) = record {
      entries = entries;
      generation = generation ∙ inv.generation;
      tasks =
          tasks-set w (move w id (Call.returned (ok conn))) id
            (record (w.tasks id) { call = Call.returned (ok conn) }) inv.tasks tt;
    }

    allocated-Inv : (w : World E) → Inv w → Inv (record w { allocated = suc w.allocated })
    allocated-Inv w inv = record {
      entries = inv.entries;
      generation = inv.generation;
      tasks = inv.tasks;
    }

    Pending-at :
        (w : World E) (id : ℕ) {call : Call (Opened E)}
        → Inv w
        → (w.tasks id).call ≡ call
        → Pending w (w.tasks id).key (w.tasks id).endpoint call
    Pending-at w id inv at =
        subst (λ c. Pending w (w.tasks id).key (w.tasks id).endpoint c) at (inv.tasks id)

    invalidate-generation :
        (w : World E) (key : ConnKey) (conn : Arc (Opened E))
        → (Cache.invalidate w.cache key conn).generation ≡ w.cache.generation
    unfolding Cache.invalidate
    invalidate-generation w key conn = ground arith

    after_settle-bumps :
        (w : World E) (id rounds : ℕ) (result : Settled E (Opened E))
        → (after_settle w id rounds result).bumps ≡ w.bumps
    after_settle-bumps w id rounds Settled.start_over = refl
    after_settle-bumps w id rounds (Settled.settled conn cache) = refl

    pub finish-SettledWell :
        (w : World E) (id rounds generation : ℕ) (fresh : Arc (Opened E))
        → (w.tasks id).call ≡ Call.opened rounds generation fresh
        → (after_settle w id rounds (
            settle endpoint_eq w.cache
              (w.tasks id).key
              (w.tasks id).endpoint
              generation
              fresh)).bumps
          < 2 ^ 64
        → Inv w
        → SettledWell w
            (w.tasks id).key
            (w.tasks id).endpoint
            (settle endpoint_eq w.cache (w.tasks id).key (w.tasks id).endpoint generation fresh)
    finish-SettledWell w id rounds generation fresh at small inv =
        settle-SettledWell w (w.tasks id).key (w.tasks id).endpoint rounds generation fresh
          (subst (λ b. b < 2 ^ 64) (after_settle-bumps w id rounds _) small) inv
          (Pending-at w id inv at)

    pub Step-Inv : {w w' : World E} → Step endpoint_eq w w' → w'.bumps < 2 ^ 64 → Inv w → Inv w'
    unfolding connected
    Step-Inv (Step.begin w id key endpoint) small inv = record {
      entries = inv.entries;
      generation = inv.generation;
      tasks =
          tasks-set w w id (record { key = key; endpoint = endpoint; call = Call.waiting 2 })
            inv.tasks tt;
    }
    Step-Inv (Step.look w id rounds at) small inv =
        moved-Inv w id _ inv (look_up-Pending w (w.tasks id).key (w.tasks id).endpoint rounds inv)
    Step-Inv (Step.fail w id rounds generation reason at) small inv = moved-Inv w id _ inv tt
    Step-Inv (Step.connect w id rounds generation at) small inv =
        let (b, seen) = Pending-at w id inv at in
        moved-Inv (record w { allocated = suc w.allocated }) id _ (allocated-Inv w inv)
          (b, seen, (refl, refl), λ now. refl)
    Step-Inv (Step.finish w id rounds generation fresh at) small inv =
        finished-Inv w id rounds _ inv
          (finish-SettledWell w id rounds generation fresh at small inv)
    Step-Inv (Step.drop_dead w key conn) small inv = record {
      entries = invalidate-entries w key conn inv.entries;
      generation = invalidate-generation w key conn ∙ inv.generation;
      tasks = inv.tasks;
    }
    Step-Inv (Step.forget_context w context) small inv = forgotten-Inv w context inv
    Step-Inv (Step.clear_all w) small inv = cleared-Inv w inv

    pub Step-bumps : {w w' : World E} → Step endpoint_eq w w' → w.bumps ≤ w'.bumps
    unfolding connected
    Step-bumps (Step.begin w id key endpoint) = omega arith
    Step-bumps (Step.look w id rounds at) = omega arith
    Step-bumps (Step.fail w id rounds generation reason at) = omega arith
    Step-bumps (Step.connect w id rounds generation at) = omega arith
    Step-bumps (Step.finish w id rounds generation fresh at) = omega (
      arith,
      after_settle-bumps w id rounds
          (settle endpoint_eq w.cache (w.tasks id).key (w.tasks id).endpoint generation fresh),
    )
    Step-bumps (Step.drop_dead w key conn) = omega arith
    Step-bumps (Step.forget_context w context) = omega arith
    Step-bumps (Step.clear_all w) = omega arith

    pub Reach-Inv : {w : World E} → Reach endpoint_eq w → w.bumps < 2 ^ 64 → Inv w
    unfolding new_cache
    Reach-Inv (Reach.new w empty none_yet idle) small = record {
      entries = subst (λ (c : ConnCache E (Opened E)). All (IsCurrentEntry w) c.map) (sym empty) tt;
      generation = rw (empty, none_yet) refl;
      tasks =
          λ id. subst (λ c. Pending w (w.tasks id).key (w.tasks id).endpoint c) (sym (idle id)) tt;
    }
    Reach-Inv (Reach.next before step) small =
        Step-Inv step small (Reach-Inv before (omega (arith, Step-bumps step)))
