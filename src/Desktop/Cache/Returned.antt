-- ===== src/Desktop/Cache/Returned.antt =====
-- cache.rs: the connections that `get_or_connect` keeps and gives out.
use cubelite.Prelude.{
  ℕ, zero, suc, ◌^◌, ◌<◌, ◌≡◌, ◌≢◌, refl, Bool, true, Option, none, some, ◌==◌, arith, All,
  Bool-cases, inl, inr,
}
use mathlib.Core.Path.{subst}
use cubelite.Prelude.Results.{ok, err}
use cubelite.Desktop.Cache.{ConnKey, Arc, Call, Settled, cached, look_up, connected}
use cubelite.Desktop.Cache.Steps.{Opened, Task, World, set_task, after_settle, Step, Reach}
use cubelite.Desktop.Cache.Current.{IsCurrent, IsCurrentEntry, Inv}
use cubelite.Desktop.Cache.Kept.{
  SettledWell, cached-IsCurrent, finish-SettledWell, Step-Inv, Step-bumps, Reach-Inv,
}

module _ {E : Type 0} where
  abbrev Ended : Task E → Arc (Opened E) → Type 0
  Ended task conn = task.call ≡ Call.returned (ok conn)

  -- Of the tasks, only the one that has moved can have come to its end.
  ended :
      (w : World E) (id : ℕ) (task : Task E) (i : ℕ) (conn : Arc (Opened E))
      → ¬ Ended (w.tasks i) conn
      → (Ended task conn → IsCurrent w task.key task.endpoint conn)
      → Ended (set_task w id task i) conn
      → IsCurrent w (set_task w id task i).key (set_task w id task i).endpoint conn
  ended w id task i conn before current h = elim (Bool-cases (id == i)) [
    | inl e ↦ rw e (current (rw e at h))
    | inr e ↦ absurd (before (rw e at h))
  ]

  module _ (endpoint_eq : E → E → Bool) (exact : (a b : E) → endpoint_eq a b ≡ true → a ≡ b) where
    look_up-IsCurrent :
        (w : World E) (key : ConnKey) (endpoint : E) (rounds : ℕ) (conn : Arc (Opened E))
        → Inv w
        → look_up endpoint_eq w.cache key endpoint rounds ≡ Call.returned (ok conn)
        → IsCurrent w key endpoint conn
    unfolding look_up
    look_up-IsCurrent w key endpoint zero conn inv h = cc h
    look_up-IsCurrent w key endpoint (suc rounds) conn inv h =
        from (cached endpoint_eq w.cache key endpoint) refl h
      where
        from :
            (o : Option (Arc (Opened E)))
            → cached endpoint_eq w.cache key endpoint ≡ o
            → ◌≡◌ {A = Call (Opened E)}
                (elim o [
                  | some found ↦ Call.returned (ok found)
                  | none ↦ Call.opening rounds w.cache.generation
                ])
                (Call.returned (ok conn))
            → IsCurrent w key endpoint conn
        from none e k = cc k
        from (some found) e k =
            let same : found ≡ conn = cc k in
            subst (λ c. IsCurrent w key endpoint c) same
              (cached-IsCurrent endpoint_eq exact w key endpoint inv.entries e)

    settled-IsCurrent :
        (w : World E) (id rounds : ℕ) (result : Settled E (Opened E)) (i : ℕ)
        (conn : Arc (Opened E))
        → SettledWell endpoint_eq exact w (w.tasks id).key (w.tasks id).endpoint result
        → ¬ Ended (w.tasks i) conn
        → Ended ((after_settle w id rounds result).tasks i) conn
        → IsCurrent
            (after_settle w id rounds result)
            ((after_settle w id rounds result).tasks i).key
            ((after_settle w id rounds result).tasks i).endpoint
            conn
    settled-IsCurrent w id rounds Settled.start_over i conn h before now =
        ended w id (record (w.tasks id) { call = Call.waiting rounds }) i conn before (λ e. cc e)
          now
    settled-IsCurrent w id rounds (Settled.settled found cache) i conn h before now =
        ended w id (record (w.tasks id) { call = Call.returned (ok found) }) i conn before
          (λ e.
            let same : found ≡ conn = cc e in
            subst (λ c. IsCurrent w (w.tasks id).key (w.tasks id).endpoint c) same h.0)
          now

    step-IsCurrent :
        {w w' : World E} (i : ℕ) (conn : Arc (Opened E))
        → Step endpoint_eq w w'
        → w'.bumps < 2 ^ 64
        → Inv w
        → ¬ Ended (w.tasks i) conn
        → Ended (w'.tasks i) conn
        → IsCurrent w' (w'.tasks i).key (w'.tasks i).endpoint conn
    unfolding connected
    step-IsCurrent i conn (Step.begin w id key endpoint) small inv before now =
        ended w id (record { key = key; endpoint = endpoint; call = Call.waiting 2 }) i conn before
          (λ e. cc e) now
    step-IsCurrent i conn (Step.look w id rounds at) small inv before now =
        ended w id
          (record (w.tasks id) {
            call = look_up endpoint_eq w.cache (w.tasks id).key (w.tasks id).endpoint rounds;
          })
          i conn before (look_up-IsCurrent w (w.tasks id).key (w.tasks id).endpoint rounds conn inv)
          now
    step-IsCurrent i conn (Step.fail w id rounds generation reason at) small inv before now =
        ended w id (record (w.tasks id) { call = Call.returned (err reason) }) i conn before
          (λ e. cc e) now
    step-IsCurrent i conn (Step.connect w id rounds generation at) small inv before now =
        ended w id (record (w.tasks id) { call = Call.opened rounds generation _ }) i conn before
          (λ e. cc e) now
    step-IsCurrent i conn (Step.finish w id rounds generation fresh at) small inv before now =
        settled-IsCurrent w id rounds _ i conn
          (finish-SettledWell endpoint_eq exact w id rounds generation fresh at small inv) before
          now
    step-IsCurrent i conn (Step.drop_dead w key dead) small inv before now = absurd (before now)
    step-IsCurrent i conn (Step.forget_context w context) small inv before now = absurd (before now)
    step-IsCurrent i conn (Step.clear_all w) small inv before now = absurd (before now)

    -- At every step of any interleaving of calls on a new cache, with less than 2^64 changes of
    -- credentials, each cached connection was opened for the key and the endpoint of its entry,
    -- after the last change of its context's credentials, and so was one with which a call of
    -- get_or_connect ends at this step for the key and the endpoint of the call. Equal endpoints
    -- are taken to be the same.
    pub get_or_connect-IsCurrent :
        {w w' : World E}
        → Reach endpoint_eq w
        → Step endpoint_eq w w'
        → w'.bumps < 2 ^ 64
        → All (IsCurrentEntry w') w'.cache.map
          × ((i : ℕ) (conn : Arc (Opened E))
              → (w.tasks i).call ≢ Call.returned (ok conn)
              → (w'.tasks i).call ≡ Call.returned (ok conn)
              → IsCurrent w' (w'.tasks i).key (w'.tasks i).endpoint conn)
    get_or_connect-IsCurrent before step small =
        let inv =
          Reach-Inv endpoint_eq exact before (omega (arith, Step-bumps endpoint_eq exact step)) in
        (
          (Step-Inv endpoint_eq exact step small inv).entries,
          λ i conn was now. step-IsCurrent i conn step small inv was now,
        )
