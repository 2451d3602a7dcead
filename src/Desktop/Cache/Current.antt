-- ===== src/Desktop/Cache/Current.antt =====
-- cache.rs: no connection outlives a change of its context's credentials.
use cubelite.Prelude.{
  ℕ, suc, ◌%◌, ◌^◌, ◌≤◌, ◌≡◌, refl, not, ◌==◌, arith, All, filter_option, is_some, Bool-cases, inl,
  inr,
}
use cubelite.Prelude.Texts.{Text, text_eq}
use cubelite.Prelude.Maps.{get}
use cubelite.Desktop.Cache
use cubelite.Desktop.Cache.{
  ConnKey, key_eq, Arc, ConnCache, Call, Settled, new_cache, cached, look_up, connected, settle,
}
use cubelite.Desktop.Cache.Entries.{All-filter}
use cubelite.Desktop.Cache.Steps.{Opened, Task, World, set_task, forgotten, cleared}

module _ {E : Type 0} where
  -- A connection for this key and endpoint
  abbrev pub Serves : ConnKey → E → Arc (Opened E) → Type 0
  Serves key endpoint conn = (conn.value.key ≡ key) × (conn.value.endpoint ≡ endpoint)

  -- It was opened after the last change of its context's credentials.
  abbrev pub IsCurrent : World E → ConnKey → E → Arc (Opened E) → Type 0
  IsCurrent w key endpoint conn =
      (conn.value.key ≡ key) × (conn.value.endpoint ≡ endpoint) × (conn.value.epoch ≡ w.epoch key.1)

  abbrev pub IsCurrentEntry : World E → ConnKey × (E × Arc (Opened E)) → Type 0
  IsCurrentEntry w entry = IsCurrent w entry.0 entry.1.0 entry.1.1

  -- What a generation that was read says of the moment `b` at which it was read
  abbrev pub Seen : World E → ℕ → ℕ → Type 0
  Seen w generation b = (b ≤ w.bumps) × (generation ≡ b % 2 ^ 64)

  abbrev pub Pending : World E → ConnKey → E → Call (Opened E) → Type 0
  Pending w key endpoint (Call.waiting rounds) = Unit
  Pending w key endpoint (Call.opening rounds generation) = (b : ℕ) × Seen w generation b
  Pending w key endpoint (Call.opened rounds generation conn) =
      (b : ℕ) × Seen w generation b
      × Serves key endpoint conn
      × (b ≡ w.bumps → conn.value.epoch ≡ w.epoch key.1)
  Pending w key endpoint (Call.returned result) = Unit

  pub record Inv (w : World E) : Type 0 where
    pub entries : All (IsCurrentEntry w) w.cache.map
    pub generation : w.cache.generation ≡ w.bumps % 2 ^ 64
    pub tasks : (id : ℕ) → Pending w (w.tasks id).key (w.tasks id).endpoint (w.tasks id).call

  -- A change of credentials makes every pending call one of before.
  pub Pending-bump :
      (w w' : World E) (key : ConnKey) (endpoint : E) (call : Call (Opened E))
      → w'.bumps ≡ suc w.bumps
      → Pending w key endpoint call
      → Pending w' key endpoint call
  Pending-bump w w' key endpoint (Call.waiting rounds) e h = tt
  Pending-bump w w' key endpoint (Call.opening rounds generation) e (b, (before, seen)) =
      (b, (omega arith, seen))
  Pending-bump w w' key endpoint (Call.opened rounds generation conn) e
        (b, (before, seen), serves, late) =
      (b, (omega arith, seen), serves, λ now. absurd (omega arith))
  Pending-bump w w' key endpoint (Call.returned result) e h = tt

  -- The tasks of a world in which one of them has moved
  pub tasks-set :
      (w w' : World E) (id : ℕ) (task : Task E)
      → ((i : ℕ) → Pending w' (w.tasks i).key (w.tasks i).endpoint (w.tasks i).call)
      → Pending w' task.key task.endpoint task.call
      → (i : ℕ)
      → Pending w'
          (set_task w id task i).key
          (set_task w id task i).endpoint
          (set_task w id task i).call
  tasks-set w w' id task others new i = elim (Bool-cases (id == i)) [
    | inl e ↦ rw e new
    | inr e ↦ rw e (others i)
  ]

  bump-generation :
      (w : World E)
      → w.cache.generation ≡ w.bumps % 2 ^ 64
      → Cache.bump w.cache.generation ≡ suc w.bumps % 2 ^ 64
  unfolding Cache.bump
  bump-generation w h = rw h (omega arith)

  pub forgotten-Inv : (w : World E) (context : Text) → Inv w → Inv (forgotten w context)
  unfolding Cache.forget
  forgotten-Inv w context inv = record {
    entries =
        All-filter (λ (entry : ConnKey × (E × Arc (Opened E))). not (text_eq entry.0.1 context))
          w.cache.map (λ entry other h. (h.0, h.1, ground (arith, h.2))) inv.entries;
    generation = bump-generation w inv.generation;
    tasks = λ id. Pending-bump w (forgotten w context) _ _ (w.tasks id).call refl (inv.tasks id);
  }

  pub cleared-Inv : (w : World E) → Inv w → Inv (cleared w)
  unfolding Cache.clear
  cleared-Inv w inv = record {
    entries = tt;
    generation = bump-generation w inv.generation;
    tasks = λ id. Pending-bump w (cleared w) _ _ (w.tasks id).call refl (inv.tasks id);
  }

  pub invalidate-entries :
      (w : World E) (key : ConnKey) (conn : Arc (Opened E))
      → All (IsCurrentEntry w) w.cache.map
      → All (IsCurrentEntry w) (Cache.invalidate w.cache key conn).map
  unfolding Cache.invalidate
  invalidate-entries w key conn h =
      elim (Bool-cases (
        is_some (
          filter_option (λ (v : E × Arc (Opened E)). v.1.address == conn.address)
            (get key_eq w.cache.map key)))) [
              | inl e ↦ rw e (
                  All-filter (λ (entry : ConnKey × (E × Arc (Opened E))). not (key_eq entry.0 key))
                    w.cache.map (λ entry other k. k) h)
              | inr e ↦ rw e h
            ]
