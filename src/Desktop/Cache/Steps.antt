-- ===== src/Desktop/Cache/Steps.antt =====
-- cache.rs: the calls on one cache, interleaved in any order, as steps of a world that remembers
-- when the credentials changed.
use cubelite.Prelude.{ℕ, suc, ◌≡◌, Bool, ◌==◌, if◌then◌else◌}
use cubelite.Prelude.Results.{ok, err}
use cubelite.Prelude.Texts.{Text, text_eq}
use cubelite.Desktop.Cache
use cubelite.Desktop.Cache.{
  ConnKey, Arc, ConnCache, Call, Settled, new_cache, look_up, connected, settle, forget, clear,
}

-- A connection, with the key and the endpoint that it was opened for, and how often the credentials
-- of the context had changed when `connect` was called.
pub record Opened (E : Type 0) : Type 0 where
  pub key : ConnKey
  pub endpoint : E
  pub epoch : ℕ

pub record Task (E : Type 0) : Type 0 where
  pub key : ConnKey
  pub endpoint : E
  pub call : Call (Opened E)

-- `epoch` counts, for each context, the calls of `forget` and `clear` that concern it; `bumps` counts
-- all of them.
pub record World (E : Type 0) : Type 0 where
  pub cache : ConnCache E (Opened E)
  pub tasks : ℕ → Task E
  pub epoch : Text → ℕ
  pub bumps : ℕ
  pub allocated : ℕ

module _ {E : Type 0} where
  abbrev pub set_task : World E → ℕ → Task E → ℕ → Task E
  set_task w id task i = if id == i then task else w.tasks i

  abbrev pub move : World E → ℕ → Call (Opened E) → World E
  move w id call = record w { tasks = set_task w id (record (w.tasks id) { call = call }) }

  abbrev pub fresh_conn : World E → ℕ → Arc (Opened E)
  fresh_conn w id = record {
    address = w.allocated;
    value = record {
      key = (w.tasks id).key;
      endpoint = (w.tasks id).endpoint;
      epoch = w.epoch (w.tasks id).key.1;
    };
  }

  -- After the second lock: another round, or the end
  abbrev pub after_settle : World E → ℕ → ℕ → Settled E (Opened E) → World E
  after_settle w id rounds Settled.start_over = move w id (Call.waiting rounds)
  after_settle w id rounds (Settled.settled conn cache) =
      move (record w { cache = cache }) id (Call.returned (ok conn))

  abbrev pub forgotten : World E → Text → World E
  forgotten w context = record w {
    cache = forget w.cache context;
    epoch = λ c. if text_eq c context then suc (w.epoch c) else w.epoch c;
    bumps = suc w.bumps;
  }

  abbrev pub cleared : World E → World E
  cleared w = record w { cache = clear w.cache; epoch = λ c. suc (w.epoch c); bumps = suc w.bumps }

  module _ (endpoint_eq : E → E → Bool) where
    pub data Step : World E → World E → Type 0 where
      -- A call begins. It may take the place of one that was dropped.
      begin :
          (w : World E) (id : ℕ) (key : ConnKey) (endpoint : E)
          → Step w (record w {
            tasks =
                set_task w id (record { key = key; endpoint = endpoint; call = Call.waiting 2 });
          })
      look :
          (w : World E) (id rounds : ℕ)
          → (w.tasks id).call ≡ Call.waiting rounds
          → Step w (
              move w id (look_up endpoint_eq w.cache (w.tasks id).key (w.tasks id).endpoint rounds))
      fail :
          (w : World E) (id rounds generation : ℕ) (reason : Text)
          → (w.tasks id).call ≡ Call.opening rounds generation
          → Step w (move w id (connected rounds generation (err reason)))
      connect :
          (w : World E) (id rounds generation : ℕ)
          → (w.tasks id).call ≡ Call.opening rounds generation
          → Step w (
              move
                (record w { allocated = suc w.allocated })
                id
                (connected rounds generation (ok (fresh_conn w id))))
      finish :
          (w : World E) (id rounds generation : ℕ) (fresh : Arc (Opened E))
          → (w.tasks id).call ≡ Call.opened rounds generation fresh
          → Step w (
              after_settle w id rounds (
                settle endpoint_eq w.cache (w.tasks id).key (w.tasks id).endpoint generation fresh))
      drop_dead :
          (w : World E) (key : ConnKey) (conn : Arc (Opened E))
          → Step w (record w { cache = Cache.invalidate w.cache key conn })
      forget_context : (w : World E) (context : Text) → Step w (forgotten w context)
      clear_all : (w : World E) → Step w (cleared w)

    -- What can come of a new cache
    pub data Reach : World E → Type 0 where
      new :
          (w : World E)
          → w.cache ≡ new_cache
          → w.bumps ≡ 0
          → ((id : ℕ) → (w.tasks id).call ≡ Call.waiting 0)
          → Reach w
      next : {w w' : World E} → Reach w → Step w w' → Reach w'
