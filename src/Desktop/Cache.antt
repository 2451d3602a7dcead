-- ===== src/Desktop/Cache.antt =====
-- apps/desktop/src-tauri/src/commands/cache.rs: the cache of open connections, `ConnCache`. What runs
-- under the lock is one function; a call of `get_or_connect` is a `Call` that moves from one of them
-- to the next, so that other calls may run in between.
pub mod Steps
pub mod Entries
pub mod Current
pub mod Kept
pub mod Returned
use cubelite.Prelude.{
  ℕ, zero, suc, ◌+◌, ◌%◌, ◌^◌, Bool, true, false, not, ◌&&◌, Option, none, some, List, [], ◌∷◌,
  ◌==◌, if◌then◌else◌, filter, filter_option, map_option, is_some, arith,
}
use cubelite.Prelude.Results.{Result, ok, err}
use cubelite.Prelude.Texts.{Text, codes, text_eq}
use cubelite.Prelude.Maps.{get, insert}

-- The path of the kubeconfig and the context
abbrev pub ConnKey : Type 0
ConnKey = Text × Text

unfoldable pub key_eq : ConnKey → ConnKey → Bool
key_eq a b = text_eq a.0 b.0 && text_eq a.1 b.1

-- `Arc`: `ptr_eq` compares the addresses
pub record Arc (C : Type 0) : Type 0 where
  pub address : ℕ
  pub value : C

pub record ConnCache (E : Type 0) (C : Type 0) : Type 0 where
  pub map : List (ConnKey × (E × Arc C))
  pub generation : ℕ

-- Where a call of `get_or_connect` stands: before a round, with the rounds left; before and after
-- `connect`, with the generation that the round has seen; at its end.
pub data Call (C : Type 0) : Type 0 where
  waiting : ℕ → Call C
  opening : ℕ → ℕ → Call C
  opened : ℕ → ℕ → Arc C → Call C
  returned : Result Text (Arc C) → Call C

-- What the call does under the second lock
pub data Settled (E : Type 0) (C : Type 0) : Type 0 where
  start_over : Settled E C
  settled : Arc C → ConnCache E C → Settled E C

-- `connect().await?`
unfoldable pub connected : {C : Type 0} → ℕ → ℕ → Result Text (Arc C) → Call C
connected rounds generation (err e) = Call.returned (err e)
connected rounds generation (ok fresh) = Call.opened rounds generation fresh

-- `fetch_add` on an `AtomicU64` wraps.
unfoldable pub bump : ℕ → ℕ
bump generation = (generation + 1) % 2 ^ 64

module _ {E C : Type 0} where
  unfoldable pub new_cache : ConnCache E C
  new_cache = record { map = []; generation = 0 }

  module _ (endpoint_eq : E → E → Bool) where
    -- `map.get(key).filter(|(e, _)| e == endpoint)`
    unfoldable pub cached : ConnCache E C → ConnKey → E → Option (Arc C)
    unfolding get key_eq
    cached cache key endpoint =
        map_option (λ (v : E × Arc C). v.1)
          (filter_option (λ (v : E × Arc C). endpoint_eq v.0 endpoint) (get key_eq cache.map key))

    -- The first lock of a round, or the error after the last
    unfoldable pub look_up : ConnCache E C → ConnKey → E → ℕ → Call C
    unfolding cached
    look_up cache key endpoint zero =
        Call.returned (err (codes "The integration settings changed while connecting; try again"))
    look_up cache key endpoint (suc rounds) = elim (cached cache key endpoint) [
      | some conn ↦ Call.returned (ok conn)
      | none ↦ Call.opening rounds cache.generation
    ]

    -- The second lock of a round
    unfoldable pub settle : ConnCache E C → ConnKey → E → ℕ → Arc C → Settled E C
    unfolding cached insert key_eq
    settle cache key endpoint generation fresh =
        if not (cache.generation == generation)
        then Settled.start_over
        else elim (cached cache key endpoint) [
          | some existing ↦ Settled.settled existing cache
          | none ↦
              Settled.settled fresh
                (record cache { map = insert key_eq cache.map key (endpoint, fresh) })
        ]

  unfoldable pub invalidate : ConnCache E C → ConnKey → Arc C → ConnCache E C
  unfolding get key_eq
  invalidate cache key conn =
      if is_some
        (filter_option (λ (v : E × Arc C). v.1.address == conn.address) (get key_eq cache.map key))
      then record cache {
        map = filter (λ (entry : ConnKey × (E × Arc C)). not (key_eq entry.0 key)) cache.map;
      }
      else cache

  unfoldable pub forget : ConnCache E C → Text → ConnCache E C
  unfolding bump
  forget cache context = record {
    map = filter (λ (entry : ConnKey × (E × Arc C)). not (text_eq entry.0.1 context)) cache.map;
    generation = bump cache.generation;
  }

  unfoldable pub clear : ConnCache E C → ConnCache E C
  unfolding bump
  clear cache = record { map = []; generation = bump cache.generation }
