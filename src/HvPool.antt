-- ===== src/HvPool.antt =====
-- librun/hv_pool.c: the statistics of ended processes, kept in arrays of one size for a while.
--
-- `struct taskstats` is a parameter with its `ac_pid`. Times are not negative; an item is older than
-- `time (0) - lifetime` if its time and the lifetime are not beyond now.
use web_tester.Prelude.{
  ℕ, zero, suc, ◌+◌, Bool, true, false, ◌||◌, Option, none, some, List, [], ◌∷◌, ◌++◌, length, ltb,
  ◌==◌, if◌then◌else◌,
}
pub mod Laws
mod Examples

-- `run_hvpool_item_t`
pub record HvpoolItem (T : Type 0) : Type 0 where
  pub timestamp : ℕ
  pub stats : T

-- `run_hvpool_arr_t`: `count` is the length
pub record Arr (T : Type 0) : Type 0 where
  pub size : ℕ
  pub content : List (HvpoolItem T)

module _ {T : Type 0} where
  -- `timestamp > time (0) - lifetime`
  abbrev pub is_live : ℕ → ℕ → HvpoolItem T → Bool
  is_live now lifetime i = ltb now (i.timestamp + lifetime)

  abbrev pub has_live : ℕ → ℕ → List (HvpoolItem T) → Bool
  has_live now lifetime [] = false
  has_live now lifetime (i ∷ is) = is_live now lifetime i || has_live now lifetime is

  -- `pool_overview`
  unfoldable pub pool_overview : ℕ → ℕ → List (Arr T) → List (Arr T)
  pool_overview now lifetime [] = []
  pool_overview now lifetime (a ∷ pool) =
      let rest = pool_overview now lifetime pool in
      if ltb (length a.content) a.size || has_live now lifetime a.content then a ∷ pool else rest

  -- `spawn_new_array` with its first item
  abbrev pub new_array : ℕ → HvpoolItem T → Arr T
  new_array arr_size i = record { size = arr_size; content = i ∷ [] }

  -- The item in the last array where that has room, in a new one otherwise.
  unfoldable pub put_last : ℕ → HvpoolItem T → List (Arr T) → List (Arr T)
  put_last arr_size i [] = new_array arr_size i ∷ []
  put_last arr_size i (a ∷ []) =
      if ltb (length a.content) a.size
      then record a { content = a.content ++ i ∷ [] } ∷ []
      else a ∷ new_array arr_size i ∷ []
  put_last arr_size i (a ∷ b ∷ pool) = a ∷ put_last arr_size i (b ∷ pool)

  -- `run_hvpool_put`, of an initialized pool
  unfoldable pub hvpool_put : ℕ → ℕ → ℕ → T → List (Arr T) → List (Arr T)
  hvpool_put arr_size lifetime now t pool =
      put_last arr_size (record { timestamp = now; stats = t }) (pool_overview now lifetime pool)

module _ {T : Type 0} (pid : T → ℕ) where
  unfoldable pub find_in : ℕ → List (HvpoolItem T) → Option T
  find_in p [] = none
  find_in p (i ∷ is) = if pid i.stats == p then some i.stats else find_in p is

  abbrev pub or_else : Option T → Option T → Option T
  or_else (some t) o = some t
  or_else none o = o

  -- `run_hvpool_stats_by_pid_iter`
  unfoldable pub stats_iter : ℕ → List (Arr T) → Option T
  stats_iter p [] = none
  stats_iter p (a ∷ pool) = or_else (find_in p a.content) (stats_iter p pool)

  -- What the loop gives, `unfinished` where it has not ended in the rounds given.
  pub data Waited : Type 0 where
    got : T → Waited
    gave_up : Waited
    unfinished : Waited

  abbrev pub got_or : Option T → Waited → Waited
  got_or (some t) w = got t
  got_or none w = w

  -- The loop of `run_hvpool_stats_by_pid`, on the pool as it is at each try.
  unfoldable pub stats_loop : ℕ → ℕ → ℕ → ℕ → (ℕ → List (Arr T)) → Waited
  stats_loop zero max_counter p counter pools = unfinished
  stats_loop (suc k) max_counter p counter pools =
      let more = stats_loop k max_counter p (suc counter) pools in
      got_or (stats_iter p (pools counter)) (if ltb max_counter counter then gave_up else more)

  -- `run_hvpool_stats_by_pid`
  unfoldable pub stats_by_pid : ℕ → ℕ → (ℕ → List (Arr T)) → Waited
  stats_by_pid max_counter p pools = stats_loop (suc (suc max_counter)) max_counter p 0 pools
