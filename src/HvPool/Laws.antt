-- ===== src/HvPool/Laws.antt =====
-- What librun/hv_pool.c keeps and finds.
use web_tester.Prelude.{
  ℕ, zero, suc, ◌+◌, ◌≤◌, ◌<◌, ◌≡◌, refl, ap, ◌∙◌, sym, true, false, Option, none, some, List, [],
  ◌∷◌, ◌++◌, append_assoc, append-nil, is_nil, length, length-append, ltb, arith, Bool-cases, inl,
  inr,
}
use web_tester.HvPool.{
  HvpoolItem, Arr, has_live, pool_overview, put_last, hvpool_put, or_else, stats_iter, Waited, got,
  gave_up, got_or, stats_loop, stats_by_pid,
}

module _ {T : Type 0} where
  -- The items of all arrays, in order.
  abbrev pub all_items : List (Arr T) → List (HvpoolItem T)
  all_items [] = []
  all_items (a ∷ pool) = a.content ++ all_items pool

  -- All arrays but the last are full, and the last holds something that fits it.
  abbrev pub IsPool : List (Arr T) → Type 0
  IsPool [] = Unit
  IsPool (a ∷ []) = (0 < length a.content) × (length a.content ≤ a.size)
  IsPool (a ∷ b ∷ pool) = (length a.content ≡ a.size) × (0 < a.size) × IsPool (b ∷ pool)

  -- Full arrays without a live item.
  abbrev pub AllStale : ℕ → ℕ → List (Arr T) → Type 0
  AllStale now lifetime [] = Unit
  AllStale now lifetime (a ∷ pool) =
      (ltb (length a.content) a.size ≡ false)
      × (has_live now lifetime a.content ≡ false)
      × AllStale now lifetime pool

  IsPool-tail : (a : Arr T) (pool : List (Arr T)) → IsPool (a ∷ pool) → IsPool pool
  IsPool-tail a [] h = tt
  IsPool-tail a (b ∷ pool) h = h.2

  overview-parts :
      (now lifetime : ℕ) (pool : List (Arr T))
      → IsPool pool
      → (stale : List (Arr T)) × (pool ≡ stale ++ pool_overview now lifetime pool)
        × AllStale now lifetime stale
        × IsPool (pool_overview now lifetime pool)
  unfolding pool_overview
  overview-parts now lifetime [] h = ([], refl, tt, tt)
  overview-parts now lifetime (a ∷ pool) h = elim (Bool-cases (ltb (length a.content) a.size)) [
    | inl room ↦ rw room ([], refl, tt, h)
    | inr full ↦ elim (Bool-cases (has_live now lifetime a.content)) [
      | inl live ↦ rw (full, live) ([], refl, tt, h)
      | inr old ↦
          let (stale, parts, all, ok) = overview-parts now lifetime pool (IsPool-tail a pool h) in
          rw (full, old) (a ∷ stale, ap (λ x. a ∷ x) parts, (full, old, all), ok)
    ]
  ]

  put_last-items :
      (n : ℕ) (i : HvpoolItem T) (pool : List (Arr T))
      → all_items (put_last n i pool) ≡ all_items pool ++ i ∷ []
  unfolding put_last
  put_last-items n i [] = refl
  put_last-items n i (a ∷ []) = elim (Bool-cases (ltb (length a.content) a.size)) [
    | inl room ↦
        rw room
          (append-nil (a.content ++ i ∷ []) ∙ ap (λ x. x ++ i ∷ []) (sym (append-nil a.content)))
    | inr full ↦ rw full (ap (λ x. x ++ i ∷ []) (sym (append-nil a.content)))
  ]
  put_last-items n i (a ∷ b ∷ pool) =
      ap (λ x. a.content ++ x) (put_last-items n i (b ∷ pool))
      ∙ sym (append_assoc a.content (all_items (b ∷ pool)) (i ∷ []))

  put_last-not_nil :
      (n : ℕ) (i : HvpoolItem T) (pool : List (Arr T)) → is_nil (put_last n i pool) ≡ false
  unfolding put_last
  put_last-not_nil n i [] = refl
  put_last-not_nil n i (a ∷ []) = ground arith
  put_last-not_nil n i (a ∷ b ∷ pool) = refl

  cons-IsPool :
      (a : Arr T) (pool : List (Arr T))
      → length a.content ≡ a.size
      → 0 < a.size
      → is_nil pool ≡ false
      → IsPool pool
      → IsPool (a ∷ pool)
  cons-IsPool a [] full size some_array h = cc
  cons-IsPool a (b ∷ pool) full size some_array h = (full, size, h)

  put_last-IsPool :
      (n : ℕ) (i : HvpoolItem T) (pool : List (Arr T))
      → 0 < n
      → IsPool pool
      → IsPool (put_last n i pool)
  unfolding put_last
  put_last-IsPool n i [] size h = (omega arith, omega arith)
  put_last-IsPool n i (a ∷ []) size h = elim (Bool-cases (ltb (length a.content) a.size)) [
    | inl room ↦
        let longer = length-append a.content (i ∷ []) in
        rw room (omega (arith, longer), ground (arith, longer))
    | inr full ↦ rw full (ground (arith, h.1), omega (arith, h.0, h.1), (omega arith, omega arith))
  ]
  put_last-IsPool n i (a ∷ b ∷ pool) size h =
      cons-IsPool a (put_last n i (b ∷ pool)) h.0 h.1 (put_last-not_nil n i (b ∷ pool))
        (put_last-IsPool n i (b ∷ pool) size h.2)

  -- `run_hvpool_put` drops arrays at the front, full ones without a live item only, and puts the new item
  -- behind all that are left; all arrays but the last stay full, and none is overfull.
  pub hvpool_put-parts :
      (arr_size lifetime now : ℕ) (t : T) (pool : List (Arr T))
      → 0 < arr_size
      → IsPool pool
      → (stale kept : List (Arr T)) × (pool ≡ stale ++ kept)
        × AllStale now lifetime stale
        × (all_items (hvpool_put arr_size lifetime now t pool)
            ≡ all_items kept ++ record { timestamp = now; stats = t } ∷ [])
        × IsPool (hvpool_put arr_size lifetime now t pool)
  unfolding hvpool_put
  hvpool_put-parts arr_size lifetime now t pool size h =
      let i : HvpoolItem T = record { timestamp = now; stats = t } in
      let kept = pool_overview now lifetime pool in
      let (stale, parts, all, ok) = overview-parts now lifetime pool h in
      (
        stale,
        kept,
        parts,
        all,
        put_last-items arr_size i kept,
        put_last-IsPool arr_size i kept size ok,
      )

module _ {T : Type 0} (pid : T → ℕ) where
  -- The first of the pools in which the process is found, among `k` of them.
  abbrev pub first_found : ℕ → ℕ → ℕ → (ℕ → List (Arr T)) → Option T
  first_found zero p counter pools = none
  first_found (suc k) p counter pools =
      or_else pid (stats_iter pid p (pools counter)) (first_found k p (suc counter) pools)

  abbrev pub waited_for : Option T → Waited pid
  waited_for (some t) = got t
  waited_for none = gave_up

  got_or-waited_for : (o q : Option T) → got_or pid o (waited_for q) ≡ waited_for (or_else pid o q)
  got_or-waited_for none q = refl
  got_or-waited_for (some t) q = refl

  stats_loop-found :
      (k max_counter p counter : ℕ) (pools : ℕ → List (Arr T))
      → counter + suc k ≡ max_counter + 2
      → stats_loop pid (suc k) max_counter p counter pools
        ≡ waited_for (first_found (suc k) p counter pools)
  unfolding stats_loop
  stats_loop-found zero max_counter p counter pools e =
      let past : ltb max_counter counter ≡ true = ground arith in
      rw past (got_or-waited_for (stats_iter pid p (pools counter)) none)
  stats_loop-found (suc k) max_counter p counter pools e =
      let early : ltb max_counter counter ≡ false = ground arith in
      rw (early, stats_loop-found k max_counter p (suc counter) pools (omega arith))
        (got_or-waited_for (stats_iter pid p (pools counter)) _)

  -- Waiting for a process ends, with the statistics of the first try that finds it, or without after one
  -- try more than the counter may go.
  stats_by_pid-found :
      (max_counter p : ℕ) (pools : ℕ → List (Arr T))
      → stats_by_pid pid max_counter p pools
        ≡ waited_for (first_found (suc (suc max_counter)) p 0 pools)
  unfolding stats_by_pid
  stats_by_pid-found max_counter p pools =
      stats_loop-found (suc max_counter) max_counter p 0 pools (omega arith)
