-- ===== src/Dyna/Ops.antt =====
-- The functions of dynastruc.c, statement by statement. The handle lives outside the memory of cells,
-- so a function that writes through `__self` returns the new handle; a null `__self` is `none`. The
-- result 0 is `pos 0`, and -1 is `negsuc 0`. `fresh` is what `malloc` returns. What `dyna_pop` and
-- `dyna_del_from_back` store through their pointers is returned.
use web_tester.Prelude.{
  ℕ, zero, suc, Bool, Option, none, some, ◌==◌, if◌then◌else◌, ◌&&◌, ◌+◌, ℤ, pos, negsuc, inc, dec,
  is_zero, is_positive, rounds,
}
use web_tester.Dyna.Memory.{
  Cell, null, no_fuel, Cmd, pure, ◌>>=◌, ◌>>◌, load, put, set_next, set_prev, free, call,
}

-- `dynastruc_t`
pub record Handle : Type 0 where
  pub head : ℕ
  pub tail : ℕ
  pub find_data : ℕ
  pub count : ℤ

-- `dyna_create`
unfoldable pub create : ℕ → Option Handle
create fresh =
    if fresh == null
    then none
    else some (record { head = null; tail = null; find_data = null; count = pos 0 })

-- `if (item->next_ptr) item->next_ptr->prev_ptr = item->prev_ptr`
unfoldable pub unlink_next : ℕ → Cmd (Unit {0})
unlink_next item = do
  c ← load item
  if c.next_ptr == null then pure tt else set_prev c.next_ptr c.prev_ptr

unfoldable pub unlink_prev : ℕ → Cmd (Unit {0})
unlink_prev item = do
  c ← load item
  if c.prev_ptr == null then pure tt else set_next c.prev_ptr c.next_ptr

-- The handle after the item whose cell is `c` has left.
unfoldable pub without : Handle → ℕ → Cell → Handle
without s item c = record s {
  head = if item == s.head then c.next_ptr else s.head;
  tail = if s.tail == item then c.prev_ptr else s.tail;
  count = dec s.count;
}

-- `dyna_delete` past its guards
unfoldable pub delete_item : Handle → ℕ → ℕ → Cmd Handle
delete_item s item deleter = do
  unlink_next item
  unlink_prev item
  c ← load item
  call deleter c.item
  free item
  pure (without s item c)

-- `dyna_delete`
unfoldable pub delete : Option Handle → ℕ → ℕ → Cmd (ℤ × Option Handle)
delete none item deleter = pure (negsuc 0, none)
delete (some s) item deleter =
    if item == null
    then pure (negsuc 0, some s)
    else do s' ← delete_item s item deleter; pure (pos 0, some s')

-- The loop of `dyna_delete_all`; it makes one round for each item.
unfoldable pub delete_loop : ℕ → Handle → ℕ → ℕ → Cmd Handle
delete_loop zero s cur deleter = λ _. no_fuel
delete_loop (suc k) s cur deleter =
    if cur == null
    then pure s
    else do c ← load cur; s' ← delete_item s cur deleter; delete_loop k s' c.next_ptr deleter

-- `dyna_delete_all`
unfoldable pub delete_all : Option Handle → ℕ → Cmd (ℤ × Option Handle)
delete_all none deleter = pure (negsuc 0, none)
delete_all (some s) deleter = do
  s' ← delete_loop (rounds s.count + 1) s s.head deleter
  pure (pos 0, some s')

-- `dyna_push`, `dyna_add_to_front`
unfoldable pub push : Option Handle → ℕ → ℕ → ℕ → Cmd (ℤ × Option Handle)
push none item tag fresh = pure (negsuc 0, none)
push (some s) item tag fresh = if fresh == null then pure (negsuc 0, some s) else do
  put fresh (some (record { item = item; tag = tag; next_ptr = s.head; prev_ptr = null }))
  if s.head == null then pure tt else set_prev s.head fresh
  pure (
    pos 0,
    some (record s {
      head = fresh;
      tail = if s.tail == null then fresh else s.tail;
      count = inc s.count;
    }),
  )

-- `dyna_add_to_back`, `dyna_append`
unfoldable pub add_to_back : Option Handle → ℕ → ℕ → ℕ → Cmd (ℤ × Option Handle)
add_to_back none item tag fresh = pure (negsuc 0, none)
add_to_back (some s) item tag fresh = if fresh == null then pure (negsuc 0, some s) else do
  put fresh (some (record { item = item; tag = tag; next_ptr = null; prev_ptr = s.tail }))
  if s.tail == null then pure tt else set_next s.tail fresh
  pure (
    pos 0,
    some (record s {
      head = if s.tail == null then fresh else s.head;
      tail = fresh;
      count = inc s.count;
    }),
  )

-- `dyna_pop`, `dyna_del_from_front`
unfoldable pub pop : Option Handle → Cmd (ℤ × Option (ℕ × ℕ) × Option Handle)
pop none = pure (negsuc 0, none, none)
pop (some s) = if is_zero s.count then pure (negsuc 0, none, some s) else do
  c ← load s.head
  s' ← delete_item (record s { head = c.next_ptr }) s.head null
  pure (
    pos 0,
    some (c.item, c.tag),
    some (record s' { tail = if s'.head == null then null else s'.tail }),
  )

-- `dyna_del_from_back`
unfoldable pub del_from_back : Option Handle → Cmd (ℤ × Option (ℕ × ℕ) × Option Handle)
del_from_back none = pure (negsuc 0, none, none)
del_from_back (some s) = if is_zero s.count then pure (negsuc 0, none, some s) else do
  c ← load s.tail
  s' ← delete_item (record s { tail = c.prev_ptr }) s.tail null
  pure (
    pos 0,
    some (c.item, c.tag),
    some (record s' { head = if s'.tail == null then null else s'.head }),
  )

-- `dyna_search_reset`
unfoldable pub search_reset : Option Handle → ℤ × Option Handle
search_reset none = (negsuc 0, none)
search_reset (some s) = (pos 0, some (record s { find_data = null }))

-- The test of the loop of `dyna_search`; a null comparator is `none`.
unfoldable pub fits : Option (ℕ → ℕ → Bool) → ℕ → ℕ → Cell → Bool
fits none item tag c = c.tag == tag
fits (some comparator) item tag c = c.tag == tag && comparator c.item item

-- The loop of `dyna_search`: the final value of `find_data`.
unfoldable pub search_loop : ℕ → ℕ → ℕ → ℕ → Option (ℕ → ℕ → Bool) → Cmd ℕ
search_loop zero cur item tag comparator = λ _. no_fuel
search_loop (suc k) cur item tag comparator = if cur == null then pure null else do
  c ← load cur
  if fits comparator item tag c then pure cur else search_loop k c.next_ptr item tag comparator

-- `dyna_search`: the item found (null if none), which is also where the next search goes on
unfoldable pub search_item : Option Handle → ℕ → ℕ → Option (ℕ → ℕ → Bool) → Cmd (ℕ × Option Handle)
search_item none item tag comparator = pure (null, none)
search_item (some s) item tag comparator = do
  start ← if s.find_data == null then pure s.head else do c ← load s.find_data; pure c.next_ptr
  found ← search_loop (rounds s.count + 1) start item tag comparator
  pure (found, some (record s { find_data = found }))

-- `dyna_empty`
unfoldable pub is_empty : Handle → Bool
is_empty s = is_zero s.count

-- `dyna_length`
unfoldable pub length_of : Option Handle → ℤ
length_of none = negsuc 0
length_of (some s) = s.count

-- The loop of `dyna_get_item_by_index`, over `__i - i`.
unfoldable pub index_loop : ℕ → ℕ → Cmd ℕ
index_loop zero cur = pure cur
index_loop (suc k) cur = if cur == null then pure cur else do c ← load cur; index_loop k c.next_ptr

-- `dyna_get_item_by_index`
unfoldable pub get_item_by_index : Option Handle → ℤ → Cmd ℕ
get_item_by_index none i = pure null
get_item_by_index (some s) i = index_loop (rounds i) s.head

-- `swap` on two items
unfoldable pub swap : ℕ → ℕ → Cmd (Unit {0})
swap a b = do
  x ← load a
  y ← load b
  put a (some (record x { item = y.item; tag = y.tag }))
  y' ← load b
  put b (some (record y' { item = x.item; tag = x.tag }))

-- One pass of `dyna_sort`: the inner loop, with `k` rounds left.
unfoldable pub sort_pass : ℕ → ℕ → (ℕ → ℕ → ℤ) → Cmd (Unit {0})
sort_pass zero cur comparator = pure tt
sort_pass (suc k) cur comparator = do
  x ← load cur
  y ← load x.next_ptr
  if is_positive (comparator x.item y.item) then swap cur x.next_ptr else pure tt
  sort_pass k x.next_ptr comparator

-- The outer loop, with `k` passes left.
unfoldable pub sort_loop : ℕ → ℕ → ℕ → (ℕ → ℕ → ℤ) → Cmd (Unit {0})
sort_loop zero rounds_left head comparator = pure tt
sort_loop (suc k) rounds_left head comparator = do
  sort_pass rounds_left head comparator
  sort_loop k rounds_left head comparator

-- `dyna_sort`; `dyna_data` of a null item is null, which the passes never reach
unfoldable pub sort : Option Handle → (ℕ → ℕ → ℤ) → Cmd (Unit {0})
sort none comparator = pure tt
sort (some s) comparator = sort_loop (rounds s.count) (rounds (dec s.count)) s.head comparator
