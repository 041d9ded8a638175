-- ===== src/Buffers/Roll.antt =====
-- BufferItemRef and RollFixBuffer of src/utils/rollfixedbuffer.h and .cpp: one block of memory, cut into
-- items of one size that callers borrow and give back, with a queue of free items for each group.
pub mod Count
pub mod Construct
pub mod Invariant
pub mod Isolation
use huicpp.Base.{
  ℕ, zero, suc, ◌+◌, ◌*◌, ◌%◌, ◌^◌, List, [], ◌∷◌, ◌++◌, length, Bool, true, false, not,
  if◌then◌else◌, ltb, ◌==◌, Option, none, some, set, get_elem?,
}
use huicpp.Base.Options.{◌>>=◌, return}
use huicpp.Buffers.Memory.{write_at}

-- `place` is where `m_ptr` points to, from the start of the block; `has_buffer` tells if `m_buffer` is
-- set.
pub record ItemRef : Type 0 where
  pub group : ℕ
  pub index : ℕ
  pub size : ℕ
  pub place : ℕ
  pub has_buffer : Bool
  pub datalen : ℕ

unfoldable pub new_ref : ℕ → ℕ → ℕ → ℕ → ItemRef
new_ref group index size place = record {
  group = group;
  index = index;
  size = size;
  place = place;
  has_buffer = false;
  datalen = 0;
}

-- A pointer to an item is its position in `all_refs`. The numbers are those of int that are not
-- negative.
pub record RollBuffer : Type 0 where
  pub group_count : ℕ
  pub group_item_count : ℕ
  pub item_size : ℕ
  pub block : List ℕ
  pub queues : List (List ℕ)
  pub all_refs : List ItemRef

-- `none` is an exception here and below.
unfoldable pub get_mem_item : ℕ → ℕ → RollBuffer → Option ℕ
get_mem_item group index b =
    if not (ltb group b.group_count)
    then none
    else if not (ltb index b.group_item_count)
    then none
    else some ((group * b.group_item_count * b.item_size + index * b.item_size) % 2 ^ 32)

-- The inner loop of the constructor, with the queue of the group, from item `index` on: `left` items.
unfoldable pub fill_items : ℕ → ℕ → ℕ → RollBuffer → List ℕ → Option (RollBuffer × List ℕ)
unfolding get_mem_item new_ref ◌>>=◌
fill_items zero group index b queue = some (b, queue)
fill_items (suc left) group index b queue = do
  place ← get_mem_item group index b
  fill_items left group (suc index)
      (record b { all_refs = b.all_refs ++ (new_ref group index b.item_size place ∷ []) })
      (queue ++ (length b.all_refs ∷ []))

-- The outer loop, from `group` on: `left` groups.
unfoldable pub fill_groups : ℕ → ℕ → RollBuffer → Option RollBuffer
unfolding fill_items ◌>>=◌
fill_groups zero group b = some b
fill_groups (suc left) group b = do
  (b', queue) ← fill_items b.group_item_count group 0 b []
  fill_groups left (suc group) (record b' { queues = b'.queues ++ (queue ∷ []) })

-- `block` is the memory that malloc gives.
unfoldable pub construct_roll : ℕ → ℕ → ℕ → List ℕ → Option RollBuffer
unfolding fill_groups
construct_roll group_count group_item_count item_size block = fill_groups group_count 0 (record {
  group_count = group_count;
  group_item_count = group_item_count;
  item_size = item_size;
  block = block;
  queues = [];
  all_refs = [];
})

-- RefQueue::Push.
unfoldable pub push_ref : ℕ → List ℕ → List ℕ
push_ref ptr queue = queue ++ (ptr ∷ [])

-- What a call of Pop comes to: an exception, a wait for an item, or an item.
pub data Popped : Type 0 where
  refused : Popped
  waits : Popped
  given : ℕ → RollBuffer → Popped

unfoldable pub set_buffer : ItemRef → ItemRef
set_buffer r = record r { has_buffer = true }

-- An object changed through a pointer to it.
unfoldable pub change_ref : ℕ → (ItemRef → ItemRef) → List ItemRef → List ItemRef
change_ref ptr f [] = []
change_ref zero f (r ∷ rs) = f r ∷ rs
change_ref (suc ptr) f (r ∷ rs) = r ∷ change_ref ptr f rs

-- RefQueue::Pop and SetBuffer, on the queue of a group.
unfoldable pub pop_ref : ℕ → Option (List ℕ) → RollBuffer → Popped
unfolding set_buffer change_ref
pop_ref group none b = refused
pop_ref group (some []) b = waits
pop_ref group (some (ptr ∷ queue)) b = given ptr (record b {
  queues = set b.queues group queue;
  all_refs = change_ref ptr set_buffer b.all_refs;
})

unfoldable pub roll_pop : ℕ → RollBuffer → Popped
unfolding pop_ref
roll_pop group b =
    if ltb group b.group_count then pop_ref group (get_elem? b.queues group) b else refused

unfoldable pub set_datalen : ℕ → ItemRef → ItemRef
set_datalen len r = record r { datalen = len }

-- BufferItemRef::Write.
unfoldable pub write_ref : ℕ → List ℕ → RollBuffer → Option RollBuffer
unfolding ◌>>=◌ change_ref set_datalen
write_ref ptr bytes b = do
  r ← get_elem? b.all_refs ptr
  if ltb (length bytes) r.size
      then (do
        block' ← write_at r.place bytes b.block
        return (record b {
          block = block';
          all_refs = change_ref ptr (set_datalen (length bytes)) b.all_refs;
        }))
      else none

-- BufferItemRef::PullBack and RollFixBuffer::PullBack.
unfoldable pub pull_back : ℕ → RollBuffer → Option RollBuffer
unfolding ◌>>=◌ push_ref
pull_back ptr b = do
  r ← get_elem? b.all_refs ptr
  if r.has_buffer
      then (do
        queue ← get_elem? b.queues r.group
        return (record b { queues = set b.queues r.group (push_ref ptr queue) }))
      else none
