-- ===== src/Buffers/Tests.antt =====
-- Concrete runs of the buffers, and the theorems at concrete inputs.
use huicpp.Base.{
  ℕ, ◌+◌, ◌*◌, ◌≤◌, ◌<◌, ◌≡◌, ◌⊎◌, refl, arith, List, [], ◌∷◌, ◌++◌, none, some, true, false,
}
use huicpp.Base.Options.{◌>>=◌}
use huicpp.Buffers.Memory.{read_at, write_at}
use huicpp.Buffers.Packet.{
  PacketBuffer, data_of, IoOutputBuffer, write_io, get_data_length, sum_lengths,
}
use huicpp.Buffers.Packet.Laws.{IsPacket, IsIo}
use huicpp.Buffers.Io.{IoBuffer, append_str, pop_bytes}
use huicpp.Buffers.Io.Laws.{IsIoBuffer, append_str_refines}
use huicpp.Buffers.Sync.{
  Monitor, Event, push, signal, pop, resume_pop, start_monitor, sync_run, copy_out, has_data,
  pop_data,
}
use huicpp.Buffers.Sync.Order.{sync_run-fifo, no_lost_wakeup}
use huicpp.Buffers.Roll.{
  RollBuffer, construct_roll, write_ref, roll_pop, waits, new_ref, set_buffer, set_datalen,
}
use huicpp.Buffers.Roll.Count.{count}
use huicpp.Buffers.Roll.Isolation.{Callers, borrow, write_item, calls, borrowed_isolation}

abbrev packet : PacketBuffer
packet = record { buf = 1 ∷ 2 ∷ 3 ∷ 4 ∷ 5 ∷ 6 ∷ []; current_pos = 1 }

packet-IsPacket : IsPacket packet
packet-IsPacket = record { pos_in = omega arith; small = omega arith }

abbrev two_regions : IoOutputBuffer
two_regions = record {
  header = packet;
  index = 3;
  vec = [] ∷ (7 ∷ []) ∷ (8 ∷ 9 ∷ []) ∷ [] ∷ [] ∷ [] ∷ [] ∷ [] ∷ [] ∷ [] ∷ [];
}

two_regions-IsIo : IsIo two_regions ((7 ∷ []) ∷ (8 ∷ 9 ∷ []) ∷ [])
two_regions-IsIo = record {
  size = refl;
  indexed = refl;
  room = omega arith;
  first = [];
  entries = refl;
}

-- The header is not counted before WriteIo.
get_data_length_before :
    (get_data_length two_regions ≡ 3) × (get_data_length (write_io two_regions).1 ≡ 4)
unfolding get_data_length write_io data_of sum_lengths
get_data_length_before = (refl, refl)

abbrev half_full : IoBuffer
half_full = record { avalable_length = 3; buffer = 1 ∷ 2 ∷ 3 ∷ 0 ∷ 0 ∷ 0 ∷ []; size = 6; pos = 3 }

half_full-IsIoBuffer : IsIoBuffer half_full
half_full-IsIoBuffer = record { whole = refl; sum = refl; small = omega arith }

append_str_refines_example :
    (1 + 3 + 3 ≤ 6
      → (b' : IoBuffer) × (append_str (9 ∷ []) half_full ≡ some b')
        × (pop_bytes b' ≡ pop_bytes half_full ++ (9 ∷ []))
        × IsIoBuffer b')
    × (6 < 1 + 3 + 3 → append_str (9 ∷ []) half_full ≡ some half_full)
append_str_refines_example =
    append_str_refines half_full (9 ∷ []) half_full-IsIoBuffer (omega arith)

-- A consumer waits, is woken by the signal for an item, and takes it.
abbrev events : List (Event ℕ)
events = pop ∷ push 5 ∷ push 6 ∷ signal ∷ resume_pop ∷ []

abbrev after : Monitor ℕ
after = record {
  items = 6 ∷ [];
  pending = 1;
  waiting = 0;
  awake = 0;
  pushed = 5 ∷ 6 ∷ [];
  taken = 5 ∷ [];
}

after_events : sync_run events start_monitor ≡ some after
unfolding sync_run start_monitor ◌>>=◌
after_events = refl

sync_run-fifo_example : after.pushed ≡ after.taken ++ after.items
sync_run-fifo_example = sync_run-fifo events after after_events

abbrev sleeping : Monitor ℕ
sleeping = record {
  items = 5 ∷ [];
  pending = 1;
  waiting = 1;
  awake = 0;
  pushed = 5 ∷ [];
  taken = [];
}

no_lost_wakeup_example :
    (0 < 1 → 1 ≤ 0 + 1)
    × (◌≡◌ {A = ℕ} 0 0 → ◌≡◌ {A = ℕ} 1 0 → (◌≡◌ {A = ℕ} 1 0) ⊎ (sleeping.items ≡ []))
no_lost_wakeup_example =
    no_lost_wakeup (pop ∷ push 5 ∷ []) sleeping (unfold sync_run start_monitor ◌>>=◌ in refl)

-- HasData says the contrary, and PopData with a short length throws when the item is no longer in the
-- queue.
has_data_of_item : (has_data after ≡ false) × (has_data (start_monitor {A = ℕ}) ≡ true)
unfolding has_data start_monitor
has_data_of_item = (refl, refl)

pop_short :
    let m : Monitor (List ℕ) = record {
      items = (1 ∷ 2 ∷ []) ∷ [];
      pending = 0;
      waiting = 0;
      awake = 0;
      pushed = (1 ∷ 2 ∷ []) ∷ [];
      taken = [];
    } in
    ((pop_data m.items m).items ≡ []) × (copy_out false 1 (1 ∷ 2 ∷ []) ≡ none)
unfolding pop_data copy_out
pop_short = (refl, refl)

-- One group of two items of two bytes.
abbrev pool : RollBuffer
pool = record {
  group_count = 1;
  group_item_count = 2;
  item_size = 2;
  block = 0 ∷ 0 ∷ 0 ∷ 0 ∷ [];
  queues = (0 ∷ 1 ∷ []) ∷ [];
  all_refs = new_ref 0 0 2 0 ∷ new_ref 0 1 2 2 ∷ [];
}

-- Both items have been borrowed, and one was written.
abbrev both : Callers
both = record {
  buffer = record pool {
    block = 0 ∷ 0 ∷ 7 ∷ 0 ∷ [];
    queues = [] ∷ [];
    all_refs = set_buffer (new_ref 0 0 2 0) ∷ set_datalen 1 (set_buffer (new_ref 0 1 2 2)) ∷ [];
  };
  borrowed = 1 ∷ 0 ∷ [];
}

pool_built : construct_roll 1 2 2 (0 ∷ 0 ∷ 0 ∷ 0 ∷ []) ≡ some pool
unfolding construct_roll new_ref ◌>>=◌
pool_built = refl

both_borrowed :
    calls
      (borrow 0 ∷ borrow 0 ∷ write_item 1 (7 ∷ []) ∷ [])
      (record { buffer = pool; borrowed = [] })
    ≡ some both
unfolding calls new_ref write_at ◌>>=◌
both_borrowed = refl

pop_of_empty_waits : roll_pop 0 both.buffer ≡ waits
unfolding roll_pop
pop_of_empty_waits = refl

borrowed_isolation_example :
    (count 0 both.borrowed ≡ 1)
    × (b' : RollBuffer) × (write_ref 0 (5 ∷ []) both.buffer ≡ some b')
    × (read_at (0 * 2) 1 b'.block ≡ some (5 ∷ []))
    × ((◌≡◌ {A = ℕ} 0 1) ⊎ (read_at (1 * 2) 2 b'.block ≡ read_at (1 * 2) 2 both.buffer.block))
borrowed_isolation_example =
    borrowed_isolation 1 2 2 (0 ∷ 0 ∷ 0 ∷ 0 ∷ []) (borrow 0 ∷ borrow 0 ∷ write_item 1 (7 ∷ []) ∷ [])
      pool both (omega arith) (omega arith) pool_built both_borrowed 0 1 (5 ∷ [])
      (unfold count in omega arith) (omega arith)
