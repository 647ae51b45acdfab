-- ===== src/RequestQueue/Tests.antt =====
-- A queue of two places with caps of 200 ms, to which three packets for 9 are handed.
use ant_hoc_net.Double.Fixed.{Fixed, fixed_double, plus}
use ant_hoc_net.Prelude.{List, [], length, refl, true, ℕ, ◌%◌, ◌*◌, ◌+◌, ◌-◌, ◌/◌, ◌^◌, ◌∷◌, ◌≡◌}
use ant_hoc_net.RequestQueue.{
  PerReason, QueueCall, QueueEntry, RequestQueue, Time, aged, bound_for, call_once, cap_of, cap_set,
  cell, dequeue_all, dequeue_called, drop_entry, drop_front, enqueue, enqueue_called, live,
  make_room, new_queue, not_bound_for, purge, purge_called, run_calls, set_cell, set_hold_cap,
  set_timeout, stamped, timeout_set,
}
use ant_hoc_net.RequestQueue.Account.{all_accounted, handed_in, total}

abbrev milliseconds : Time → Time → Fixed
milliseconds now then' = plus ((now - then') / 10 ^ 6)

abbrev packet : ℕ → ℕ → QueueEntry ℕ
packet n reason = record {
  payload = n;
  dst = 9;
  has_ecb = true;
  expire = 0;
  enqueue_first = 0;
  hold_reason = reason;
}

abbrev test_calls : List (Time × QueueCall ℕ)
test_calls =
    (10 ^ 6, enqueue_called (packet 1 0))
    ∷ (2 * 10 ^ 6, enqueue_called (packet 2 1))
    ∷ (3 * 10 ^ 6, enqueue_called (packet 3 2))
    ∷ (100 * 10 ^ 6, dequeue_called 9)
    ∷ (150 * 10 ^ 6, timeout_set (10 ^ 9))
    ∷ (150 * 10 ^ 6, cap_set 2 (100 * 10 ^ 6))
    ∷ (300 * 10 ^ 6, purge_called)
    ∷ []

abbrev test_caps : PerReason Time
test_caps = record { setup = 0; reconv = 200 * 10 ^ 6; repair = 200 * 10 ^ 6 }

abbrev plain_queue : RequestQueue ℕ Fixed
plain_queue = new_queue milliseconds 2 (3 * 10 ^ 9)

-- the first packet made room for the third
counts_one_drop :
    (run_calls milliseconds test_calls (plain_queue, [])).0.stats.dropped_count.setup ≡ 1
unfolding run_calls call_once enqueue dequeue_all purge make_room drop_front drop_entry stamped
    cap_of cell set_cell live aged bound_for not_bound_for new_queue set_hold_cap set_timeout
counts_one_drop = refl

all_accounted_example :
    (length (run_calls milliseconds test_calls (plain_queue, [])).1
        + length (run_calls milliseconds test_calls (plain_queue, [])).0.queue
        + total (run_calls milliseconds test_calls (plain_queue, [])).0.stats.dropped_count)
      % 2 ^ 64
    ≡ handed_in test_calls % 2 ^ 64
all_accounted_example = all_accounted milliseconds 2 (3 * 10 ^ 9) test_calls
