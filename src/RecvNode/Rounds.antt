-- ===== src/RecvNode/Rounds.antt =====
-- The send thread: the rounds of RecvNode::sendThread (GameConn/RecvNode.cpp).
use anger.Common.{
  ℕ, zero, suc, Bool, true, false, List, [], ◌∷◌, ◌++◌, Option, none, some, if◌then◌else◌, ltb, leb,
}
use anger.Common.Word.{add32, sub32}
use anger.EndPoint.{EndPoint}
use anger.Link.State.{Link, Effect}
use anger.Link.Dispatch.{
  dispatch_rel_ordered_queue_if_latency_time_passed, dispatch_ack_queue,
  dispatch_rel_newest_ack_queue,
}
use anger.RecvNode.{RecvNode}
use anger.RecvNode.Send.{for_links}

-- The thread's sums of time and the intervals of the node, in milliseconds.
pub record SendThread : Type 0 where
  pub ack_accum_time : ℕ
  pub rel_new_accum_time : ℕ

pub record Intervals : Type 0 where
  pub send_rel_newest_interval_ms : ℕ
  pub ack_aggregate_time_ms : ℕ

unfoldable pub minimum : ℕ → ℕ → ℕ
minimum a b = if ltb a b then a else b

-- Effects of links, with their endpoints.
abbrev pub Done : Type 0
Done = Option (RecvNode × List (EndPoint × List Effect))

abbrev pub after : List (EndPoint × List Effect) → Done → Done
after es none = none
after es (some (n, fs)) = some (n, es ++ fs)

unfoldable pub and_then : Done → (RecvNode → Done) → Done
and_then none k = none
and_then (some (n, es)) k = after es (k n)

-- An operation on every link of the list.
unfoldable pub for_list : (Link → Link × List Effect) → RecvNode → Done
unfolding for_links
for_list f n = for_links (λ l. some (f l)) n.open_links_list n

unfoldable pub only_sends : (Link → List Effect) → Link → Link × List Effect
only_sends f l = (l, f l)

-- The loop that finds the lowest latency; every link has the same.
unfoldable pub lowest_latency : ℕ → List ℕ → ℕ
unfolding minimum
lowest_latency latency [] = 4294967295
lowest_latency latency (p ∷ ps) = minimum latency (lowest_latency latency ps)

-- How long a round waits.
unfoldable pub wait_time : ℕ → Intervals → RecvNode → ℕ
unfolding minimum lowest_latency
wait_time latency i n =
    minimum (lowest_latency latency n.open_links_list)
      (minimum i.send_rel_newest_interval_ms i.ack_aggregate_time_ms)

-- The acknowledgements of a round, if enough time went by.
unfoldable pub send_acks : Bool → ℕ → RecvNode → Done
unfolding for_list and_then only_sends dispatch_ack_queue dispatch_rel_newest_ack_queue
send_acks false stale n = some (n, [])
send_acks true stale n =
    for_list
      (λ l.
        let (l', es) = dispatch_ack_queue l in (l', es ++ dispatch_rel_newest_ack_queue stale l'))
      n

-- What a round sends at the end, if it waited long enough.
unfoldable pub send_newest_acks : Bool → ℕ → RecvNode → Done
unfolding for_list only_sends dispatch_rel_newest_ack_queue
send_newest_acks false stale n = some (n, [])
send_newest_acks true stale n = for_list (only_sends (dispatch_rel_newest_ack_queue stale)) n

-- The sums of time of the thread behind a round.
unfoldable pub tick : ℕ → Intervals → SendThread → SendThread
unfolding add32 sub32
tick waited i t =
    let acks = add32 t.ack_accum_time waited in
    let newest = add32 t.rel_new_accum_time waited in
    record {
      ack_accum_time =
          if leb i.ack_aggregate_time_ms acks then sub32 acks i.ack_aggregate_time_ms else acks;
      rel_new_accum_time =
          if leb i.send_rel_newest_interval_ms waited
          then sub32 newest i.send_rel_newest_interval_ms
          else newest;
    }

-- One round of sendThread, which has waited so long. `latency_time` is
-- `(u32_t)(1.3f * getLatency())`.
unfoldable pub round : ℕ → ℕ → ℕ → Intervals → SendThread → RecvNode → Done
unfolding for_list and_then dispatch_rel_ordered_queue_if_latency_time_passed
round waited latency_time stale i t n =
    and_then (for_list (dispatch_rel_ordered_queue_if_latency_time_passed latency_time waited) n)
      (λ n'.
        and_then (send_acks (leb i.ack_aggregate_time_ms (add32 t.ack_accum_time waited)) stale n')
          (send_newest_acks (leb i.send_rel_newest_interval_ms waited) stale))

-- Rounds one behind the other; nobody changes the links while the thread waits.
unfoldable pub rounds : ℕ → ℕ → ℕ → ℕ → Intervals → SendThread → RecvNode → Done
unfolding round and_then tick wait_time
rounds zero latency latency_time stale i t n = some (n, [])
rounds (suc k) latency latency_time stale i t n =
    let waited = wait_time latency i n in
    and_then (round waited latency_time stale i t n)
      (rounds k latency latency_time stale i (tick waited i t))
