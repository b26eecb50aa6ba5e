-- ===== src/Http2/PriorityQueue/Weights.antt =====
-- The weights that src/http2/priority_queue.rs keeps of the streams.
use dmeng.Prelude.{ℕ, ◌<◌, ◌≡◌, not, ◌&&◌, arith, ◌==◌, if◌then◌else◌}
use dmeng.Http2.Frame.{Priority}
use dmeng.Http2.Platform.{Platform}
use dmeng.Http2.PriorityQueue.{PriorityQueue, priority_recv, weight}

-- A `u8` is below 256. After a PRIORITY frame the stream that it depends on, if it names one, has the
-- weight 255, whatever the weight in the frame and the weight before; otherwise the frame's own stream
-- has the weight in the frame, and every other stream the weight that it had.
weight-priority_recv :
    (p : Platform) (r : Priority) (j : ℕ) (q : PriorityQueue p)
    → r.weight < 256
    → weight p r.depend_id q < 256
    → weight p j (priority_recv p r q) ≡ (
        if not (r.depend_id == 0) && j == r.depend_id
        then 255
        else if j == r.id
        then r.weight
        else weight p j q)
unfolding weight priority_recv
weight-priority_recv p r j q byte old = ground arith
