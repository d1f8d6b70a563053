-- ===== src/Uart/Queue.antt =====
-- The receive side of emulator/src/device/uart16550.c over a history of arrivals and reads, against
-- a bounded queue of bytes.
use tiny_linux_rv.Prelude.{
  ℕ, ◌≡◌, ap₂, refl, sym, ◌∙◌, Bool, true, ◌||◌, List, [], ◌∷◌, ◌++◌, length, arith, ◌==◌,
  if◌then◌else◌,
}
use tiny_linux_rv.Uart.Defs.{Uart, rx_fifo_write, rx_fifo_read}
use tiny_linux_rv.Uart.Fifo.{IsValid, contents, capacity, oldest, rest, receive_lem, fetch_lem}

-- A byte that arrives on the line, or a read of the receive buffer.
pub data RxEvent : Type 0 where
  receive : ℕ → RxEvent
  fetch : RxEvent

unfoldable pub rx_step : Uart → RxEvent → Uart × List ℕ
rx_step u (receive b) = (rx_fifo_write u b, [])
rx_step u fetch = let read = rx_fifo_read u in (read.0, read.1 ∷ [])

-- The state after a history, and the bytes that its reads gave.
unfoldable pub rx_run : Uart → List RxEvent → Uart × List ℕ
rx_run u [] = (u, [])
rx_run u (e ∷ es) =
    let now = rx_step u e in let later = rx_run now.0 es in (later.0, now.1 ++ later.1)

-- The specification: a queue of at most `cap` bytes, and whether a byte was lost.
pub record Queue : Type 0 where
  pub waiting : List ℕ
  pub lost : Bool

unfoldable pub queue_step : ℕ → Queue → RxEvent → Queue × List ℕ
queue_step cap q (receive b) =
    if length q.waiting == cap
    then (record q { lost = true }, [])
    else (record q { waiting = q.waiting ++ b ∷ [] }, [])
queue_step cap q fetch = (record q { waiting = rest q.waiting }, oldest q.waiting ∷ [])

unfoldable pub queue_run : ℕ → Queue → List RxEvent → Queue × List ℕ
queue_run cap q [] = (q, [])
queue_run cap q (e ∷ es) =
    let now = queue_step cap q e in
    let later = queue_run cap now.0 es in (later.0, now.1 ++ later.1)

abbrev pub queue_of : Uart → Queue
queue_of u = record { waiting = contents u; lost = u.rx_fifo.overrun }

-- The queue of a record's fields.
queue : List ℕ → Bool → Queue
queue w l = record { waiting = w; lost = l }

full_step :
    (cap b : ℕ) (q : Queue)
    → queue_step cap q (receive b) ≡ (
      record {
        waiting = if length q.waiting == cap then q.waiting else q.waiting ++ b ∷ [];
        lost = q.lost || length q.waiting == cap;
      },
      [],
    )
unfolding queue_step
full_step cap b q = ground arith

capacity_kept : (u : Uart) (e : RxEvent) → capacity (rx_step u e).0 ≡ capacity u
unfolding rx_step rx_fifo_write rx_fifo_read
capacity_kept u (receive b) = ground arith
capacity_kept u fetch = ground arith

pub rx_step_lem :
    (u : Uart) (e : RxEvent)
    → IsValid u
    → ((queue_of (rx_step u e).0, (rx_step u e).1) ≡ queue_step (capacity u) (queue_of u) e)
      × IsValid (rx_step u e).0
unfolding rx_step queue_step queue
rx_step_lem u (receive b) v =
    let done = receive_lem u b v in
    (
      ap₂ (λ w l. (queue w l, [])) done.0 done.1 ∙ sym (full_step (capacity u) b (queue_of u)),
      done.2,
    )
rx_step_lem u fetch v = let done = fetch_lem u v in (cc, done.3)

-- From a well-formed state, over any history of arrivals and reads, the ring of the UART gives every
-- read the byte that the queue gives, holds the bytes the queue holds, flags a loss exactly when the
-- queue lost one, and stays well formed.
pub rx_run_refines :
    (u : Uart) (es : List RxEvent)
    → IsValid u
    → ((queue_of (rx_run u es).0, (rx_run u es).1) ≡ queue_run (capacity u) (queue_of u) es)
      × IsValid (rx_run u es).0
unfolding rx_run queue_run
rx_run_refines u [] v = (refl, v)
rx_run_refines u (e ∷ es) v =
    let now = rx_step_lem u e v in
    let later = rx_run_refines (rx_step u e).0 es now.1 in
    let onward = ap₂ (λ cap (p : Queue × List ℕ). queue_run cap p.0 es) (capacity_kept u e) now.0 in
    (ap₂ (λ (p r : Queue × List ℕ). (r.0, p.1 ++ r.1)) now.0 (later.0 ∙ onward), later.1)
