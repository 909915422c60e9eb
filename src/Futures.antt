-- ===== src/Futures.antt =====
-- include/hypercomm/core/wait_any.hpp and resuming_callback.hpp: a thread waits for the first value of
-- several futures. The ports of the futures are those of the locality that waits, closed before the
-- call; what opening them does is from `open`, `resync_port_queue` and the reception of values in
-- src/hypercomm/core/locality.cc, with CMK_ERROR_CHECKING. The thread is represented by a flag, and
-- what is sent back to a future by the list `returned`.
pub mod First
mod Tests
use hypercomm.Base.{
  ℕ, suc, ◌+◌, ◌≡◌, Bool, true, false, List, [], ◌∷◌, ◌++◌, Option, none, some, is_some, Eq, ◌==◌,
  contains, index_of, if◌then◌else◌, ◌>>=◌,
}

-- `resuming_callback`, how often its thread was awakened, and what went back to the futures.
pub record Waiter (F V : Type 0) : Type 0 where
  pub result : Option (F × V)
  pub sleeps : Bool
  pub awakened : ℕ
  pub returned : List (F × V)

abbrev pub new_waiter : {F V : Type 0} → Waiter F V
new_waiter = record { result = none; sleeps = false; awakened = 0; returned = [] }

module _ {F V : Type 0} where
  -- `ready`, `send` and `wait` of `resuming_callback`; a failed assertion is `none`.
  unfoldable pub is_resumed : Waiter F V → Bool
  is_resumed w = is_some w.result

  unfoldable pub resume_with : F × V → Waiter F V → Waiter F V
  resume_with value w = record w {
    result = some value;
    sleeps = false;
    awakened = if w.sleeps then w.awakened + 1 else w.awakened;
  }

  unfoldable pub wait : Waiter F V → Option (Waiter F V)
  wait w =
      if is_resumed w then some w else if w.sleeps then none else some (record w { sleeps = true })

  -- `send` of `wait_any_callback`: a value that comes too late goes back to its future.
  unfoldable pub send_any : F × V → Waiter F V → Waiter F V
  send_any value w =
      if is_resumed w then record w { returned = w.returned ++ value ∷ [] } else resume_with value w

-- The ports of futures: the values that wait in closed ones, in the order in which they came, and
-- the ports that are open for the thread.
pub record Ports (F V : Type 0) : Type 0 where
  pub waiting : List (F × V)
  pub opened : List F

module _ {F V : Type 0} where
  -- Values that reach the callbacks of the thread, one after the other.
  unfoldable pub send_all : List (F × V) → Waiter F V → Waiter F V
  send_all [] w = w
  send_all (value ∷ values) w = send_all values (send_any value w)

module _ {F V : Type 0} ⦃e : Eq F⦄ where
  -- The values that wait in the port of a future, each with the future, and the others.
  unfoldable pub queued_for : F → List (F × V) → List (F × V)
  queued_for f [] = []
  queued_for f ((g, v) ∷ values) =
      if g == f then (g, v) ∷ queued_for f values else queued_for f values

  unfoldable pub others_than : F → List (F × V) → List (F × V)
  others_than f [] = []
  others_than f ((g, v) ∷ values) =
      if g == f then others_than f values else (g, v) ∷ others_than f values

  -- `request_future`: opening a port that is open aborts; the values that wait for it are delivered at
  -- once, and it stays open. Also whether the future was ready.
  unfoldable pub request_future :
      F → Ports F V → Waiter F V → Option (Bool × Ports F V × Waiter F V)
  request_future f ports w =
      if contains f ports.opened then none else elim (queued_for f ports.waiting) [
        | [] ↦ some (false, record ports { opened = ports.opened ++ f ∷ [] }, w)
        | value ∷ values ↦ some (
          true,
          record { waiting = others_than f ports.waiting; opened = ports.opened ++ f ∷ [] },
          send_all (value ∷ values) w,
        )
      ]

  -- The loop of `wait_any`: it stops behind a future that is ready.
  unfoldable pub request_loop : List F → Ports F V → Waiter F V → Option (Ports F V × Waiter F V)
  request_loop [] ports w = some (ports, w)
  request_loop (f ∷ fs) ports w = elim (request_future f ports w) [
    | none ↦ none
    | some (ready, ports1, w1) ↦ elim ready [
      | true ↦ some (ports1, w1)
      | false ↦ request_loop fs ports1 w1
    ]
  ]

  -- A value that arrives: it reaches the callback of an open port, or waits.
  unfoldable pub arrive : F × V → Ports F V × Waiter F V → Ports F V × Waiter F V
  arrive (f, v) (ports, w) =
      if contains f ports.opened
      then (ports, send_any (f, v) w)
      else (record ports { waiting = ports.waiting ++ (f, v) ∷ [] }, w)

  unfoldable pub arrive_all : List (F × V) → Ports F V × Waiter F V → Ports F V × Waiter F V
  arrive_all [] s = s
  arrive_all (value ∷ values) s = arrive_all values (arrive value s)

  -- `wait_any`, for the values that wait in the ports and those that arrive once it waits: the value
  -- and the position of its future, or nothing while the thread sleeps on; the ports, and the waiter.
  unfoldable pub wait_any :
      List (F × V) → List F → List (F × V) → Option (Option (V × ℕ) × Ports F V × Waiter F V)
  wait_any available futures arrivals =
      request_loop futures (record { waiting = available; opened = [] }) new_waiter
      >>= λ (ports, w). wait w >>= λ w1.
          let (ports2, w2) = arrive_all arrivals (ports, w1) in
          some (
            elim w2.result [ none ↦ none | some (f, v) ↦ some (v, index_of f futures) ],
            ports2,
            w2,
          )
