-- ===== src/Locality/Ports.antt =====
-- `receive`, `open` and `resync_port_queue` of src/hypercomm/core/locality.cc: values that come
-- before their port is open.
use hypercomm.Base.{
  ℕ, zero, suc, ◌+◌, ◌<◌, ◌≡◌, refl, ap, ◌∙◌, true, false, List, [], ◌∷◌, ◌++◌, Option, none, some,
  arith, length, All, append_assoc, append-nil, Eq, ==_refl, Assoc, lookup, lookup_or, insert,
  erase, lookup-insert, lookup-erase,
}
use hypercomm.Locality.{
  to_port, Dev, Destination, Locality, Calls, has_value, enqueue, passthru, assert_delivered,
  receive, resync_loop, resync_port_queue, set_alive, open_port,
}

module _ {P K C X : Type 0} ⦃e : Eq P⦄ (calls : Calls P K C X) (fuel : ℕ) (port : P)
    (dst : Destination P K) where
  -- The destination takes every value, and leaves the queue and the flag of this port alone.
  abbrev pub IsQuiet : Type 0
  IsQuiet =
      (dev : Dev P X) (l : Locality P K C X)
      → (l1 : Locality P K C X) × (assert_delivered calls (passthru calls fuel dst dev l) ≡ some l1)
        × (lookup port l1.port_queue ≡ lookup port l.port_queue)
        × (l1.alive port ≡ l.alive port)

  -- The state with a value less at the front of the queue.
  abbrev pub popped : List (Dev P X) → Locality P K C X → Locality P K C X
  popped rest l = record l {
    port_queue = insert port rest l.port_queue;
    processed = l.processed + 1;
  }

  -- Values are handed to the destination one after the other, each counted as processed.
  pub data Delivered : Locality P K C X → List (Dev P X) → Locality P K C X → Type 0 where
    nothing : {l : Locality P K C X} → Delivered l [] l
    then_delivered :
        {l : Locality P K C X} {l1 : Locality P K C X} {l' : Locality P K C X} {dev : Dev P X}
        {devs : List (Dev P X)}
        → assert_delivered calls (passthru calls fuel dst dev l) ≡ some l1
        → Delivered (popped devs l1) devs l'
        → Delivered l (dev ∷ devs) l'

  -- The end of a flush: the queue is gone.
  abbrev pub emptied : Locality P K C X → Locality P K C X
  emptied l = record l { port_queue = erase port l.port_queue }

  lookup-lookup_or :
      (q : List (Dev P X)) (m : Assoc P (List (Dev P X)))
      → lookup port m ≡ some q
      → lookup_or port [] m ≡ q
  lookup-lookup_or q m h = rw (lookup_or, h)

  resync_loop-Delivered :
      (rounds : ℕ) (q : List (Dev P X)) (l : Locality P K C X)
      → IsQuiet
      → l.alive port ≡ true
      → lookup port l.port_queue ≡ some q
      → length q < rounds
      → (l' : Locality P K C X) × (resync_loop calls fuel rounds port dst l ≡ some (emptied l'))
        × Delivered l q l'
  unfolding resync_loop
  resync_loop-Delivered zero q l quiet on h bound = absurd (omega arith)
  resync_loop-Delivered (suc rounds) [] l quiet on h bound =
      (l, rw (resync_loop, lookup-lookup_or [] l.port_queue h), nothing)
  resync_loop-Delivered (suc rounds) (dev ∷ devs) l quiet on h bound =
      let (l1, d, same, flag) = quiet dev l in
      let (l', r, trace) =
        resync_loop-Delivered rounds devs (popped devs l1) quiet (flag ∙ on)
          (rw (lookup-insert, ==_refl)) (omega (arith, bound)) in
      (
        l',
        rw (resync_loop, lookup-lookup_or (dev ∷ devs) l.port_queue h)
            (rw (on, d) (rw (lookup-lookup_or (dev ∷ devs) l1.port_queue (same ∙ h)) r)),
        then_delivered d trace,
      )

  -- A port that is not open is opened to a destination that takes every value: the values that
  -- have been waiting are delivered in the order of their arrival, and the port's queue is gone.
  pub open_delivers :
      (rounds : ℕ) (q : List (Dev P X)) (l : Locality P K C X)
      → IsQuiet
      → lookup port l.entry_ports ≡ none
      → lookup port l.port_queue ≡ some q
      → length q < rounds
      → (l' : Locality P K C X) × (open_port calls fuel rounds port dst l ≡ some (emptied l'))
        × Delivered
            (record (set_alive calls port true l) { entry_ports = insert port dst l.entry_ports })
            q
            l'
        × (has_value port (emptied l') ≡ false)
  unfolding open_port resync_port_queue has_value
  open_delivers rounds q l quiet new h bound =
      let l1 : Locality P K C X = record (set_alive calls port true l) {
        entry_ports = insert port dst l.entry_ports;
      } in
      let (l', r, trace) = resync_loop-Delivered rounds q l1 quiet (rw ==_refl) h bound in
      (
        l',
        rw (open_port, new) (rw (resync_port_queue, h) r),
        trace,
        rw (has_value, lookup-erase, ==_refl),
      )

  -- Values are received one after the other.
  abbrev pub receive_all : List (Dev P X) → Locality P K C X → Option (Locality P K C X)
  receive_all [] l = some l
  receive_all (dev ∷ devs) l = elim (receive calls (suc fuel) dev l) [
    | none ↦ none
    | some l1 ↦ receive_all devs l1
  ]

  receive-closed :
      (dev : Dev P X) (l : Locality P K C X)
      → dev.ep ≡ to_port port
      → lookup port l.entry_ports ≡ none
      → receive calls (suc fuel) dev l ≡ some (enqueue port dev l)
  unfolding receive
  receive-closed dev l ep closed = simp (receive, ep, closed)

  receive_all-queued :
      (devs : List (Dev P X)) (q : List (Dev P X)) (l : Locality P K C X)
      → All (λ d. d.ep ≡ to_port port) devs
      → lookup port l.entry_ports ≡ none
      → lookup port l.port_queue ≡ some q
      → (l1 : Locality P K C X) × (receive_all devs l ≡ some l1)
        × (lookup port l1.entry_ports ≡ none)
        × (lookup port l1.port_queue ≡ some (q ++ devs))
  unfolding enqueue
  receive_all-queued [] q l eps closed h = (l, refl, closed, rw append-nil h)
  receive_all-queued (dev ∷ devs) q l eps closed h =
      let (l1, r, c, h1) =
        receive_all-queued devs (q ++ dev ∷ []) (enqueue port dev l) eps.1 closed
          (rw (lookup-insert, ==_refl, lookup-lookup_or q l.port_queue h)) in
      (
        l1,
        rw (receive_all, receive-closed dev l eps.0 closed) r,
        c,
        rw h1 (ap some (append_assoc q (dev ∷ []) devs)),
      )

  -- Values for a port that is not open are received, and then the port is opened to a destination
  -- that takes every value: no assertion fails, and exactly these values are delivered, in the
  -- order in which they were received.
  pub receive-open_delivers :
      (rounds : ℕ) (dev : Dev P X) (devs : List (Dev P X)) (l : Locality P K C X)
      → IsQuiet
      → All (λ d. d.ep ≡ to_port port) (dev ∷ devs)
      → lookup port l.entry_ports ≡ none
      → lookup port l.port_queue ≡ none
      → length (dev ∷ devs) < rounds
      → (l1 : Locality P K C X) × (l' : Locality P K C X) × (receive_all (dev ∷ devs) l ≡ some l1)
        × (open_port calls fuel rounds port dst l1 ≡ some (emptied l'))
        × Delivered
            (record (set_alive calls port true l1) { entry_ports = insert port dst l1.entry_ports })
            (dev ∷ devs)
            l'
  unfolding enqueue
  receive-open_delivers rounds dev devs l quiet eps closed fresh bound =
      let (l1, r, c, h) =
        receive_all-queued devs (dev ∷ []) (enqueue port dev l) eps.1 closed
          (rw (lookup-insert, ==_refl, lookup_or, fresh)) in
      let (l', o, trace, gone) = open_delivers rounds (dev ∷ devs) l1 quiet c h bound in
      (l1, l', rw (receive_all, receive-closed dev l eps.0 closed) r, o, trace)
