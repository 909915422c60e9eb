-- ===== src/Futures/First.antt =====
-- The first value is taken, and the others go back to their futures.
use hypercomm.Base.{
  ℕ, ◌<◌, ◌≡◌, refl, sym, ◌∙◌, true, false, List, [], ◌∷◌, ◌++◌, Option, none, some, arith, length,
  null, get_elem?, get_elem?-index_of, index_of, contains, Eq, ◌==◌, ==_sound, ==_refl, Bool-cases,
  List-cases, inl, inr, append_assoc, append-nil, if◌then◌else◌, subst, ap,
}
use hypercomm.Futures.{
  Waiter, Ports, new_waiter, is_resumed, resume_with, wait, send_any, send_all, queued_for,
  others_than, request_future, request_loop, arrive, arrive_all, wait_any,
}

index_of-lt :
    {F : Type 0} ⦃e : Eq F⦄ (f : F) (fs : List F) → contains f fs ≡ true → index_of f fs < length fs
index_of-lt f [] h = cc
index_of-lt ⦃e = e⦄ f (g ∷ fs) h =
    ground (arith, e.equal_iff f g, e.equal_iff g f, index_of-lt f fs)

module _ {F V : Type 0} where
  -- A waiter that has its value sends the others back, in their order.
  send_all_late :
      (values : List (F × V)) (value : F × V) (awakened : ℕ) (returned : List (F × V))
      → send_all values
          (record { result = some value; sleeps = false; awakened = awakened; returned = returned })
        ≡ record {
          result = some value;
          sleeps = false;
          awakened = awakened;
          returned = returned ++ values;
        }
  unfolding send_all send_any is_resumed
  send_all_late [] value awakened returned = rw (append-nil returned) refl
  send_all_late (v ∷ values) value awakened returned =
      send_all_late values value awakened (returned ++ v ∷ [])
      ∙ rw (append_assoc returned (v ∷ []) values) refl

module _ {F : Type 0} ⦃e : Eq F⦄ where
  -- The futures are not among some others, and none of them is repeated.
  abbrev pub IsFresh : List F → List F → Type 0
  IsFresh others [] = Unit
  IsFresh others (f ∷ fs) = (contains f others ≡ false) × IsFresh (others ++ f ∷ []) fs

module _ {F V : Type 0} ⦃e : Eq F⦄ where
  -- The futures up to the first one that is ready, whose ports are open for the thread then.
  unfoldable pub asked : List (F × V) → List F → List F
  asked waiting [] = []
  asked waiting (f ∷ fs) = if null (queued_for f waiting) then f ∷ asked waiting fs else f ∷ []

  -- The values that wait for that one, and those that wait afterwards.
  unfoldable pub ready_values : List (F × V) → List F → List (F × V)
  ready_values waiting [] = []
  ready_values waiting (f ∷ fs) =
      if null (queued_for f waiting) then ready_values waiting fs else queued_for f waiting

  unfoldable pub left_waiting : List (F × V) → List F → List (F × V)
  left_waiting waiting [] = waiting
  left_waiting waiting (f ∷ fs) =
      if null (queued_for f waiting) then left_waiting waiting fs else others_than f waiting

  -- Of the values that arrive, those for open ports, and the others.
  unfoldable pub reaching : List F → List (F × V) → List (F × V)
  reaching opened [] = []
  reaching opened ((f, v) ∷ values) =
      if contains f opened then (f, v) ∷ reaching opened values else reaching opened values

  unfoldable pub missing : List F → List (F × V) → List (F × V)
  missing opened [] = []
  missing opened ((f, v) ∷ values) =
      if contains f opened then missing opened values else (f, v) ∷ missing opened values

  -- The values in the order in which they reach the thread, and those that wait in the end.
  abbrev pub values_of : List (F × V) → List F → List (F × V) → List (F × V)
  values_of available futures arrivals =
      ready_values available futures ++ reaching (asked available futures) arrivals

  abbrev pub left_over : List (F × V) → List F → List (F × V) → List (F × V)
  left_over available futures arrivals =
      left_waiting available futures ++ missing (asked available futures) arrivals

  request_loop-asked :
      (waiting : List (F × V)) (opened fs : List F) (w : Waiter F V)
      → IsFresh opened fs
      → request_loop fs (record { waiting = waiting; opened = opened }) w
        ≡ some (
          record { waiting = left_waiting waiting fs; opened = opened ++ asked waiting fs },
          send_all (ready_values waiting fs) w,
        )
  unfolding request_loop request_future ready_values asked left_waiting send_all
  request_loop-asked waiting opened [] w h = rw (append-nil opened) refl
  request_loop-asked waiting opened (f ∷ fs) w h = elim (List-cases (queued_for f waiting)) [
    | inr (value, values, n) ↦
        rw (request_loop, request_future, ready_values, asked, left_waiting, h.0, n) refl
    | inl n ↦
        rw (request_loop, request_future, ready_values, asked, left_waiting, h.0, n)
          (request_loop-asked waiting (opened ++ f ∷ []) fs w h.1
            ∙ ap
                (λ l. some (
                  record { waiting = left_waiting waiting fs; opened = l },
                  send_all (ready_values waiting fs) w,
                ))
                (append_assoc opened (f ∷ []) (asked waiting fs)))
  ]

  arrive_all-reaching :
      (arrivals waiting : List (F × V)) (opened : List F) (w : Waiter F V)
      → arrive_all arrivals (record { waiting = waiting; opened = opened }, w) ≡ (
        record { waiting = waiting ++ missing opened arrivals; opened = opened },
        send_all (reaching opened arrivals) w,
      )
  unfolding arrive_all arrive reaching missing send_all
  arrive_all-reaching [] waiting opened w = rw (append-nil waiting) refl
  arrive_all-reaching ((f, v) ∷ values) waiting opened w = elim (Bool-cases (contains f opened)) [
    | inl h ↦
        rw (arrive_all, arrive, reaching, missing, h)
          (arrive_all-reaching values waiting opened (send_any (f, v) w))
    | inr h ↦
        rw (arrive_all, arrive, reaching, missing, h)
          (arrive_all-reaching values (waiting ++ (f, v) ∷ []) opened w
            ∙ rw (append_assoc waiting ((f, v) ∷ []) (missing opened values)) refl)
  ]

  -- The values that reach the thread are for its futures.
  queued_for-future :
      (g : F) (waiting : List (F × V)) (f : F) (v : V) (rest : List (F × V))
      → queued_for g waiting ≡ (f, v) ∷ rest
      → f ≡ g
  unfolding queued_for
  queued_for-future g [] f v rest h = cc
  queued_for-future g ((k, u) ∷ waiting) f v rest h = elim (Bool-cases (k == g)) [
    | inl n ↦
        let came : (k, u) ∷ queued_for g waiting ≡ (f, v) ∷ rest = rw (queued_for, n) at h in
        let same : k ≡ f = cc in sym same ∙ ==_sound k g n
    | inr n ↦ queued_for-future g waiting f v rest (rw (queued_for, n) at h)
  ]

  ready_values-contains :
      (waiting : List (F × V)) (fs : List F) (f : F) (v : V) (rest : List (F × V))
      → ready_values waiting fs ≡ (f, v) ∷ rest
      → contains f fs ≡ true
  unfolding ready_values
  ready_values-contains waiting [] f v rest h = cc
  ready_values-contains waiting (g ∷ fs) f v rest h =
      elim (Bool-cases (null (queued_for g waiting))) [
        | inr n ↦
            let same = queued_for-future g waiting f v rest (rw (ready_values, n) at h) in
            subst (λ x. contains f (x ∷ fs) ≡ true) same (rw (==_refl f) refl)
        | inl n ↦
            let later = ready_values-contains waiting fs f v rest (rw (ready_values, n) at h) in
            ground arith
      ]

  reaching-contains :
      (opened : List F) (values : List (F × V)) (f : F) (v : V) (rest : List (F × V))
      → reaching opened values ≡ (f, v) ∷ rest
      → contains f opened ≡ true
  unfolding reaching
  reaching-contains opened [] f v rest h = cc
  reaching-contains opened ((g, u) ∷ values) f v rest h = elim (Bool-cases (contains g opened)) [
    | inl n ↦
        let came : (g, u) ∷ reaching opened values ≡ (f, v) ∷ rest = rw (reaching, n) at h in
        let same : g ≡ f = cc in subst (λ x. contains x opened ≡ true) same n
    | inr n ↦ reaching-contains opened values f v rest (rw (reaching, n) at h)
  ]

  asked-contains :
      (waiting : List (F × V)) (fs : List F) (f : F)
      → contains f (asked waiting fs) ≡ true
      → contains f fs ≡ true
  unfolding asked
  asked-contains waiting [] f h = h
  asked-contains waiting (g ∷ fs) f h = ground (arith, asked-contains waiting fs f)

  -- What the waiter is when a first value and then others have reached it.
  abbrev served : ℕ → F × V → List (F × V) → Waiter F V
  served awakened value rest = record {
    result = some value;
    sleeps = false;
    awakened = awakened;
    returned = rest;
  }

  -- What the wait gives, by the values that reach the thread: it sleeps on without any; else it has
  -- the first, with the position of its future, and the others go back in their order.
  abbrev pub Gives : List F → List (F × V) → Option (V × ℕ) → Waiter F V → Type 0
  Gives futures [] result w = (result ≡ none) × (w.sleeps ≡ true) × (w.returned ≡ [])
  Gives futures ((f, v) ∷ rest) result w =
      (result ≡ some (v, index_of f futures))
      × (get_elem? futures (index_of f futures) ≡ some f)
      × (w.sleeps ≡ false)
      × (w.returned ≡ rest)

  abbrev named : List F → Option (F × V) → Option (V × ℕ)
  named futures none = none
  named futures (some (f, v)) = some (v, index_of f futures)

  ready-Gives :
      (futures : List F) (f : F) (v : V) (rest values : List (F × V))
      → contains f futures ≡ true
      → (let w : Waiter F V = send_all values (served 0 (f, v) rest) in
          Gives futures ((f, v) ∷ rest ++ values) (named futures w.result) w)
  ready-Gives futures f v rest values has =
      rw (send_all_late values (f, v) 0 rest)
        (refl, get_elem?-index_of f futures (index_of-lt f futures has), refl, refl)

  asleep-Gives :
      (futures : List F) (values : List (F × V))
      → ((f : F) (v : V) (rest : List (F × V)) → values ≡ (f, v) ∷ rest → contains f futures ≡ true)
      → (let w : Waiter F V = send_all values (record new_waiter { sleeps = true }) in
          Gives futures values (named futures w.result) w)
  unfolding send_all send_any is_resumed resume_with
  asleep-Gives futures [] has = (refl, refl, refl)
  asleep-Gives futures ((f, v) ∷ values) has =
      rw (send_all_late values (f, v) 1 []) (
        refl,
        get_elem?-index_of f futures (index_of-lt f futures (has f v values refl)),
        refl,
        refl,
      )

  -- A thread waits for futures of which none is repeated and whose ports are closed, with values that
  -- wait in ports and values that arrive. The ports are opened without an abort, up to the first
  -- future that is ready. What reaches the thread are the values that wait for that future, if there
  -- is one, and then those that arrive for one of the futures up to it; all other values wait in
  -- their ports, in order. If nothing reaches it, the thread sleeps on. Else it runs with the first
  -- of these values and the position of its future, and the other ones are sent back to their
  -- futures, in their order.
  pub wait_any-values_of :
      (available : List (F × V)) (futures : List F) (arrivals : List (F × V))
      → IsFresh [] futures
      → (result : Option (V × ℕ)) × (ports : Ports F V) × (w : Waiter F V) × (wait_any available
            futures arrivals
          ≡ some (result, ports, w))
        × (ports.waiting ≡ left_over available futures arrivals)
        × Gives futures (values_of available futures arrivals) result w
  unfolding wait_any wait is_resumed send_any resume_with send_all
  wait_any-values_of available futures arrivals fresh =
      let opened = asked available futures in
      let came = reaching opened arrivals in
      let loop = request_loop-asked available [] futures new_waiter fresh in
      let after : Ports F V = record {
        waiting = left_over available futures arrivals;
        opened = opened;
      } in
      let arrived = λ (w : Waiter F V).
        arrive_all-reaching arrivals (left_waiting available futures) opened w in
      elim (List-cases (ready_values available futures)) [
        | inl n ↦
            let w : Waiter F V = send_all came (record new_waiter { sleeps = true }) in
            (
              named futures w.result,
              after,
              w,
              rw (wait_any, loop, n) (rw (arrived (record new_waiter { sleeps = true })) refl),
              refl,
              rw n (
                  asleep-Gives futures came (λ f v rest h.
                    asked-contains available futures f
                      (reaching-contains opened arrivals f v rest h))),
            )
        | inr ((f, v), rest, n) ↦
            let late = send_all_late rest (f, v) 0 [] in
            let w : Waiter F V = send_all came (served 0 (f, v) rest) in
            (
              named futures w.result,
              after,
              w,
              rw (wait_any, loop, n) (rw late (rw (arrived (served 0 (f, v) rest)) refl)),
              refl,
              rw n (
                  ready-Gives futures f v rest came
                    (ready_values-contains available futures f v rest n)),
            )
      ]
