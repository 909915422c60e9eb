-- ===== src/StateServer/Tests.antt =====
-- Two components, the first of which subscribes twice before there is a state, and the second takes
-- the only one. The first is destroyed when it is told, and is not told again.
use hypercomm.Base.{
  ℕ, ◌<◌, ◌≤◌, Bool, ◌≡◌, refl, true, false, [], ◌∷◌, count, arith, nat_eq, lookup, insert, erase,
}
use hypercomm.StateServer.{
  StateServer, new_server, put_state, done_inserting, acquire_state, check_status, notified,
  erase_first,
}
use hypercomm.StateServer.Ends.{
  Reach, here, next, subscribe, put, take, finish, subscriptions, done-told,
}

abbrev destroys : ℕ → Bool
destroys x = true

abbrev subscribed : StateServer ℕ ℕ
subscribed = record {
  subscribers = 1 ∷ 2 ∷ 1 ∷ [];
  avail = [];
  is_inserting = false;
  continuations = [];
  told = [];
}

abbrev inserted : StateServer ℕ ℕ
inserted = record subscribed { avail = (8, 80) ∷ []; is_inserting = true }

abbrev closed : StateServer ℕ ℕ
closed = record inserted { is_inserting = false }

abbrev ended : StateServer ℕ ℕ
ended = record subscribed { subscribers = []; told = 1 ∷ [] }

abbrev subscribing : Reach destroys new_server subscribed
subscribing =
    next
      (next (next here (subscribe 1 new_server))
        (subscribe 2 (record new_server { subscribers = 1 ∷ [] })))
      (subscribe 1 (record new_server { subscribers = 1 ∷ 2 ∷ [] }))

abbrev course : Reach destroys new_server ended
unfolding put_state done_inserting acquire_state check_status notified erase_first lookup insert
    erase
course =
    next (next (next subscribing (put 8 80 subscribed refl)) (finish inserted))
      (take 2 8 closed {val = 80} refl)

done-told_example :
    (ended.subscribers ≡ [])
    × (0 < count 1 ended.told)
    × (count 1 ended.told ≤ subscriptions destroys 1 course)
unfolding course check_status notified erase_first
done-told_example =
    done-told destroys 1 course (omega arith) (omega arith, tt) (omega arith)
      (2, record closed { avail = [] }, refl) refl
