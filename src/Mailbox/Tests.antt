-- ===== src/Mailbox/Tests.antt =====
-- A mailbox of numbers whose predicates ask for a number above a bound; the destinations take
-- values up to nine.
use hypercomm.Base.{ℕ, refl, List, [], ◌∷◌, ◌++◌, some, ltb}
use hypercomm.Mailbox.{callback, Mailbox, Surroundings, action, put_request}
use hypercomm.Mailbox.Consistent.{IsConsistent, Ends, Answers, action_settles, put_request_settles}

abbrev sur : Surroundings (List ℕ) ℕ ℕ ℕ
sur = record {
  test = λ q v. ltb q v;
  send = λ k v env. env ++ v ∷ [];
  passthru = λ t v env. (ltb v 10, env ++ v ∷ []);
}

abbrev waiting : Mailbox ℕ ℕ ℕ
waiting = record {
  requests =
      record { pred = some 9; dst = callback 1 } ∷ record { pred = some 5; dst = callback 2 } ∷ [];
  buffer = 2 ∷ 4 ∷ [];
  created = 3;
  processed = 1;
}

waiting-IsConsistent : IsConsistent sur waiting
waiting-IsConsistent = record {
  unmatched = ((refl, (refl, tt)), ((refl, (refl, tt)), tt));
  balanced = refl;
}

action_settles_example :
    IsConsistent sur (action sur waiting 7 []).0 × Ends sur waiting 7 [] (action sur waiting 7 [])
action_settles_example = action_settles sur waiting 7 [] waiting-IsConsistent

put_request_settles_example :
    IsConsistent sur (put_request sur waiting (some 3) 8 []).0
    × Answers sur waiting (some 3) 8 [] (put_request sur waiting (some 3) 8 [])
put_request_settles_example = put_request_settles sur waiting (some 3) 8 [] waiting-IsConsistent
