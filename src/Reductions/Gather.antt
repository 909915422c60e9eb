-- ===== src/Reductions/Gather.antt =====
-- What a reduction of include/hypercomm/reductions combines.
use hypercomm.Base.{
  ℕ, suc, ◌+◌, ◌<◌, ◌≡◌, refl, ap, ◌∙◌, true, false, List, [], ◌∷◌, ◌++◌, append_assoc, append-nil,
  Option, none, some, arith, length, length-append, ltb, lt→ltb, if_true, if_false,
}
use hypercomm.Reductions.{
  Contribution, Reducer, suspended, reduced, new_reducer, Found, keep_first, push, visit, visit_all,
  finish, stored, action, feed,
}

abbrev pub ahead_of : {M : Type 0} → Option M → List M → List M
ahead_of none msgs = msgs
ahead_of (some msg) msgs = msg ∷ msgs

push_lem :
    {M : Type 0} (args : List M) (m : Option M) (rest : List M)
    → push args m ++ rest ≡ args ++ ahead_of m rest
push_lem args none rest = refl
push_lem args (some msg) rest = append_assoc args (msg ∷ []) rest

-- The contributions' messages that are not null, in order.
abbrev pub messages : {M C K : Type 0} → List (Option (Contribution M C K)) → List M
messages [] = []
messages (none ∷ devs) = messages devs
messages (some c ∷ devs) = ahead_of c.msg (messages devs)

-- The first of a field that is not null.
abbrev pub first_of : {A B : Type 0} → (A → Option B) → List (Option A) → Option B
first_of f [] = none
first_of f (none ∷ devs) = first_of f devs
first_of f (some c ∷ devs) = keep_first (f c) (first_of f devs)

keep_first_assoc :
    {A : Type 0} (a b c : Option A) → keep_first (keep_first a b) c ≡ keep_first a (keep_first b c)
keep_first_assoc none b c = refl
keep_first_assoc (some x) b c = refl

keep_first-none : {A : Type 0} (a : Option A) → keep_first a none ≡ a
keep_first-none none = refl
keep_first-none (some x) = refl

module _ {M C K : Type 0} where
  abbrev pub summary : Found M C K → List (Option (Contribution M C K)) → Found M C K
  summary found devs = record {
    args = found.args ++ messages devs;
    our_cb = keep_first found.our_cb (first_of (λ c. c.callback) devs);
    our_cmbnr = keep_first found.our_cmbnr (first_of (λ c. c.combiner) devs);
  }

  -- The loop against its description.
  visit_all-summary :
      (found : Found M C K) (devs : List (Option (Contribution M C K)))
      → visit_all found devs ≡ summary found devs
  unfolding visit_all
  visit_all-summary found [] = simp (append-nil, keep_first-none)
  visit_all-summary found (none ∷ devs) = visit_all-summary found devs
  visit_all-summary found (some c ∷ devs) =
      visit_all-summary (visit found (some c)) devs ∙ simp (push_lem, keep_first_assoc)

  -- The contribution of all the values.
  abbrev pub total :
      (C → List M → Option M) → C → List (Option (Contribution M C K)) → Contribution M C K
  total combine cmbnr devs = record {
    msg = combine cmbnr (messages devs);
    combiner = some cmbnr;
    callback = first_of (λ c. c.callback) devs;
  }

  module _ {I : Type 0} (combine : C → List M → Option M) where
    abbrev pub waiting : Reducer I M C K → List (Option (Contribution M C K)) → Reducer I M C K
    waiting r devs = record r { devs = r.devs ++ devs; persistent = true }

    stored-waiting :
        (r : Reducer I M C K) (dev : Option (Contribution M C K))
        → length r.devs + 1 < r.n_ustream
        → stored combine r dev ≡ waiting r (dev ∷ [])
    unfolding stored
    stored-waiting r dev lt =
        let more : ltb (length (r.devs ++ dev ∷ [])) r.n_ustream ≡ true =
          lt→ltb _ _ (omega (arith, length-append r.devs (dev ∷ []))) in
        ap (λ b. record r { devs = r.devs ++ dev ∷ []; persistent = b }) more

    pub action-suspended :
        (r : Reducer I M C K) (dev : Option (Contribution M C K))
        → length r.devs + 1 < r.n_ustream
        → action combine r dev ≡ suspended (waiting r (dev ∷ []))
    unfolding action
    action-suspended r dev lt =
        let kept = stored-waiting r dev lt in
        if_true _ _ (ap (λ t. t.persistent) kept) ∙ ap suspended kept

    -- Fewer values than inputs are stored, and the reducer stays.
    pub feed-waiting :
        (r : Reducer I M C K) (devs : List (Option (Contribution M C K)))
        → r.persistent ≡ true
        → length r.devs + length devs < r.n_ustream
        → feed combine r devs ≡ some (waiting r devs)
    unfolding feed
    feed-waiting r [] h lt = ground (arith, append-nil r.devs, h)
    feed-waiting r (dev ∷ devs) h lt =
        let shorter = length-append r.devs (dev ∷ []) in
        rw (action-suspended r dev (omega arith), feed)
          (feed-waiting (waiting r (dev ∷ [])) devs refl (omega arith)
            ∙ ap (λ l. some (record r { devs = l; persistent = true }))
                (append_assoc r.devs (dev ∷ []) devs))

    finish-found :
        (r : Reducer I M C K) (found : Found M C K) (cmbnr : C)
        → found.our_cmbnr ≡ some cmbnr
        → finish combine r found
          ≡ reduced
              (record r { devs = []; combiner = some cmbnr })
              (record {
                msg = combine cmbnr found.args;
                combiner = some cmbnr;
                callback = found.our_cb;
              })
    unfolding finish
    finish-found r found cmbnr h = ground arith

    pub last_reduces :
        (r : Reducer I M C K) (last : Option (Contribution M C K)) (cmbnr : C)
        → suc (length r.devs) ≡ r.n_ustream
        → keep_first r.combiner (first_of (λ c. c.combiner) (r.devs ++ last ∷ [])) ≡ some cmbnr
        → (r' : Reducer I M C K) × (action combine r last
            ≡ reduced r' (total combine cmbnr (r.devs ++ last ∷ [])))
          × (r'.devs ≡ [])
          × (r'.persistent ≡ false)
    unfolding action stored finish
    last_reduces r last cmbnr full found =
        let done : ltb (length (r.devs ++ last ∷ [])) r.n_ustream ≡ false =
          ground (arith, length-append r.devs (last ∷ [])) in
        let all =
          visit_all-summary (record { args = []; our_cb = none; our_cmbnr = r.combiner })
            (r.devs ++ last ∷ []) in
        (
          record r { devs = []; combiner = some cmbnr; persistent = false },
          if_false _ _ done
              ∙ ap (finish combine (stored combine r last)) all
              ∙ finish-found (stored combine r last) _ cmbnr found
              ∙ ap
                  (λ b.
                    reduced (record r { devs = []; combiner = some cmbnr; persistent = b })
                      (total combine cmbnr (r.devs ++ last ∷ [])))
                  done,
          refl,
          refl,
        )

    -- A new reducer for n + 1 inputs, which has a combiner or is given one. The first n values
    -- suspend it, and the next one makes it pass on one contribution: the messages that are not
    -- null, in the order of arrival and each once, under the reducer's combiner or else the first
    -- that came, with the first callback. An invalidation counts as a value without a message. The
    -- reducer is left with no values, and is no longer persistent.
    pub reduces_once :
        (gen : I) (epoch : ℕ) (own : Option C) (devs : List (Option (Contribution M C K)))
        (last : Option (Contribution M C K)) (cmbnr : C)
        → keep_first own (first_of (λ c. c.combiner) (devs ++ last ∷ [])) ≡ some cmbnr
        → (r r' : Reducer I M C K) × (feed combine
              (new_reducer gen epoch own (suc (length devs)))
              devs
            ≡ some r)
          × (action combine r last ≡ reduced r' (total combine cmbnr (devs ++ last ∷ [])))
          × (r'.devs ≡ [])
          × (r'.persistent ≡ false)
    unfolding new_reducer
    reduces_once gen epoch own devs last cmbnr found =
        let start : Reducer I M C K = new_reducer gen epoch own (suc (length devs)) in
        let (r', runs, empty, once) = last_reduces (waiting start devs) last cmbnr refl found in
        (waiting start devs, r', feed-waiting start devs refl (omega arith), runs, empty, once)
