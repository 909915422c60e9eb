-- ===== src/Mailbox/Consistent.antt =====
-- What a mailbox of include/hypercomm/components/mailbox.hpp keeps between calls.
use hypercomm.Base.{
  ℕ, zero, suc, ◌+◌, ◌<◌, ◌≡◌, refl, ap, sym, subst, ◌⊎◌, inl, inr, Bool, true, false, List, [],
  ◌∷◌, ◌++◌, Option, none, some, arith, length, get_elem?, erase_idx, length-erase_idx, All,
  All-append, All-erase_idx, Option-cases, length-append,
}
use hypercomm.Mailbox.{
  Target, callback, Request, Mailbox, Surroundings, accepts, matches, find_in_buffer, find_matching,
  put_request, action_loop, action,
}

module _ {E Q K V : Type 0} (sur : Surroundings E Q K V) where
  -- No waiting request matches a buffered value, and the counters account for the buffer.
  pub record IsConsistent (mb : Mailbox Q K V) : Type 0 where
    pub unmatched : All (λ r. All (λ v. matches sur r v ≡ false) mb.buffer) mb.requests
    pub balanced : mb.created ≡ mb.processed + length mb.buffer

  find_in_buffer-none :
      (q : Option Q) (vs : List V)
      → find_in_buffer sur q vs ≡ none
      → All (λ v. accepts sur q v ≡ false) vs
  unfolding find_in_buffer
  find_in_buffer-none q [] h = tt
  find_in_buffer-none q (v ∷ vs) h = (ground arith, find_in_buffer-none q vs (ground arith))

  -- The value found is the first that fits: its place in the buffer.
  find_in_buffer-splits :
      (q : Option Q) (vs : List V) (k : ℕ)
      → find_in_buffer sur q vs ≡ some k
      → (before : List V) × (v : V) × (after : List V) × (get_elem? vs k ≡ some v)
        × (vs ≡ before ++ v ∷ after)
        × (erase_idx vs k ≡ before ++ after)
        × All (λ w. accepts sur q w ≡ false) before
        × (accepts sur q v ≡ true)
  unfolding find_in_buffer
  find_in_buffer-splits q [] k h = cc
  find_in_buffer-splits q (v ∷ vs) zero h = ([], v, vs, refl, refl, refl, tt, ground arith)
  find_in_buffer-splits q (v ∷ vs) (suc k) h =
      let (before, w, after, at_k, whole, rest, skipped, fit) =
        find_in_buffer-splits q vs k (ground arith) in
      (v ∷ before, w, after, at_k, rw whole refl, rw rest refl, (ground arith, skipped), fit)

  find_matching-none :
      (rs : List (Request Q K)) (v : V)
      → find_matching sur rs v ≡ none
      → All (λ r. matches sur r v ≡ false) rs
  unfolding find_matching
  find_matching-none [] v h = tt
  find_matching-none (r ∷ rs) v h = elim (Option-cases (find_matching sur rs v)) [
    | inl out ↦ (ground arith, find_matching-none rs v out)
    | inr (k, f) ↦ absurd (ground arith)
  ]

  -- The request found is the oldest that matches: its place among the requests.
  find_matching-splits :
      (rs : List (Request Q K)) (v : V) (k : ℕ)
      → find_matching sur rs v ≡ some k
      → (newer : List (Request Q K)) × (r : Request Q K) × (older : List (Request Q K)) × (get_elem?
            rs k
          ≡ some r)
        × (rs ≡ newer ++ r ∷ older)
        × (erase_idx rs k ≡ newer ++ older)
        × (matches sur r v ≡ true)
        × All (λ s. matches sur s v ≡ false) older
  unfolding find_matching
  find_matching-splits [] v k h = cc
  find_matching-splits (r ∷ rs) v zero h = elim (Option-cases (find_matching sur rs v)) [
    | inl out ↦ ([], r, rs, refl, refl, refl, ground arith, find_matching-none rs v out)
    | inr (j, f) ↦ absurd (ground arith)
  ]
  find_matching-splits (r ∷ rs) v (suc k) h =
      let (newer, s, older, at_k, whole, rest, fit, skipped) =
        find_matching-splits rs v k (ground arith) in
      (r ∷ newer, s, older, at_k, ap (λ l. r ∷ l) whole, ap (λ l. r ∷ l) rest, fit, skipped)

  unmatched-append :
      (rs : List (Request Q K)) (vs : List V) (v : V)
      → All (λ r. All (λ w. matches sur r w ≡ false) vs) rs
      → All (λ r. matches sur r v ≡ false) rs
      → All (λ r. All (λ w. matches sur r w ≡ false) (vs ++ v ∷ [])) rs
  unmatched-append [] vs v u h = tt
  unmatched-append (r ∷ rs) vs v u h = (
    All-append (λ w. matches sur r w ≡ false) vs (v ∷ []) u.0 (h.0, tt),
    unmatched-append rs vs v u.1 h.1,
  )

  unmatched-erase_idx :
      (rs : List (Request Q K)) (vs : List V) (k : ℕ)
      → All (λ r. All (λ w. matches sur r w ≡ false) vs) rs
      → All (λ r. All (λ w. matches sur r w ≡ false) (erase_idx vs k)) rs
  unmatched-erase_idx [] vs k u = tt
  unmatched-erase_idx (r ∷ rs) vs k u =
      (All-erase_idx (λ w. matches sur r w ≡ false) vs k u.0, unmatched-erase_idx rs vs k u.1)

  -- A value is offered to the requests that it matches, the oldest first, each of which is removed
  -- then, until one takes it (`true`), or no request matches it any more (`false`). The lists are
  -- the requests before and after.
  pub data Offered (v : V) : List (Request Q K) → E → List (Request Q K) → E → Bool → Type 0 where
    accepted :
        (newer older : List (Request Q K)) (r : Request Q K) {env env' : E}
        → matches sur r v ≡ true
        → All (λ s. matches sur s v ≡ false) older
        → sur.passthru r.dst v env ≡ (true, env')
        → Offered v (newer ++ r ∷ older) env (newer ++ older) env' true
    declined :
        (newer older : List (Request Q K)) (r : Request Q K) {env env1 env' : E}
        {rs' : List (Request Q K)} {b : Bool}
        → matches sur r v ≡ true
        → All (λ s. matches sur s v ≡ false) older
        → sur.passthru r.dst v env ≡ (false, env1)
        → Offered v (newer ++ older) env1 rs' env' b
        → Offered v (newer ++ r ∷ older) env rs' env' b
    unclaimed :
        (rs : List (Request Q K)) {env : E}
        → All (λ s. matches sur s v ≡ false) rs
        → Offered v rs env rs env false

  -- Where a value ends: a waiting request that it matches has taken it and the buffer is as before,
  -- or no request is left that it matches, and it is last in the buffer.
  abbrev pub Ends : Mailbox Q K V → V → E → Mailbox Q K V × E → Type 0
  Ends mb v env (mb', env') =
      (Offered v mb.requests env mb'.requests env' true
        × (mb'.buffer ≡ mb.buffer)
        × (mb'.created ≡ mb.created)
        × (mb'.processed ≡ mb.processed))
      ⊎ (Offered v mb.requests env mb'.requests env' false
          × (mb'.buffer ≡ mb.buffer ++ v ∷ [])
          × (mb'.created ≡ mb.created + 1)
          × (mb'.processed ≡ mb.processed))

  buffered-IsConsistent :
      (mb : Mailbox Q K V) (v : V)
      → IsConsistent mb
      → find_matching sur mb.requests v ≡ none
      → IsConsistent (record mb { buffer = mb.buffer ++ v ∷ []; created = mb.created + 1 })
  buffered-IsConsistent mb v c f = record {
    unmatched =
        unmatched-append mb.requests mb.buffer v c.unmatched (find_matching-none mb.requests v f);
    balanced = omega (arith, c.balanced, length-append mb.buffer (v ∷ []));
  }

  removed-IsConsistent :
      (mb : Mailbox Q K V) (k : ℕ)
      → IsConsistent mb
      → IsConsistent (record mb { requests = erase_idx mb.requests k })
  removed-IsConsistent mb k c = record {
    unmatched =
        All-erase_idx (λ r. All (λ v. matches sur r v ≡ false) mb.buffer) mb.requests k c.unmatched;
    balanced = c.balanced;
  }

  -- What the run of `action` shows.
  abbrev Acts : Mailbox Q K V → V → E → Mailbox Q K V × E → Type 0
  Acts mb v env out = IsConsistent out.0 × Ends mb v env out

  -- The request found is removed and offered the value.
  offer :
      (mb : Mailbox Q K V) (v : V) (newer older rs' : List (Request Q K)) (r : Request Q K)
      (env : E) (out : Bool × E) (again : E → Mailbox Q K V × E)
      → mb.requests ≡ newer ++ r ∷ older
      → rs' ≡ newer ++ older
      → matches sur r v ≡ true
      → All (λ s. matches sur s v ≡ false) older
      → sur.passthru r.dst v env ≡ out
      → IsConsistent (record mb { requests = rs' })
      → ((e : E) → Acts (record mb { requests = rs' }) v e (again e))
      → Acts mb v env
          (elim out.0 [ true ↦ (record mb { requests = rs' }, out.1) | false ↦ again out.1 ])
  offer mb v newer older rs' r env (true, env') again whole cut fit skipped h c rest = (
    c,
    inl (
      subst (λ l. Offered v l env rs' env' true) (sym whole)
          (subst (λ l. Offered v (newer ++ r ∷ older) env l env' true) (sym cut)
            (accepted newer older r fit skipped h)),
      refl,
      refl,
      refl,
    ),
  )
  offer mb v newer older rs' r env (false, env') again whole cut fit skipped h c rest = (
    (rest env').0,
    elim (rest env').1 [
      | inl (took, b, c, p) ↦ inl (first (again env').0.requests (again env').1 true took, b, c, p)
      | inr (left, b, c, p) ↦ inr (first (again env').0.requests (again env').1 false left, b, c, p)
    ],
  )
    where
      first :
          (last : List (Request Q K)) (e : E) (b : Bool)
          → Offered v rs' env' last e b
          → Offered v mb.requests env last e b
      first last e b then =
          subst (λ l. Offered v l env last e b) (sym whole)
            (declined newer older r fit skipped h (subst (λ l. Offered v l env' last e b) cut then))

  action_loop-Acts :
      (fuel : ℕ) (mb : Mailbox Q K V) (v : V) (env : E)
      → length mb.requests < fuel
      → IsConsistent mb
      → Acts mb v env (action_loop sur fuel mb v env)
  unfolding action_loop
  action_loop-Acts zero mb v env h c = absurd (omega arith)
  action_loop-Acts (suc fuel) mb v env h c = elim (Option-cases (find_matching sur mb.requests v)) [
    | inl f ↦
        rw (action_loop, f)
          (
            buffered-IsConsistent mb v c f,
            inr (unclaimed mb.requests (find_matching-none mb.requests v f), refl, refl, refl),
          )
    | inr (k, f) ↦
        let (newer, r, older, g, whole, cut, fit, skipped) =
          find_matching-splits mb.requests v k f in
        serve k newer r older f g whole cut fit skipped
          (λ m e lt c'. action_loop-Acts fuel m v e lt c')
  ]
    where
      serve :
          (k : ℕ) (newer : List (Request Q K)) (r : Request Q K) (older : List (Request Q K))
          → find_matching sur mb.requests v ≡ some k
          → get_elem? mb.requests k ≡ some r
          → mb.requests ≡ newer ++ r ∷ older
          → erase_idx mb.requests k ≡ newer ++ older
          → matches sur r v ≡ true
          → All (λ s. matches sur s v ≡ false) older
          → ((m : Mailbox Q K V) (e : E)
              → length m.requests < fuel
              → IsConsistent m
              → Acts m v e (action_loop sur fuel m v e))
          → Acts mb v env (action_loop sur (suc fuel) mb v env)
      serve k newer r older f g whole cut fit skipped rest =
          let mb' : Mailbox Q K V = record mb { requests = erase_idx mb.requests k } in
          rw (action_loop, f)
            (rw g (
              offer mb v newer older (erase_idx mb.requests k) r env (sur.passthru r.dst v env)
                (λ e. action_loop sur fuel mb' v e) whole cut fit skipped refl
                (removed-IsConsistent mb k c)
                (λ e.
                  rest mb' e (omega (arith, h, length-erase_idx mb.requests k r g))
                    (removed-IsConsistent mb k c))))

  -- A value that arrives at a mailbox whose waiting requests match none of its buffered values is
  -- offered to the waiting requests that it matches, the oldest first, each removed as the value is
  -- sent to its destination, until one takes the value, and the buffer stays as it is; or all of
  -- them decline, and the value is put last into the buffer and counted as created. Again no
  -- request matches a buffered value, and the counters account for the buffer.
  pub action_settles :
      (mb : Mailbox Q K V) (v : V) (env : E)
      → IsConsistent mb
      → IsConsistent (action sur mb v env).0 × Ends mb v env (action sur mb v env)
  unfolding action
  action_settles mb v env c = action_loop-Acts _ mb v env (omega arith) c

  posted-IsConsistent :
      (mb : Mailbox Q K V) (q : Option Q) (t : Target K)
      → IsConsistent mb
      → find_in_buffer sur q mb.buffer ≡ none
      → IsConsistent (record mb { requests = record { pred = q; dst = t } ∷ mb.requests })
  posted-IsConsistent mb q t c f = record {
    unmatched = (find_in_buffer-none q mb.buffer f, c.unmatched);
    balanced = c.balanced;
  }

  taken-IsConsistent :
      (mb : Mailbox Q K V) (k : ℕ) (v : V)
      → IsConsistent mb
      → get_elem? mb.buffer k ≡ some v
      → IsConsistent (record mb { buffer = erase_idx mb.buffer k; processed = mb.processed + 1 })
  taken-IsConsistent mb k v c g = record {
    unmatched = unmatched-erase_idx mb.requests mb.buffer k c.unmatched;
    balanced = omega (arith, c.balanced, length-erase_idx mb.buffer k v g);
  }

  -- The request waits, the newest of all, if it matches no buffered value; else the first value
  -- that it matches is sent to its callback, leaves the buffer and is counted as processed.
  abbrev pub Answers : Mailbox Q K V → Option Q → K → E → Mailbox Q K V × E → Type 0
  Answers mb q cb env (mb', env') =
      (All (λ v. accepts sur q v ≡ false) mb.buffer
        × (env' ≡ env)
        × (mb' ≡ record mb { requests = record { pred = q; dst = callback cb } ∷ mb.requests }))
      ⊎ ((before : List V) × (v : V) × (after : List V) × (mb.buffer ≡ before ++ v ∷ after)
          × All (λ w. accepts sur q w ≡ false) before
          × (accepts sur q v ≡ true)
          × (env' ≡ sur.send cb v env)
          × (mb' ≡ record mb { buffer = before ++ after; processed = mb.processed + 1 }))

  -- A request to a mailbox whose waiting requests match none of its buffered values is answered
  -- with the first buffered value that it matches: that value alone is sent to its callback, leaves
  -- the buffer and is counted as processed. If there is none, the request itself waits, the newest
  -- of all. Nothing else changes. Again no request matches a buffered value, and the counters
  -- account for the buffer.
  pub put_request_settles :
      (mb : Mailbox Q K V) (q : Option Q) (cb : K) (env : E)
      → IsConsistent mb
      → IsConsistent (put_request sur mb q cb env).0
        × Answers mb q cb env (put_request sur mb q cb env)
  unfolding put_request
  put_request_settles mb q cb env c = elim (Option-cases (find_in_buffer sur q mb.buffer)) [
    | inl f ↦
        rw (put_request, f)
          (
            posted-IsConsistent mb q (callback cb) c f,
            inl (find_in_buffer-none q mb.buffer f, refl, refl),
          )
    | inr (k, f) ↦
        let (before, v, after, g, whole, cut, skipped, fit) =
          find_in_buffer-splits q mb.buffer k f in
        answered k before v after f g whole cut skipped fit
  ]
    where
      answered :
          (k : ℕ) (before : List V) (v : V) (after : List V)
          → find_in_buffer sur q mb.buffer ≡ some k
          → get_elem? mb.buffer k ≡ some v
          → mb.buffer ≡ before ++ v ∷ after
          → erase_idx mb.buffer k ≡ before ++ after
          → All (λ w. accepts sur q w ≡ false) before
          → accepts sur q v ≡ true
          → IsConsistent (put_request sur mb q cb env).0
            × Answers mb q cb env (put_request sur mb q cb env)
      answered k before v after f g whole cut skipped fit =
          rw (put_request, f)
            (rw g (
              taken-IsConsistent mb k v c g,
              inr (
                before,
                v,
                after,
                whole,
                skipped,
                fit,
                refl,
                ap (λ vs. record mb { buffer = vs; processed = mb.processed + 1 }) cut,
              ),
            ))
