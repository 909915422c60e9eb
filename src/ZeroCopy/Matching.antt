-- ===== src/ZeroCopy/Matching.antt =====
-- Posted buffers meet the requests that they are large enough for.
use hypercomm.Base.{
  ℕ, ◌+◌, ◌<◌, ◌≤◌, ◌≡◌, refl, false, List, [], ◌∷◌, ◌++◌, arith, leb, All, All-append, Eq, ◌==◌,
  ==_sound, Bool-cases, Option-cases, inl, inr, lookup, lookup_or, insert, subst, sym, sum_of,
  sum_of-append, append-nil, append_assoc,
}
use hypercomm.ZeroCopy.{
  Memory, posted, registered, State, find_applicable, find_large, manual_mode, post_buffer,
  poll_outstanding, poll_buffer, save_queue, answer, request_buffer, Call, manual, post, request,
  step, run, fresh,
}
use hypercomm.ZeroCopy.Queues.{
  size_of, Roomy, Unmet, pending, request_of, IsTaken, take_first-cases, pending-insert,
  pending-emplace, lookup_or-emplace, lookup_or-left, replaced, Unmet-request, All-impl,
}

-- The requests among the calls, with their numbers of bytes.
abbrev pub requests : {E B R : Type 0} → List (Call E B R) → List (R × ℕ)
requests [] = []
requests (request ep r cnt ∷ calls) = (r, cnt) ∷ requests calls
requests (_ ∷ calls) = requests calls

module _ {E B R : Type 0} ⦃e : Eq E⦄ where
  -- What holds between two calls: `calls` lists the requests so far. By any measure, those that were
  -- started and those that wait are these requests: the same ones, each as often.
  pub record IsMatched (calls : List (R × ℕ)) (s : State E B R) : Type 0 where
    pub unmet : (ep : E) → Unmet (lookup_or ep [] s.buffers) (lookup_or ep [] s.outstanding)
    pub roomy : All Roomy s.started
    pub conserved :
        (f : R × ℕ → ℕ)
        → sum_of (λ x. f (request_of x)) s.started + pending f s.outstanding ≡ sum_of f calls
    pub counted : s.created ≡ s.processed + pending (λ r. 1) s.outstanding

  manual_mode-IsMatched :
      (calls : List (R × ℕ)) (ep : E) (s : State E B R)
      → IsMatched calls s
      → IsMatched calls (manual_mode ep s)
  unfolding manual_mode
  manual_mode-IsMatched calls ep s h = record {
    unmet = λ k. rw (lookup_or-emplace ep k s.outstanding) (h.unmet k);
    roomy = h.roomy;
    conserved = λ f. omega (arith, pending-emplace f ep s.outstanding, h.conserved f);
    counted = omega (arith, pending-emplace (λ r. 1) ep s.outstanding, h.counted);
  }

  save-IsMatched :
      (calls : List (R × ℕ)) (ep : E) (b : B) (size : ℕ) (s : State E B R)
      → IsMatched calls s
      → All (λ r. leb r.1 size ≡ false) (lookup_or ep [] s.outstanding)
      → IsMatched calls
          (record s { buffers = insert ep (lookup_or ep [] s.buffers ++ (b, size) ∷ []) s.buffers })
  save-IsMatched calls ep b size s h small = record {
    unmet = λ k.
        let rs : List (R × ℕ) = lookup_or k [] s.outstanding in
        replaced (λ bs. Unmet bs rs) ep _ s.buffers k
          (λ same.
            subst
              (λ j.
                Unmet (lookup_or ep [] s.buffers ++ (b, size) ∷ []) (lookup_or j [] s.outstanding))
              (==_sound ep k same)
              (All-append (λ b. All (λ r. b.1 < r.1) (lookup_or ep [] s.outstanding))
                (lookup_or ep [] s.buffers) ((b, size) ∷ []) (h.unmet ep)
                (All-impl _ _ (λ r k. ground arith) _ small, tt)))
          (h.unmet k);
    roomy = h.roomy;
    conserved = h.conserved;
    counted = h.counted;
  }

  serve-IsMatched :
      (calls : List (R × ℕ)) (ep : E) (b : B) (size : ℕ) (s : State E B R) (r : R × ℕ)
      (rest : List (R × ℕ))
      → IsMatched calls s
      → IsTaken (λ r. leb r.1 size) (lookup_or ep [] s.outstanding) r rest
      → IsMatched calls (record s {
        started = s.started ++ (r.0, r.1, posted b size) ∷ [];
        outstanding = insert ep rest s.outstanding;
        processed = s.processed + 1;
      })
  serve-IsMatched calls ep b size s r rest h taken = record {
    unmet = λ k.
        replaced (λ rs. Unmet (lookup_or k [] s.buffers) rs) ep rest s.outstanding k
          (λ same.
            subst (λ j. Unmet (lookup_or j [] s.buffers) rest) (==_sound ep k same)
              (All-impl _ _ (λ b all. taken.kept (λ r. b.1 < r.1) all) (lookup_or ep [] s.buffers)
                (h.unmet ep)))
          (h.unmet k);
    roomy = All-append Roomy s.started _ h.roomy (let fits = taken.passes in ground arith, tt);
    conserved = λ f.
        let one : f (r.0, r.1) ≡ f r = refl in
        omega (
          arith,
          one,
          sum_of-append (λ x. f (request_of x)) s.started ((r.0, r.1, posted b size) ∷ []),
          pending-insert f ep rest s.outstanding,
          taken.counted f,
          h.conserved f,
        );
    counted =
        omega
          (arith, pending-insert (λ r. 1) ep rest s.outstanding, taken.counted (λ r. 1), h.counted);
  }

  post_buffer-IsMatched :
      (calls : List (R × ℕ)) (ep : E) (b : B) (size : ℕ) (s : State E B R)
      → IsMatched calls s
      → IsMatched calls (post_buffer ep b size s)
  unfolding post_buffer find_applicable
  post_buffer-IsMatched calls ep b size s h = elim (Option-cases (lookup ep s.outstanding)) [
    | inl n ↦ rw (post_buffer, n) (save-IsMatched calls ep b size s h (rw (lookup_or, n) tt))
    | inr (q, n) ↦ elim (take_first-cases (λ r. leb r.1 size) q) [
      | inl (m, small) ↦
          rw (post_buffer, n, m) (save-IsMatched calls ep b size s h (rw (lookup_or, n) small))
      | inr (r, rest, m, taken) ↦
          rw (post_buffer, n, m)
            (serve-IsMatched calls ep b size s r rest h (rw (lookup_or, n) taken))
    ]
  ]

  -- A request for which no posted buffer is large enough waits.
  await-IsMatched :
      (calls : List (R × ℕ)) (ep : E) (r : R) (cnt : ℕ) (s : State E B R)
      → IsMatched calls s
      → All (λ b. leb cnt b.1 ≡ false) (lookup_or ep [] s.buffers)
      → IsMatched ((r, cnt) ∷ calls) (record s {
        outstanding = insert ep (lookup_or ep [] s.outstanding ++ (r, cnt) ∷ []) s.outstanding;
        created = s.created + 1;
      })
  await-IsMatched calls ep r cnt s h small =
      let queue : List (R × ℕ) = lookup_or ep [] s.outstanding in
      let longer = λ (f : R × ℕ → ℕ). sum_of-append f queue ((r, cnt) ∷ []) in
      let more = λ (f : R × ℕ → ℕ). pending-insert f ep (queue ++ (r, cnt) ∷ []) s.outstanding in
      record {
        unmet = λ k.
            let bs : List (B × ℕ) = lookup_or k [] s.buffers in
            replaced (λ rs. Unmet bs rs) ep _ s.outstanding k
              (λ same.
                subst
                  (λ j.
                    Unmet (lookup_or j [] s.buffers)
                      (lookup_or ep [] s.outstanding ++ (r, cnt) ∷ []))
                  (==_sound ep k same) (Unmet-request _ _ r cnt (h.unmet ep) small))
              (h.unmet k);
        roomy = h.roomy;
        conserved = λ f. omega (arith, longer f, more f, h.conserved f);
        counted = omega (arith, longer (λ r. 1), more (λ r. 1), h.counted);
      }

  -- A get that is started at once.
  start-IsMatched :
      (calls : List (R × ℕ)) (r : R) (cnt : ℕ) (memory : Memory B) (s : State E B R)
      → IsMatched calls s
      → cnt ≤ size_of memory
      → IsMatched ((r, cnt) ∷ calls) (record s { started = s.started ++ (r, cnt, memory) ∷ [] })
  start-IsMatched calls r cnt memory s h fits = record {
    unmet = h.unmet;
    roomy = All-append Roomy s.started ((r, cnt, memory) ∷ []) h.roomy (fits, tt);
    conserved = λ f. omega (
      arith,
      sum_of-append (λ x. f (request_of x)) s.started ((r, cnt, memory) ∷ []),
      h.conserved f,
    );
    counted = h.counted;
  }

  -- Taking a buffer out of its queue, which is deleted when it becomes empty.
  save_queue-IsMatched :
      (calls : List (R × ℕ)) (ep : E) (cnt : ℕ) (b : B × ℕ) (rest : List (B × ℕ)) (s : State E B R)
      → IsMatched calls s
      → IsTaken (λ b. leb cnt b.1) (lookup_or ep [] s.buffers) b rest
      → IsMatched calls (save_queue ep rest s)
  save_queue-IsMatched calls ep cnt b rest s h taken = record {
    unmet = λ k.
        rw (save_queue, lookup_or-left ep k rest s.buffers)
          (elim (Bool-cases (ep == k)) [
            | inl same ↦ rw same (
                subst (λ j. Unmet rest (lookup_or j [] s.outstanding)) (==_sound ep k same)
                  (taken.kept _ (h.unmet ep)))
            | inr other ↦ rw other (h.unmet k)
          ]);
    roomy = h.roomy;
    conserved = h.conserved;
    counted = h.counted;
  }

  poll_outstanding-IsMatched :
      (calls : List (R × ℕ)) (ep : E) (r : R) (cnt : ℕ) (s : State E B R)
      → IsMatched calls s
      → All (λ b. leb cnt b.1 ≡ false) (lookup_or ep [] s.buffers)
      → (poll_buffer ep cnt s ≡ (poll_outstanding ep cnt s, s))
      → IsMatched ((r, cnt) ∷ calls) (request_buffer ep r cnt s)
  unfolding request_buffer poll_outstanding answer
  poll_outstanding-IsMatched calls ep r cnt s h small polls =
      elim (Option-cases (lookup ep s.outstanding)) [
        | inl n ↦
            rw (request_buffer, polls, poll_outstanding, n)
              (start-IsMatched calls r cnt (registered cnt) s h (omega arith))
        | inr (q, n) ↦
            rw (request_buffer, polls, poll_outstanding, n)
              (await-IsMatched calls ep r cnt s h small)
      ]

  request_buffer-IsMatched :
      (calls : List (R × ℕ)) (ep : E) (r : R) (cnt : ℕ) (s : State E B R)
      → IsMatched calls s
      → IsMatched ((r, cnt) ∷ calls) (request_buffer ep r cnt s)
  unfolding request_buffer poll_buffer find_large answer
  request_buffer-IsMatched calls ep r cnt s h = elim (Option-cases (lookup ep s.buffers)) [
    | inl n ↦
        poll_outstanding-IsMatched calls ep r cnt s h (rw (lookup_or, n) tt)
          (rw (poll_buffer, n) refl)
    | inr (q, n) ↦ elim (take_first-cases (λ b. leb cnt b.1) q) [
      | inl (m, small) ↦
          poll_outstanding-IsMatched calls ep r cnt s h (rw (lookup_or, n) small)
            (rw (poll_buffer, n, m) refl)
      | inr (b, rest, m, taken) ↦
          rw (request_buffer, poll_buffer, n, m)
            (start-IsMatched calls r cnt (posted b.0 b.1) (save_queue ep rest s)
              (save_queue-IsMatched calls ep cnt b rest s h (rw (lookup_or, n) taken))
              (let fits = taken.passes in ground arith))
    ]
  ]

  pub fresh-IsMatched : IsMatched [] fresh
  unfolding pending lookup
  fresh-IsMatched = record { unmet = λ ep. tt; roomy = tt; conserved = λ f. refl; counted = refl }

  IsMatched-last :
      (given : List (R × ℕ)) (r : R × ℕ) (s : State E B R)
      → IsMatched (r ∷ given) s
      → IsMatched (given ++ r ∷ []) s
  IsMatched-last given r s h = record {
    unmet = h.unmet;
    roomy = h.roomy;
    conserved = λ f. omega (arith, sum_of-append f given (r ∷ []), h.conserved f);
    counted = h.counted;
  }

  -- Any calls in any order, from a state in which this holds: each get that was started has memory
  -- for all its bytes; the requests that were started and those that wait are together the requests
  -- that were made, none lost, repeated or changed; no request waits while a posted buffer of its
  -- endpoint is large enough for it; and the counts of quiescence detection differ by the number of
  -- the requests that wait.
  pub run-IsMatched :
      (calls : List (Call E B R)) (given : List (R × ℕ)) (s : State E B R)
      → IsMatched given s
      → IsMatched (given ++ requests calls) (run calls s)
  unfolding run step
  run-IsMatched [] given s h = subst (λ c. IsMatched c s) (sym (append-nil given)) h
  run-IsMatched (manual ep ∷ calls) given s h =
      run-IsMatched calls given (manual_mode ep s) (manual_mode-IsMatched given ep s h)
  run-IsMatched (post ep b size ∷ calls) given s h =
      run-IsMatched calls given (post_buffer ep b size s)
        (post_buffer-IsMatched given ep b size s h)
  run-IsMatched (request ep r cnt ∷ calls) given s h =
      subst (λ c. IsMatched c (run calls (request_buffer ep r cnt s)))
        (append_assoc given ((r, cnt) ∷ []) (requests calls))
        (run-IsMatched calls (given ++ (r, cnt) ∷ []) (request_buffer ep r cnt s) (
          IsMatched-last given (r, cnt) (request_buffer ep r cnt s)
            (request_buffer-IsMatched given ep r cnt s h)))
