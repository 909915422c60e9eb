-- ===== src/Interceptor/Onward.antt =====
-- Where `deliver` of src/hypercomm/messaging/interceptor.cc passes messages on to.
use hypercomm.Base.{
  ℕ, suc, ◌+◌, ◌≡◌, ◌≢◌, refl, sym, ap, subst, ◌∙◌, inl, inr, true, false, List, [], ◌∷◌, ◌++◌,
  Option, none, some, arith, length, length-append, append-nil, append_assoc, Bool-cases,
  Option-cases, Eq, ◌==◌, ==_sound, nat_beq_iff, nat_beq, nat_eq, Assoc, lookup, insert,
  lookup-insert,
}
use hypercomm.Interceptor.{
  Manager, Location, Effect, handed, sent, Branch, dealias, taken, left, lookup_or_update,
  lookup_fallback, buffer_or_send, send_to_branch, deliver_to, deliver, redeliver,
}

some_injective : {A : Type 0} {a b : A} → some a ≡ some b → a ≡ b
some_injective h = cc

module _ {I M : Type 0} ⦃e : Eq I⦄ where
  pub length-taken :
      (idx : I) (q : List (I × M)) → length (taken idx q) + length (left idx q) ≡ length q
  length-taken idx [] = omega arith
  length-taken idx ((i, m) ∷ q) = elim (Bool-cases (i == idx)) [
    | inl h ↦ rw h (omega (arith, length-taken idx q))
    | inr h ↦ rw h (omega (arith, length-taken idx q))
  ]

  pub taken-left : (idx : I) (q : List (I × M)) → taken idx (left idx q) ≡ []
  taken-left idx [] = refl
  taken-left idx ((i, m) ∷ q) = elim (Bool-cases (i == idx)) [
    | inl h ↦ rw h (taken-left idx q)
    | inr h ↦ rw h (rw h (taken-left idx q))
  ]

  pub taken-append :
      (idx : I) (p q : List (I × M)) → taken idx (p ++ q) ≡ taken idx p ++ taken idx q
  taken-append idx [] q = refl
  taken-append idx ((i, m) ∷ p) q = elim (Bool-cases (i == idx)) [
    | inl h ↦ rw h (ap (λ l. m ∷ l) (taken-append idx p q))
    | inr h ↦ rw h (taken-append idx p q)
  ]

  -- The messages created are those processed and those buffered.
  abbrev pub IsBalanced : Branch I M → Type 0
  IsBalanced b = b.created ≡ b.processed + length b.queued

  -- Where messages for an index that is not forwarded go, in order: each is handed to its element,
  -- which is local, or sent to another branch, or buffered here at its home.
  pub data Onward (mgr : Manager I) (mine : ℕ) (post : I)
      : List M → List (Effect I M) → List (I × M) → Type 0 where
    finished : Onward mgr mine post [] [] []
    hands :
        {m : M} {ms : List M} {es : List (Effect I M)} {qs : List (I × M)} (id : ℕ)
        → mgr.lookup_id post ≡ some id
        → mgr.is_local id ≡ true
        → Onward mgr mine post ms es qs
        → Onward mgr mine post (m ∷ ms) (handed post m true ∷ es) qs
    sends :
        {m : M} {ms : List M} {es : List (Effect I M)} {qs : List (I × M)} (pe : ℕ)
        → pe ≢ mine
        → Onward mgr mine post ms es qs
        → Onward mgr mine post (m ∷ ms) (sent pe post m ∷ es) qs
    buffers :
        {m : M} {ms : List M} {es : List (Effect I M)} {qs : List (I × M)}
        → mgr.home_pe post ≡ mine
        → Onward mgr mine post ms es qs
        → Onward mgr mine post (m ∷ ms) es ((post, m) ∷ qs)

  pub taken-Onward :
      {mgr : Manager I} {mine : ℕ} {post : I} {ms : List M} {es : List (Effect I M)}
      {qs : List (I × M)} (idx : I)
      → (post == idx) ≡ false
      → Onward mgr mine post ms es qs
      → taken idx qs ≡ []
  taken-Onward idx h finished = refl
  taken-Onward idx h (hands id f l o) = taken-Onward idx h o
  taken-Onward idx h (sends pe d o) = taken-Onward idx h o
  taken-Onward idx h (buffers home o) = rw h (taken-Onward idx h o)

-- Indices with one identifier have one home.
abbrev pub IsManager : {I : Type 0} → Manager I → Type 0
IsManager {I} mgr =
    (i j : I) (id : ℕ)
    → mgr.lookup_id i ≡ some id
    → mgr.lookup_id j ≡ some id
    → mgr.home_pe i ≡ mgr.home_pe j

module _ {I M : Type 0} ⦃e : Eq I⦄ (mgr : Manager I) (mine : ℕ) where
  -- What the cache places on this PE has its home here.
  abbrev pub IsPlaced : Branch I M → Type 0
  IsPlaced b =
      (i : I) (id : ℕ) (l : Location)
      → mgr.lookup_id i ≡ some id
      → lookup id b.cache ≡ some l
      → l.pe ≡ some mine
      → mgr.home_pe i ≡ mine

  -- What a delivery of one message does to a branch.
  abbrev One : I → M → Branch I M → Option (Branch I M) → Type 0
  One post msg b out =
      (b' : Branch I M) × (es : List (Effect I M)) × (qs : List (I × M)) × (out ≡ some b')
      × ((ms : List M) (es' : List (Effect I M)) (qs' : List (I × M))
          → Onward mgr mine post ms es' qs'
          → Onward mgr mine post (msg ∷ ms) (es ++ es') (qs ++ qs'))
      × (b'.fwd_reqs ≡ b.fwd_reqs)
      × (b'.effects ≡ b.effects ++ es)
      × (b'.queued ≡ b.queued ++ qs)
      × (b'.created ≡ b.created + length qs)
      × (b'.processed ≡ b.processed)
      × IsPlaced b'

  -- A location that is known, on this PE only if the home is here too.
  buffer_or_send-One :
      (again : I → M → Branch I M → Option (Branch I M)) (post : I) (msg : M) (last : ℕ)
      (home : Option ℕ) (b : Branch I M)
      → (last ≡ mine → home ≡ some mine)
      → (home ≡ some mine → mgr.home_pe post ≡ mine)
      → IsPlaced b
      → One post msg b (buffer_or_send mgr mine again post msg (last, home) b)
  unfolding buffer_or_send send_to_branch
  buffer_or_send-One again post msg last home b known at_home placed =
      elim (Bool-cases (nat_beq last mine)) [
        | inl y ↦
            let same : last ≡ mine = (nat_beq_iff last mine).0 y in
            let here_too = known same in
            let flipped : nat_beq mine last ≡ true = (nat_beq_iff mine last).1 (sym same) in
            (
              record b { queued = b.queued ++ (post, msg) ∷ []; created = b.created + 1 },
              [],
              (post, msg) ∷ [],
              rw (buffer_or_send, here_too, flipped, y) refl,
              (λ ms es' qs' o. buffers (at_home here_too) o),
              refl,
              sym (append-nil b.effects),
              refl,
              refl,
              refl,
              placed,
            )
        | inr y ↦
            let flipped : nat_beq mine last ≡ false =
              ground (arith, nat_beq_iff mine last, nat_beq_iff last mine) in
            (
              record b { effects = b.effects ++ sent last post msg ∷ [] },
              sent last post msg ∷ [],
              [],
              rw (buffer_or_send, flipped, send_to_branch, y) refl,
              (λ ms es' qs' o.
                  sends last (λ same. absurd (ground (arith, nat_beq_iff last mine))) o),
              refl,
              refl,
              sym (append-nil b.queued),
              omega arith,
              refl,
              placed,
            )
      ]

  -- What the cache answers for an index, and the cache afterwards.
  abbrev Answers : I → Branch I M → (ℕ × Option ℕ) × Branch I M → Type 0
  Answers post b ((last, home), b') =
      (last ≡ mine → home ≡ some mine)
      × (home ≡ some mine → mgr.home_pe post ≡ mine)
      × ((cache : Assoc ℕ Location) × (b' ≡ record b { cache = cache }))
      × IsPlaced b'

  updated :
      (post : I) (id epoch : ℕ) (b : Branch I M)
      → IsManager mgr
      → mgr.lookup_id post ≡ some id
      → IsPlaced b
      → (let entry : Location = record { pe = some (mgr.home_pe post); epoch = epoch } in
          IsPlaced (record b { cache = insert id entry b.cache }))
  updated post id epoch b one f placed i id' l fi g at_mine =
      let entry : Location = record { pe = some (mgr.home_pe post); epoch = epoch } in
      elim (Bool-cases (id == id')) [
        | inl y ↦
            let same : id ≡ id' = ==_sound id id' y in
            let stored : some entry ≡ some l =
              sym (lookup-insert id id' entry b.cache ∙ rw y refl) ∙ g in
            let at_home : some (mgr.home_pe post) ≡ some mine =
              ap (λ (k : Location). k.pe) (some_injective stored) ∙ at_mine in
            one i post id' fi (subst (λ k. mgr.lookup_id post ≡ some k) same f)
            ∙ some_injective at_home
        | inr n ↦
            placed i id' l fi (sym (lookup-insert id id' entry b.cache ∙ rw n refl) ∙ g) at_mine
      ]

  lookup_or_update-Answers :
      (post : I) (id : ℕ) (b : Branch I M)
      → IsManager mgr
      → mgr.lookup_id post ≡ some id
      → IsPlaced b
      → Answers post b (lookup_or_update mgr mine post id b)
  unfolding lookup_or_update
  lookup_or_update-Answers post id b one f placed = elim (Option-cases (lookup id b.cache)) [
    | inl out ↦
        rw (lookup_or_update, out)
          (
            (λ same. ap some same),
            (λ same. some_injective same),
            (_, refl),
            updated post id _ b one f placed,
          )
    | inr (l, g) ↦ elim (Option-cases l.pe) [
      | inl none' ↦
          rw (lookup_or_update, g)
            (rw none' (
              (λ same. ap some same),
              (λ same. some_injective same),
              (_, refl),
              updated post id _ b one f placed,
            ))
      | inr (pe, h) ↦
          rw (lookup_or_update, g)
            (rw h (
              (λ same.
                  let at_home = placed post id l f g (h ∙ ap some same) in
                  let own : nat_beq mine mine ≡ true = (nat_beq_iff mine mine).1 refl in
                  rw (same, own) (ap some at_home)),
              (λ same. elim (Bool-cases (nat_beq pe mine)) [
                | inl y ↦ some_injective (rw y at same)
                | inr n ↦ let no : ◌≡◌ {A = Option ℕ} none (some mine) = rw n at same in cc
              ]),
              (b.cache, refl),
              placed,
            ))
    ]
  ]

  deliver_to-One :
      (again : I → M → Branch I M → Option (Branch I M)) (post : I) (msg : M) (b : Branch I M)
      → IsManager mgr
      → IsPlaced b
      → One post msg b (deliver_to mgr mine again post msg true b)
  unfolding deliver_to lookup_fallback
  deliver_to-One again post msg b one placed = elim (Option-cases (mgr.lookup_id post)) [
    | inl out ↦
        rw (deliver_to, out)
          (buffer_or_send-One again post msg (mgr.home_pe post) (some (mgr.home_pe post)) b
            (λ same. ap some same) (λ same. some_injective same) placed)
    | inr (id, f) ↦ elim (Bool-cases (mgr.is_local id)) [
      | inl y ↦
          rw (deliver_to, f)
            (rw y (
              record b { effects = b.effects ++ handed post msg true ∷ [] },
              handed post msg true ∷ [],
              [],
              refl,
              (λ ms es' qs' o. hands id f y o),
              refl,
              refl,
              sym (append-nil b.queued),
              omega arith,
              refl,
              placed,
            ))
      | inr y ↦
          rw (deliver_to, f)
            (rw y (
              absent (lookup_or_update mgr mine post id b)
                (lookup_or_update-Answers post id b one f placed)))
    ]
  ]
    where
      absent :
          (seen : (ℕ × Option ℕ) × Branch I M)
          → Answers post b seen
          → One post msg b (buffer_or_send mgr mine again post msg seen.0 seen.1)
      absent ((last, home), b1) (known, at_home, (cache, same), placed1) =
          let (b', es, qs, out, onward, reqs, effects, queued, created, processed, placed') =
            buffer_or_send-One again post msg last home b1 known at_home placed1 in
          (
            b',
            es,
            qs,
            out,
            onward,
            reqs ∙ ap (λ (k : Branch I M). k.fwd_reqs) same,
            effects ∙ ap (λ (k : Branch I M). k.effects ++ es) same,
            queued ∙ ap (λ (k : Branch I M). k.queued ++ qs) same,
            created ∙ ap (λ (k : Branch I M). k.created + length qs) same,
            processed ∙ ap (λ (k : Branch I M). k.processed) same,
            placed',
          )

  pub redeliver-Onward :
      (fuel : ℕ) (idx post : I) (ms : List M) (b : Branch I M)
      → IsManager mgr
      → dealias (suc (length b.fwd_reqs)) b.fwd_reqs idx ≡ some post
      → IsPlaced b
      → (b' : Branch I M) × (es : List (Effect I M)) × (qs : List (I × M)) × (redeliver mgr mine
            (suc fuel)
            idx
            ms
            b
          ≡ some b')
        × Onward mgr mine post ms es qs
        × (b'.fwd_reqs ≡ b.fwd_reqs)
        × (b'.effects ≡ b.effects ++ es)
        × (b'.queued ≡ b.queued ++ qs)
        × (b'.created ≡ b.created + length qs)
        × (b'.processed ≡ b.processed + length ms)
  unfolding redeliver deliver
  redeliver-Onward fuel idx post [] b one d placed = (
    b,
    [],
    [],
    refl,
    finished,
    refl,
    sym (append-nil b.effects),
    sym (append-nil b.queued),
    omega arith,
    omega arith,
  )
  redeliver-Onward fuel idx post (m ∷ ms) b one d placed =
      let (b1, es, qs, out, onward, reqs, effects, queued, created, processed, placed1) =
        deliver_to-One (λ i k b2. deliver mgr mine fuel i k false b2) post m b one placed in
      let after : Branch I M = record b1 { processed = b1.processed + 1 } in
      let d1 = subst (λ l. dealias (suc (length l)) l idx ≡ some post) (sym reqs) d in
      let (b', es', qs', r, o, reqs', effects', queued', created', processed') =
        redeliver-Onward fuel idx post ms after one d1 placed1 in
      (
        b',
        es ++ es',
        qs ++ qs',
        rw (redeliver, deliver, d, out) r,
        onward ms es' qs' o,
        reqs' ∙ reqs,
        effects' ∙ ap (λ l. l ++ es') effects ∙ append_assoc b.effects es es',
        queued' ∙ ap (λ l. l ++ qs') queued ∙ append_assoc b.queued qs qs',
        omega (arith, created, created', length-append qs qs'),
        omega (arith, processed, processed'),
      )
