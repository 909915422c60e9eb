-- ===== src/Sections/Broadcast/Exact.antt =====
-- The broadcasts of include/hypercomm/core/broadcaster.hpp under every order of delivery.
use mathlib.Core.Path.{subst}
use hypercomm.Base.{
  some-eq, none-ne_some, ℕ, zero, suc, ◌≤◌, ◌<◌, ◌≡◌, refl, sym, ◌∙◌, Option-cases, inl, Bool-cases,
  if◌then◌else◌, false, ltb, ltb→lt, List, [], ◌∷◌, ◌++◌, none, some, arith, length, get_elem?,
  get_elem?-lt, index_of, index_of-get_elem?, lt-length_of_get_elem?, Eq, inr,
}
use hypercomm.Sections.{index_at, is_member}
use hypercomm.Sections.Tree.{is_member_iff}
use hypercomm.Sections.Broadcast.{Site, Task, Net, deliver, broadcast, Reach, here, next}
use hypercomm.Sections.Broadcast.Flow.{
  IsFlow, serve, taken-le-one, taken-eq-one, total, total-le, total-serve,
}
use hypercomm.Sections.Broadcast.Delivery.{
  heading, IsFresh, Inv, task, served, deliver-served, served-Inv,
}

total-zero : (n : ℕ) → total n (λ _. 0) ≡ 0
total-zero zero = refl
total-zero (suc n) = omega (arith, total-zero n)

total-ones : (n : ℕ) (taken : ℕ → ℕ) → ((k : ℕ) → k < n → taken k ≡ 1) → total n taken ≡ n
total-ones zero t h = refl
total-ones (suc n) t h = omega (arith, total-ones n t (λ k l. h k (omega arith)), h n (omega arith))

deliver-found :
    {I M : Type 0} ⦃e : Eq I⦄ (ms : List I) (p : ℕ) (net net' : Net I M)
    → deliver ms p net ≡ some net'
    → (t : Task I M) × (get_elem? net.pending p ≡ some t)
unfolding deliver
deliver-found {I} {M} ms p net net' d = elim (Option-cases (get_elem? net.pending p)) [
  | inl out ↦ absurd (none-ne_some (sym (rw out refl) ∙ d))
  | inr found ↦ found
]

module _ {I M : Type 0} ⦃e : Eq I⦄ (ms : List I) (root : I) (c : ℕ) (m : M) (start : I → Site M)
    (fresh : IsFresh ms root c m start) (first : get_elem? ms 0 ≡ some root) where
  abbrev begin : Net I M
  begin = record { sites = start; pending = record { target = root; stamp = none; msg = m } ∷ [] }

  broadcast-begin : broadcast ms start m ≡ some begin
  unfolding broadcast index_at
  broadcast-begin = rw first

  begin-Inv : Inv ms root c m start begin (λ _. 0)
  begin-Inv = record {
    flow = start-IsFlow;
    tasks = (
      (
        rw (index_of-get_elem? ms 0 root fresh.distinct first)
            (lt-length_of_get_elem? ms 0 root first),
        refl,
        inr (refl, refl),
      ),
      tt,
    );
    members = λ i h. refl;
    others = λ i h. refl;
  }
    where
      start-IsFlow : IsFlow (length ms) (λ _. 0) (heading {M = M} ms begin.pending)
      start-IsFlow zero h = rw (index_of-get_elem? ms 0 root fresh.distinct first)
      start-IsFlow (suc k) h = rw (index_of-get_elem? ms 0 root fresh.distinct first) (ground arith)

  Reach-Inv :
      {n : ℕ} {net : Net I M}
      → Reach ms begin n net
      → (taken : ℕ → ℕ) × Inv ms root c m start net taken × (total (length ms) taken ≡ n)
  Reach-Inv here = ((λ _. 0), begin-Inv, total-zero (length ms))
  Reach-Inv (next {net = net} {net' = net'} r p d) =
      let (taken, v, sum) = Reach-Inv r in
      let (t, found) = deliver-found ms p net net' d in
      let i = index_of t.target ms in
      let same : served ms root c m start net t p ≡ net' =
        some-eq (sym (deliver-served ms root c m start net taken fresh v p t found) ∙ d) in
      (
        serve i taken,
        subst (λ w. Inv ms root c m start w (serve i taken)) same
            (served-Inv ms root c m start net taken fresh v p t found),
        omega (
          arith,
          total-serve (length ms) i taken (task ms root c m start net taken fresh v p t found).0,
          sum,
        ),
      )

  Reach-le-length : {n : ℕ} {net : Net I M} → Reach ms begin n net → n ≤ length ms
  Reach-le-length r =
      let (taken, v, sum) = Reach-Inv r in
      omega (
        arith,
        sum,
        total-le (length ms) taken
            (λ k h. taken-le-one (length ms) taken (heading {M = M} ms _) k v.flow h),
      )

  from_begin :
      {n : ℕ} {net net0 : Net I M}
      → broadcast ms start m ≡ some net0
      → Reach ms net0 n net
      → Reach ms begin n net
  from_begin {n} {net} started r =
      subst (λ w. Reach ms w n net) (sym (some-eq (sym broadcast-begin ∙ started))) r

  -- However the network orders the deliveries of a fresh broadcast, there are at most as many as
  -- the section has members, and every pending one succeeds: no assertion fails on the way.
  pub broadcast_progress :
      {n : ℕ} {net net0 : Net I M} (p : ℕ)
      → broadcast ms start m ≡ some net0
      → Reach ms net0 n net
      → p < length net.pending
      → (suc n ≤ length ms) × ((net' : Net I M) × (deliver ms p net ≡ some net'))
  broadcast_progress {n} {net} p started r h =
      let (taken, v, sum) = Reach-Inv (from_begin started r) in
      let (t, found) = get_elem?-lt net.pending p h in
      let d = deliver-served ms root c m start net taken fresh v p t found in
      (Reach-le-length (next (from_begin started r) p d), (served ms root c m start net t p, d))

  -- When nothing of a fresh broadcast is pending any more, there have been exactly as many
  -- deliveries as the section has members, each member has received the message once more than
  -- before, and no other chare has received anything.
  pub broadcast_complete :
      {n : ℕ} {net net0 : Net I M} (i : I)
      → broadcast ms start m ≡ some net0
      → Reach ms net0 n net
      → net.pending ≡ []
      → (n ≡ length ms)
        × ((net.sites i).received
            ≡ (if is_member ms i then (start i).received ++ m ∷ [] else (start i).received))
  broadcast_complete {n} {net} i started r quiet =
      let (taken, v, sum) = Reach-Inv (from_begin started r) in
      let all : (k : ℕ) → k < length ms → taken k ≡ 1 = λ k h.
        taken-eq-one (length ms) taken (heading {M = M} ms net.pending) k v.flow
          (λ j. rw quiet refl) h in
      (
        sym sum ∙ total-ones (length ms) taken all,
        elim (Bool-cases (is_member ms i)) [
          | inl inside ↦
              let h = (is_member_iff ms i).0 inside in
              rw (inside, v.members i h, all (index_of i ms) h) refl
          | inr outside ↦ rw (outside, v.others i (outside_ge outside)) refl
        ],
      )
    where
      outside_ge : is_member ms i ≡ false → length ms ≤ index_of i ms
      outside_ge outside = elim (Bool-cases (ltb (index_of i ms) (length ms))) [
        | inl lt ↦ cc ((is_member_iff ms i).1 (ltb→lt _ _ lt))
        | inr ge ↦ ground arith
      ]
