-- ===== src/Interceptor/Forwarding.antt =====
-- The forwarding requests of src/hypercomm/messaging/interceptor.cc, and the messages that they pass on.
use hypercomm.Base.{
  ℕ, zero, suc, ◌≤◌, ◌<◌, ◌≡◌, inl, inr, List, [], ◌++◌, none, some, arith, length, Option-cases,
  Eq, nat_eq, Assoc, lookup,
}
use hypercomm.Interceptor.{Manager, Effect, Branch, dealias, taken, left}
use hypercomm.Interceptor.Onward.{IsBalanced, Onward}

module _ {I : Type 0} ⦃e : Eq I⦄ where
  -- The forwarding requests lead from an index to another.
  pub data Leads (reqs : Assoc I I) : I → I → Type 0 where
    here : {i : I} → Leads reqs i i
    there : {i : I} {j : I} {k : I} → lookup i reqs ≡ some j → Leads reqs j k → Leads reqs i k

  -- Every request leads to an index of lower rank.
  abbrev pub IsRanked : (I → ℕ) → Assoc I I → Type 0
  IsRanked rank reqs = (i j : I) → lookup i reqs ≡ some j → rank j < rank i

  -- The requests are acyclic, with ranks below their number.
  abbrev pub IsAcyclic : Assoc I I → Type 0
  IsAcyclic reqs = (rank : I → ℕ) × IsRanked rank reqs × ((i : I) → rank i ≤ length reqs)

  -- Acyclic forwarding requests lead from each index to one that is not forwarded, and `dealias`
  -- finds it within as many steps as the index's rank.
  pub dealias-Leads :
      (rank : I → ℕ) (reqs : Assoc I I) (fuel : ℕ) (i : I)
      → IsRanked rank reqs
      → rank i < fuel
      → (j : I) × (dealias fuel reqs i ≡ some j) × Leads reqs i j × (lookup j reqs ≡ none)
  unfolding dealias
  dealias-Leads rank reqs zero i r h = absurd (omega arith)
  dealias-Leads rank reqs (suc fuel) i r h = elim (Option-cases (lookup i reqs)) [
    | inl out ↦ (i, rw (dealias, out), here, out)
    | inr (k, f) ↦
        let (j, d, path, end) = dealias-Leads rank reqs fuel k r (omega (arith, h, r i k f)) in
        (j, rw (dealias, f) d, there f path, end)
  ]

module _ {I M : Type 0} ⦃e : Eq I⦄ (mgr : Manager I) (mine : ℕ) where
  -- What a forwarding request does with the messages that were buffered for its source.
  abbrev pub PassesOn : I → Branch I M → Branch I M → Type 0
  PassesOn source b b' =
      (post : I) × (es : List (Effect I M)) × (qs : List (I × M)) × Leads b'.fwd_reqs source post
      × (lookup post b'.fwd_reqs ≡ none)
      × Onward mgr mine post (taken source b.queued) es qs
      × (b'.effects ≡ b.effects ++ es)
      × (b'.queued ≡ left source b.queued ++ qs)
      × (taken source b'.queued ≡ [])
      × IsBalanced b'
