-- ===== src/Proxies/Equality.antt =====
-- The comparison of proxies in include/hypercomm/core/proxy.hpp.
use hypercomm.Base.{
  ℕ, zero, suc, ◌<◌, ◌≡◌, refl, ◌↔◌, true, arith, nat_beq, nat_beq_iff, Bool-cases, inl, inr, ◌&&◌,
  ◌⊎◌, ◌≢◌,
}
use hypercomm.Proxies.{
  ChareId, ArrayIndex, Proxy, chare_proxy, array_proxy, array_element_proxy, group_element_proxy,
  nodegroup_element_proxy, Runtime, IsRuntime, same_words, equals, path, local,
}

-- Two proxies name the same chare: they are equal, or are indices with the same words of one array.
pub data Names (n : ℕ) : Proxy → Proxy → Type 0 where
  itself : (p : Proxy) → Names n p p
  by_words :
      (id : ℕ) (i j : ArrayIndex)
      → ((k : ℕ) → k < n → i.word k ≡ j.word k)
      → Names n (array_element_proxy id i) (array_element_proxy id j)

pub same_words_iff :
    (n : ℕ) (u v : ℕ → ℕ) → (same_words n u v ≡ true) ↔ ((k : ℕ) → k < n → u k ≡ v k)
unfolding same_words
same_words_iff zero u v = (λ _ k h. absurd (omega arith), λ _. refl)
same_words_iff (suc n) u v = let (to, from) = same_words_iff n u v in (only_if to, holds from)
  where
    only_if :
        ((same_words n u v ≡ true) → (j : ℕ) → j < n → u j ≡ v j)
        → (same_words n u v && nat_beq (u n) (v n)) ≡ true
        → (k : ℕ) → k < suc n
        → u k ≡ v k
    only_if before_all h k lt = elim (Bool-cases (nat_beq k n)) [
      | inl last ↦ rw ((nat_beq_iff k n).0 last) (ground (arith, nat_beq_iff (u n) (v n)))
      | inr before ↦ before_all (ground arith) k (ground arith)
    ]

    holds :
        (((j : ℕ) → j < n → u j ≡ v j) → same_words n u v ≡ true)
        → ((k : ℕ) → k < suc n → u k ≡ v k)
        → (same_words n u v && nat_beq (u n) (v n)) ≡ true
    holds before_all h =
        rw (before_all (λ k lt. h k (omega arith)), (nat_beq_iff (u n) (v n)).1 (h n (omega arith)))
          refl

same_chare_iff :
    (a b : ChareId) → ((nat_beq a.on_pe b.on_pe && nat_beq a.obj_ptr b.obj_ptr) ≡ true) ↔ (a ≡ b)
same_chare_iff a b = ground arith

-- The indices of two array elements differ in size or in dimension.
abbrev pub OtherShape : Proxy → Proxy → Type 0
OtherShape (array_element_proxy id i) (array_element_proxy id' j) =
    (i.n_ints ≢ j.n_ints) ⊎ (i.dimension ≢ j.dimension)
OtherShape p q = ⊥

-- Two proxies lead to one place and to one object.
abbrev pub LeadTogether : Runtime → Proxy → Proxy → Type 0
LeadTogether rt p q = (path rt p ≡ path rt q) × (local rt p ≡ local rt q)

-- Elements of one array with the same words are equal.
pub elements-equals :
    (n : ℕ) (rt : Runtime) (id : ℕ) (i j : ArrayIndex)
    → ((k : ℕ) → k < n → i.word k ≡ j.word k)
    → equals n rt (array_element_proxy id i) (array_element_proxy id j) ≡ true
unfolding equals
elements-equals n rt id i j h =
    rw ((nat_beq_iff id id).1 refl) ((same_words_iff n i.word j.word).1 h)

module _ (n : ℕ) (rt : Runtime) (ok : IsRuntime n rt) where
  same_element :
      (id id' : ℕ) (i j : ArrayIndex)
      → equals n rt (array_element_proxy id i) (array_element_proxy id' j) ≡ true
      → Names n (array_element_proxy id i) (array_element_proxy id' j)
  unfolding equals
  same_element id id' i j h = elim (Bool-cases (nat_beq id' id)) [
    | inl same ↦
        rw ((nat_beq_iff id' id).0 same)
          (by_words id i j ((same_words_iff n i.word j.word).0 (rw same at h)))
    | inr other ↦ absurd (ground arith)
  ]

  pub equals-Names : (p q : Proxy) → equals n rt p q ≡ true → Names n p q
  unfolding equals
  equals-Names (chare_proxy id) (chare_proxy id') h = rw ((same_chare_iff id id').0 h) (itself _)
  equals-Names (array_proxy id) (array_proxy id') h = rw ((ok.same_array_iff id id').0 h) (itself _)
  equals-Names (array_element_proxy id i) (array_element_proxy id' j) h = same_element id id' i j h
  equals-Names (group_element_proxy m) (group_element_proxy m') h =
      rw ((ok.same_member_iff m m').0 h) (itself _)
  equals-Names (nodegroup_element_proxy m) (nodegroup_element_proxy m') h =
      rw ((ok.same_member_iff m m').0 h) (itself _)
  equals-Names (chare_proxy id) (array_proxy id') h = absurd (ground arith)
  equals-Names (chare_proxy id) (array_element_proxy id' j) h = absurd (ground arith)
  equals-Names (chare_proxy id) (group_element_proxy m') h = absurd (ground arith)
  equals-Names (chare_proxy id) (nodegroup_element_proxy m') h = absurd (ground arith)
  equals-Names (array_proxy id) (chare_proxy id') h = absurd (ground arith)
  equals-Names (array_proxy id) (array_element_proxy id' j) h = absurd (ground arith)
  equals-Names (array_proxy id) (group_element_proxy m') h = absurd (ground arith)
  equals-Names (array_proxy id) (nodegroup_element_proxy m') h = absurd (ground arith)
  equals-Names (array_element_proxy id i) (chare_proxy id') h = absurd (ground arith)
  equals-Names (array_element_proxy id i) (array_proxy id') h = absurd (ground arith)
  equals-Names (array_element_proxy id i) (group_element_proxy m') h = absurd (ground arith)
  equals-Names (array_element_proxy id i) (nodegroup_element_proxy m') h = absurd (ground arith)
  equals-Names (group_element_proxy m) (chare_proxy id') h = absurd (ground arith)
  equals-Names (group_element_proxy m) (array_proxy id') h = absurd (ground arith)
  equals-Names (group_element_proxy m) (array_element_proxy id' j) h = absurd (ground arith)
  equals-Names (group_element_proxy m) (nodegroup_element_proxy m') h = absurd (ground arith)
  equals-Names (nodegroup_element_proxy m) (chare_proxy id') h = absurd (ground arith)
  equals-Names (nodegroup_element_proxy m) (array_proxy id') h = absurd (ground arith)
  equals-Names (nodegroup_element_proxy m) (array_element_proxy id' j) h = absurd (ground arith)
  equals-Names (nodegroup_element_proxy m) (group_element_proxy m') h = absurd (ground arith)
