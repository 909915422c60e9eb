-- ===== src/Proxies/Hashes.antt =====
-- include/hypercomm/utilities/hash.hpp: the hashes of proxies. `std::hash` of integers, pointers
-- and dimensions is a parameter.
use hypercomm.Base.{ℕ, zero, suc, ◌<◌, ◌≡◌, ◌≢◌, refl, sym, ◌∙◌, true, arith}
use hypercomm.Math.{hash_combine, size_mod}
use hypercomm.Proxies.Equality.{Names, itself, by_words, equals-Names, elements-equals}
use hypercomm.Proxies.{
  ChareId, ArrayIndex, Member, Proxy, chare_proxy, array_proxy, array_element_proxy,
  group_element_proxy, nodegroup_element_proxy, Runtime, IsRuntime, equals,
}

-- The dimension of an array element's index; 0 for another proxy.
abbrev pub dimension_of : Proxy → ℕ
dimension_of (array_element_proxy id idx) = idx.dimension
dimension_of _ = 0

-- `std::hash` of `int`, of `void*` and of `short unsigned int`.
pub record StdHash : Type 0 where
  pub of_int : ℕ → ℕ
  pub of_ptr : ℕ → ℕ
  pub of_short : ℕ → ℕ

module _ (h : StdHash) where
  unfoldable pub hash_chare : ChareId → ℕ
  unfolding hash_combine
  hash_chare id = hash_combine (h.of_ptr id.obj_ptr) (h.of_int id.on_pe)

  -- The loop over the words.
  unfoldable pub hash_words : ℕ → (ℕ → ℕ) → ℕ → ℕ
  unfolding hash_combine
  hash_words zero word seed = seed
  hash_words (suc n) word seed = hash_combine (hash_words n word seed) (h.of_int (word n))

  unfoldable pub hash_index : ℕ → ArrayIndex → ℕ
  hash_index max_len idx = hash_words max_len idx.word (h.of_short idx.dimension)

  unfoldable pub hash_member : Member → ℕ
  unfolding hash_combine
  hash_member m = hash_combine (h.of_int m.gid) (h.of_int m.pe)

  -- `typed_proxy::hash`.
  unfoldable pub hash_proxy : ℕ → Proxy → ℕ
  unfolding hash_combine hash_chare hash_index hash_member
  hash_proxy max_len (chare_proxy id) = hash_chare id
  hash_proxy max_len (array_proxy id) = h.of_int id
  hash_proxy max_len (array_element_proxy id idx) =
      hash_combine (h.of_int id) (hash_index max_len idx)
  hash_proxy max_len (group_element_proxy m) = hash_member m
  hash_proxy max_len (nodegroup_element_proxy m) = hash_member m

hash_combine-cancel :
    (a b r : ℕ) → a < size_mod → b < size_mod → hash_combine a r ≡ hash_combine b r → a ≡ b
unfolding hash_combine
hash_combine-cancel a b r ha hb h = omega arith

hash_combine-lt : (a r : ℕ) → hash_combine a r < size_mod
unfolding hash_combine
hash_combine-lt a r = omega arith

module _ (h : StdHash) where
  hash_words-lt :
      (n : ℕ) (word : ℕ → ℕ) (seed : ℕ) → seed < size_mod → hash_words h n word seed < size_mod
  unfolding hash_words
  hash_words-lt zero word seed lt = lt
  hash_words-lt (suc n) word seed lt = hash_combine-lt _ _

  hash_words-cancel :
      (n : ℕ) (word : ℕ → ℕ) (a b : ℕ)
      → a < size_mod
      → b < size_mod
      → hash_words h n word a ≡ hash_words h n word b
      → a ≡ b
  unfolding hash_words
  hash_words-cancel zero word a b ha hb same = same
  hash_words-cancel (suc n) word a b ha hb same = hash_words-cancel n word a b ha hb (
      hash_combine-cancel _ _ (h.of_int (word n)) (hash_words-lt n word a ha)
        (hash_words-lt n word b hb) same)

  hash_words-congruent :
      (n : ℕ) (u v : ℕ → ℕ) (seed : ℕ)
      → ((k : ℕ) → k < n → u k ≡ v k)
      → hash_words h n u seed ≡ hash_words h n v seed
  unfolding hash_words
  hash_words-congruent zero u v seed same = refl
  hash_words-congruent (suc n) u v seed same =
      rw (hash_words-congruent n u v seed (λ k lt. same k (omega arith)), same n (omega arith)) refl

  Names-hash :
      (n : ℕ) {p q : Proxy}
      → Names n p q
      → dimension_of p ≡ dimension_of q
      → hash_proxy h n p ≡ hash_proxy h n q
  unfolding hash_proxy hash_index
  Names-hash n (itself p) same = refl
  Names-hash n (by_words id i j words) same =
      rw (same, hash_words-congruent n i.word j.word (h.of_short j.dimension) words) refl

  -- Proxies that are equal have one hash, if those of array elements have the same dimension.
  pub hash_proxy-equals :
      (n : ℕ) (rt : Runtime) (p q : Proxy)
      → IsRuntime n rt
      → equals n rt p q ≡ true
      → dimension_of p ≡ dimension_of q
      → hash_proxy h n p ≡ hash_proxy h n q
  hash_proxy-equals n rt p q ok same = Names-hash n (equals-Names n rt ok p q same)

  -- The dimension of an index is hashed but not compared: two proxies of elements of one array,
  -- whose indices have the same words, are equal, and the hashes of their indices differ, if
  -- `std::hash` gives two different numbers of 64 bits for their dimensions.
  pub hash_index-differs :
      (n : ℕ) (rt : Runtime) (id : ℕ) (i j : ArrayIndex)
      → h.of_short i.dimension < size_mod
      → h.of_short j.dimension < size_mod
      → h.of_short i.dimension ≢ h.of_short j.dimension
      → ((k : ℕ) → k < n → i.word k ≡ j.word k)
      → (equals n rt (array_element_proxy id i) (array_element_proxy id j) ≡ true)
        × (hash_index h n i ≢ hash_index h n j)
  unfolding hash_index
  hash_index-differs n rt id i j wi wj apart words = (
    elements-equals n rt id i j words,
    λ same. apart (
        hash_words-cancel n i.word _ _ wi wj
          (same ∙ sym (hash_words-congruent n i.word j.word (h.of_short j.dimension) words))),
  )
