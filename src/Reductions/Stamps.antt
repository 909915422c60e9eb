-- ===== src/Reductions/Stamps.antt =====
-- The stamps of reductions: reducers and reduction ports agree on what a stamp affects.
use hypercomm.Base.{
  ℕ, ◌≡◌, refl, ap, sym, [], ◌∷◌, arith, Eq, ◌==◌, ==_sound, Assoc, lookup, nat_eq, nat_beq_iff,
  Bool-cases, inl, inr, ==→ne, All,
}
use hypercomm.Reductions.{affected_by, port_affected_by}

module _ {I : Type 0} ⦃e : Eq I⦄ where
  -- No key of the stamp but the imprintable has its hash.
  abbrev pub NoCollision : (I → ℕ) → I → Assoc I ℕ → Type 0
  NoCollision hash gen stamp = All (λ entry. hash gen ≡ hash entry.0 → entry.0 ≡ gen) stamp

  -- A port that was made of the stamp of a reducer is affected by a stamp exactly when the reducer
  -- is, if no other imprintable of the stamp has the hash of the reducer's.
  pub port_affected_by-affected_by :
      (hash : I → ℕ) (gen : I) (epoch : ℕ) (stamp : Assoc I ℕ)
      → NoCollision hash gen stamp
      → port_affected_by hash (hash gen) epoch stamp ≡ affected_by gen epoch stamp
  unfolding port_affected_by affected_by lookup
  port_affected_by-affected_by hash gen epoch [] h = refl
  port_affected_by-affected_by hash gen epoch ((key, since) ∷ stamp) (h, rest) =
      elim (Bool-cases (key == gen)) [
        | inl same ↦
            let hashes : hash gen ≡ hash key = ap hash (sym (==_sound key gen same)) in
            ground (arith, nat_beq_iff (hash gen) (hash key), hashes, same)
        | inr other ↦
            let apart = ==→ne key gen other in
            ground (
              arith,
              nat_beq_iff (hash gen) (hash key),
              h,
              apart,
              other,
              port_affected_by-affected_by hash gen epoch stamp rest,
            )
      ]
