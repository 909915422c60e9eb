-- ===== src/Interceptor/Tests.antt =====
-- Element 0, which is local, and messages for the indices 1 and 2, which are forwarded.
use hypercomm.Base.{ℕ, ◌≡◌, true, false, [], ◌∷◌, none, some, Assoc, lookup, arith, nat_eq, nat_beq}
use hypercomm.Interceptor.{Manager, Branch, dealias}
use hypercomm.Interceptor.Forwarding.{Leads, IsRanked, dealias-Leads}

abbrev mgr : Manager ℕ
mgr = record { home_pe = λ i. 3; lookup_id = λ i. some i; is_local = λ id. nat_beq id 0 }

abbrev requests : Assoc ℕ ℕ
requests = (1, 0) ∷ []

abbrev rank : ℕ → ℕ
rank i = elim (nat_beq i 1) [ true ↦ 1 | false ↦ elim (nat_beq i 2) [ true ↦ 2 | false ↦ 0 ] ]

requests-IsRanked : IsRanked rank requests
unfolding lookup
requests-IsRanked i j h = ground arith

dealias-Leads_example :
    (j : ℕ) × (dealias 2 requests 1 ≡ some j) × Leads requests 1 j × (lookup j requests ≡ none)
dealias-Leads_example = dealias-Leads rank requests 2 1 requests-IsRanked (omega arith)

abbrev branch : Branch ℕ ℕ
branch = record {
  fwd_reqs = requests;
  queued = (2, 50) ∷ (4, 51) ∷ (2, 52) ∷ [];
  cache = [];
  created = 5;
  processed = 2;
  effects = [];
}
