-- ===== src/Proxies/Tests.antt =====
-- The comparison and the hashes of proxies on a runtime of four PEs.
use hypercomm.Base.{
  ℕ, zero, suc, ◌+◌, ◌*◌, ◌%◌, ◌≡◌, refl, true, false, ◌≢◌, ◌&&◌, arith, nat_beq, some,
}
use hypercomm.Proxies.{
  ArrayIndex, array_element_proxy, Runtime, equals, home, last_known, node_level, path, element_at,
}
use hypercomm.Proxies.Hashes.{StdHash, hash_index, hash_index-differs}

abbrev four_pes : Runtime
four_pes = record {
  my_pe = 1;
  my_node = 0;
  home_pe = λ id i. i.word 0 % 4;
  last_known_pe = λ id i. 3;
  lookup_element = λ id i. 100 * id + i.word 0;
  array_branch = λ id. id;
  chare_objs = 8;
  local_chare = λ id. id.obj_ptr + 1000;
  local_branch = λ gid. gid;
  local_node_branch = λ gid. gid;
  same_array = nat_beq;
  same_member = λ a b. nat_beq a.gid b.gid && nat_beq a.pe b.pe;
}

abbrev row : ArrayIndex
row = record { n_ints = 1; dimension = 1; word = λ k. if_first k }
  where
    if_first : ℕ → ℕ
    if_first zero = 5
    if_first (suc k) = 0

abbrev plane : ArrayIndex
plane = record { n_ints = 2; dimension = 2; word = row.word }

path_at_home : path four_pes (element_at 7 row) ≡ some (3, false)
unfolding path element_at home last_known node_level
path_at_home = refl

abbrev std_hash : StdHash
std_hash = record { of_int = λ n. n; of_ptr = λ p. p; of_short = λ d. d }

hash_index-differs_example :
    (equals 3 four_pes (array_element_proxy 7 row) (array_element_proxy 7 plane) ≡ true)
    × (hash_index std_hash 3 row ≢ hash_index std_hash 3 plane)
hash_index-differs_example =
    hash_index-differs std_hash 3 four_pes 7 row plane (omega arith) (omega arith)
      (λ same. absurd (omega (arith, same))) (λ k h. refl)
