-- ===== src/Manageable/Tests.antt =====
-- A chare with two children, of which one is replaced by two others.
use hypercomm.Base.{ℕ, ◌+◌, ◌≡◌, List, [], ◌∷◌, count, Assoc, nat_eq}
use hypercomm.Manageable.{Calls, Chare, delete, replace_downstream}
use hypercomm.Manageable.Resolve.{IsResolved, leaving, coming, replace_downstream_settles}

-- The log has the ports that were reopened, and those that got a null value.
abbrev logging : Calls (List ℕ) ℕ ℕ
logging = record {
  entry_ports = λ env. record { identity = 5; epoch = 3; index = 11 } ∷ [];
  receive_null = λ port env. port.index ∷ env;
  reopen = λ port next env. next ∷ env;
  reducers = λ env. record { id = 40; gen = 5; epoch = 3 } ∷ [];
  widen = λ id env. id ∷ env;
  connect = λ port id i env. port.index ∷ env;
}

abbrev chare : Chare (List ℕ) ℕ ℕ
chare = record {
  downstream = 11 ∷ 12 ∷ [];
  staged = record { change = delete; from = 14; since = [] } ∷ [];
  env = [];
}

abbrev since_two : Assoc ℕ ℕ
since_two = (5, 2) ∷ []

replace_downstream_settles_example :
    IsResolved
      (λ g. g)
      logging
      (replace_downstream (λ g. g) logging 11 (13 ∷ 14 ∷ []) since_two chare)
    × ((x : ℕ)
        → count x (replace_downstream (λ g. g) logging 11 (13 ∷ 14 ∷ []) since_two chare).downstream
            + (count x (11 ∷ []) + leaving x chare.staged)
            + coming x
                (replace_downstream (λ g. g) logging 11 (13 ∷ 14 ∷ []) since_two chare).staged
          ≡ count x chare.downstream
            + (count x (13 ∷ 14 ∷ []) + coming x chare.staged)
            + leaving x
                (replace_downstream (λ g. g) logging 11 (13 ∷ 14 ∷ []) since_two chare).staged)
replace_downstream_settles_example =
    replace_downstream_settles (λ g. g) logging 11 (13 ∷ 14 ∷ []) since_two chare
