-- ===== src/Reductions.antt =====
-- include/hypercomm/reductions and `reducer::action` of src/hypercomm/core/locality.cc. Messages,
-- combiners and callbacks are parameters; a combiner is called through `combine`.
pub mod Gather
pub mod Stamps
mod Tests
use hypercomm.Base.{
  ℕ, ◌+◌, Bool, true, false, not, List, [], ◌∷◌, ◌++◌, Option, none, some, length, ltb, leb, Eq,
  ◌==◌, nat_eq, Assoc, lookup, if◌then◌else◌,
}

pub record Contribution (M C K : Type 0) : Type 0 where
  pub msg : Option M
  pub combiner : Option C
  pub callback : Option K

-- `none` in `devs` is an invalidation. `I` is the type of the imprintables.
pub record Reducer (I M C K : Type 0) : Type 0 where
  pub imprintable : I
  pub epoch : ℕ
  pub combiner : Option C
  pub n_ustream : ℕ
  pub devs : List (Option (Contribution M C K))
  pub persistent : Bool

-- How `action` ends: by the exception of `suspend`, with a contribution, or by a null combiner.
pub data Outcome (I M C K : Type 0) : Type 0 where
  suspended : Reducer I M C K → Outcome I M C K
  reduced : Reducer I M C K → Contribution M C K → Outcome I M C K
  fault : Outcome I M C K

-- The constructor of a reducer for a number of inputs.
unfoldable pub new_reducer : {I M C K : Type 0} → I → ℕ → Option C → ℕ → Reducer I M C K
new_reducer gen epoch combiner n = record {
  imprintable = gen;
  epoch = epoch;
  combiner = combiner;
  n_ustream = n;
  devs = [];
  persistent = true;
}

-- What the loop over the values has found: the arguments, the callback and the combiner.
pub record Found (M C K : Type 0) : Type 0 where
  pub args : List M
  pub our_cb : Option K
  pub our_cmbnr : Option C

-- An assignment that the first one wins.
abbrev pub keep_first {ℓ} : {A : Type ℓ} → Option A → Option A → Option A
keep_first (some ours) theirs = some ours
keep_first none theirs = theirs

abbrev pub push : {M : Type 0} → List M → Option M → List M
push args none = args
push args (some msg) = args ++ msg ∷ []

module _ {M C K : Type 0} where
  abbrev pub visit : Found M C K → Option (Contribution M C K) → Found M C K
  visit found none = found
  visit found (some c) = record {
    args = push found.args c.msg;
    our_cb = keep_first found.our_cb c.callback;
    our_cmbnr = keep_first found.our_cmbnr c.combiner;
  }

  unfoldable pub visit_all : Found M C K → List (Option (Contribution M C K)) → Found M C K
  visit_all found [] = found
  visit_all found (dev ∷ devs) = visit_all (visit found dev) devs

  module _ {I : Type 0} (combine : C → List M → Option M) where
    -- The call of the combiner, and the contribution that is passed on.
    unfoldable pub finish : Reducer I M C K → Found M C K → Outcome I M C K
    finish r found = elim found.our_cmbnr [
      | none ↦ fault
      | some cmbnr ↦
          reduced (record r { devs = []; combiner = some cmbnr })
            (record {
              msg = combine cmbnr found.args;
              combiner = some cmbnr;
              callback = found.our_cb;
            })
    ]

    -- The value is stored, and `persistent` says whether others are to come.
    unfoldable pub stored : Reducer I M C K → Option (Contribution M C K) → Reducer I M C K
    stored r dev =
        let devs' = r.devs ++ dev ∷ [] in
        record r { devs = devs'; persistent = ltb (length devs') r.n_ustream }

    unfoldable pub action : Reducer I M C K → Option (Contribution M C K) → Outcome I M C K
    action r dev =
        let r' = stored r dev in
        if r'.persistent
        then suspended r'
        else finish r'
            (visit_all (record { args = []; our_cb = none; our_cmbnr = r'.combiner }) r'.devs)

    -- The values that reach the reducer, one after the other, while it suspends.
    unfoldable pub feed :
        Reducer I M C K → List (Option (Contribution M C K)) → Option (Reducer I M C K)
    feed r [] = some r
    feed r (dev ∷ devs) = elim (action r dev) [
      | suspended r' ↦ feed r' devs
      | reduced r' result ↦ none
      | fault ↦ none
    ]

-- The reducer is affected by a stamp if it was issued at or after it.
module _ {I : Type 0} ⦃e : Eq I⦄ where
  unfoldable pub affected_by : I → ℕ → Assoc I ℕ → Bool
  affected_by gen epoch stamp = elim (lookup gen stamp) [
    | none ↦ false
    | some since ↦ leb since epoch
  ]

  -- A reduction port has the hash of the imprintable only, and looks for it among the entries.
  unfoldable pub port_affected_by : (I → ℕ) → ℕ → ℕ → Assoc I ℕ → Bool
  port_affected_by hash identity epoch [] = false
  port_affected_by hash identity epoch ((gen, since) ∷ stamp) =
      if identity == hash gen then leb since epoch else port_affected_by hash identity epoch stamp
