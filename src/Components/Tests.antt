-- ===== src/Components/Tests.antt =====
-- A component with two inputs and one output, run on small inputs. Its environment is the list of
-- values that its one destination has taken; the destination takes numbers below ten.
use hypercomm.Base.{
  ℕ, zero, suc, ◌+◌, ◌≡◌, refl, Bool, true, false, List, [], ◌∷◌, ◌++◌, Option, none, some, arith,
  ltb, ◌⊎◌, nat_beq, if◌then◌else◌,
}
use hypercomm.Components.{Context}
use hypercomm.Components.Inbox.{InSet, Incoming, has, is_ready}
use hypercomm.Components.Inbox.Join.{column}
use hypercomm.Components.Outbox.{Output, try_flush}
use hypercomm.Components.Outbox.Flush.{Flushed, try_flush-Sent}
use hypercomm.Components.Component.{Com, Behaviour, outputs}
use hypercomm.Components.Component.Accept.{IsJoined, Waits, Fires, accept_joins}

data Token : Type 0 where
  token : Token

abbrev passthru : Token → Option ℕ → List ℕ → Bool × List ℕ
passthru d none env = (true, env)
passthru d (some v) env = elim (ltb v 10) [ true ↦ (true, env ++ v ∷ []) | false ↦ (false, env) ]

abbrev ctx : Context (List ℕ) Token ℕ
ctx = record { passthru = passthru; try_return = λ v env. env }

abbrev sum : InSet ℕ → ℕ
sum [] = 0
sum (none ∷ s) = sum s
sum (some v ∷ s) = v + sum s

abbrev adder : Behaviour (List ℕ) ℕ ℕ Token
adder = record {
  action = λ n keep s. record { state = n + 1; persistent = keep; outcome = outputs (sum s ∷ []) };
  notify = λ l signal env. env;
}

abbrev output : Output Token ℕ
output = record { connector = some token; buffer = 3 ∷ 12 ∷ 4 ∷ [] }

abbrev two_inputs : Com ℕ Token ℕ Token
two_inputs = record {
  id = 1;
  n_inputs = 2;
  active = true;
  activated = true;
  permissive = false;
  persistent = true;
  listeners = [];
  incoming = (none ∷ some 5 ∷ []) ∷ (none ∷ some 2 ∷ []) ∷ [];
  outgoing = output ∷ [];
  state = 0;
}

abbrev offline : Com ℕ Token ℕ Token
offline = record two_inputs {
  active = false;
  activated = false;
  incoming = (none ∷ some 5 ∷ []) ∷ (some 1 ∷ some 2 ∷ []) ∷ [];
}

stair_front :
    (i : ℕ) → has {V = ℕ} (none ∷ some 5 ∷ []) i ≡ true → has {V = ℕ} (none ∷ some 2 ∷ []) i ≡ true
stair_front zero h = h
stair_front (suc i) h = stair_tail i h
  where
    stair_tail : (i : ℕ) → has {V = ℕ} (some 5 ∷ []) i ≡ true → has {V = ℕ} (some 2 ∷ []) i ≡ true
    stair_tail zero h = refl
    stair_tail (suc i) h = h

two_inputs-IsJoined : IsJoined two_inputs
unfolding is_ready
two_inputs-IsJoined = record {
  online = refl;
  several = omega arith;
  stair = (λ i h. (stair_front i h, tt), (λ i h. tt, tt));
  wide = (refl, (refl, tt));
  waiting = (refl, (refl, tt));
}

accept_joins_example :
    (new : Incoming ℕ) × ((j : ℕ)
      → column j new ≡ column j two_inputs.incoming ++ (if nat_beq 0 j then 7 ∷ [] else []))
    × (Waits ctx adder two_inputs 0 7 [] two_inputs-IsJoined (omega arith) new
        ⊎ Fires ctx adder two_inputs 0 7 [] two_inputs-IsJoined (omega arith) new)
accept_joins_example = accept_joins ctx adder two_inputs 0 7 [] two_inputs-IsJoined (omega arith)

try_flush-Sent_example :
    Flushed ctx token
      (3 ∷ 12 ∷ 4 ∷ [])
      []
      ((try_flush ctx output []).0.buffer, (try_flush ctx output []).1)
try_flush-Sent_example = try_flush-Sent ctx output token [] refl
