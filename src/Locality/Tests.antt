-- ===== src/Locality/Tests.antt =====
-- A chare whose ports are numbers; its one callback logs what it gets.
use hypercomm.Base.{
  ℕ, ◌≡◌, refl, Bool, true, false, [], ◌∷◌, ◌++◌, some, lookup, insert, nat_eq, arith,
}
use hypercomm.Locality.{
  to_port, Dev, callback, Locality, Calls, passthru, passthru_with, open_port, set_alive,
}
use hypercomm.Locality.Ports.{IsQuiet, Delivered, emptied, receive_all, receive-open_delivers}

-- Components are flags: whether they are active.
abbrev calls : Calls ℕ ℕ Bool ℕ
calls = record {
  keep_alive = λ p. false;
  accept = λ id port dev l. (true, l);
  send = λ k dev l. record l { network = l.network ++ dev ∷ [] };
  invoke = λ idx dev l. l;
  is_active = λ c. c;
  collectible = λ c. false;
  activate = λ id l. record l { components = insert id true l.components };
  deactivate = λ id l. l;
}

abbrev chare : Locality ℕ ℕ Bool ℕ
chare = record {
  entry_ports = [];
  alive = λ p. false;
  components = (4, false) ∷ [];
  callstack = [];
  port_queue = [];
  invalidations = 9 ∷ [];
  future_authority = 0;
  component_authority = 4;
  created = 0;
  processed = 0;
  network = [];
}

abbrev value : ℕ → Dev ℕ ℕ
value x = record { is_message = false; content = x; ep = to_port 7 }

callback-IsQuiet : IsQuiet calls 3 7 (callback 1)
unfolding passthru passthru_with
callback-IsQuiet dev l = (calls.send 1 dev l, refl, refl, refl)

receive-open_delivers_example :
    (l1 : Locality ℕ ℕ Bool ℕ) × (l' : Locality ℕ ℕ Bool ℕ) × (receive_all calls 3 7
        (callback 1)
        (value 5 ∷ value 6 ∷ [])
        chare
      ≡ some l1)
    × (open_port calls 3 9 7 (callback 1) l1 ≡ some (emptied calls 3 7 (callback 1) l'))
    × Delivered calls 3 7
        (callback 1)
        (record (set_alive calls 7 true l1) { entry_ports = insert 7 (callback 1) l1.entry_ports })
        (value 5 ∷ value 6 ∷ [])
        l'
unfolding lookup
receive-open_delivers_example =
    receive-open_delivers calls 3 7 (callback 1) 9 (value 5) (value 6 ∷ []) chare callback-IsQuiet
      (refl, (refl, tt)) refl refl (omega arith)
