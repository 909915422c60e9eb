-- ===== src/Components/Component/Activate.antt =====
-- `activate` of include/hypercomm/components/component.hpp: its loop ends.
use hypercomm.Base.{ℕ, suc, ◌≤◌, ◌≡◌, ◌⊎◌, false, none, nat_beq, length}
use hypercomm.Components.{Context}
use hypercomm.Components.Inbox.{find_ready}
use hypercomm.Components.Component.{Com, Behaviour, Run, returns, suspends}

module _ {E S D V L : Type 0} (ctx : Context E D V) (beh : Behaviour E S V L) where
  -- The component rests, or another component's suspension passed through it.
  abbrev pub Settles : ℕ → Run E S D V L → Type 0
  Settles id r =
      ((r.exit ≡ returns) × ((r.self.active ≡ false) ⊎ (find_ready r.self.incoming ≡ none)))
      ⊎ ((who : ℕ) × (r.exit ≡ suspends who) × (nat_beq id who ≡ false))

  -- A round: the call returns with fewer sets, or another component's suspension.
  abbrev Round : Com S D V L → Run E S D V L → Type 0
  Round c r =
      ((r.exit ≡ returns) × (suc (length r.self.incoming) ≤ length c.incoming) × (r.self.id ≡ c.id))
      ⊎ ((who : ℕ) × (r.exit ≡ suspends who) × (nat_beq c.id who ≡ false))
