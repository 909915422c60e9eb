-- ===== src/TreeBuilder/Tests.antt =====
-- The root node of a tree of four nodes, before any element is registered.
use hypercomm.Base.{ℕ, refl, true, some, none, [], nat_eq}
use hypercomm.Base.Int.{pos}
use hypercomm.TreeBuilder.{Builder, receive_downstream, handle}
use hypercomm.TreeBuilder.Counts.{Accounts, Then, handle-Accounts}

abbrev root : Builder ℕ
root = record {
  index = pos 0;
  num_nodes = pos 4;
  produced = 0;
  consumed = 0;
  registered = true;
  inserting = some true;
  elements = [];
  objects = [];
  endpoint = none;
  calls = [];
  requests = [];
}

handle-Accounts_example : Then (Accounts 1) (handle (receive_downstream (pos 2) 40) root)
handle-Accounts_example = handle-Accounts (receive_downstream (pos 2) 40) 0 root refl
