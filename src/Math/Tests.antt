-- ===== src/Math/Tests.antt =====
-- Nodes of a small tree.
use hypercomm.Base.{◌≡◌, ◌↔◌, ◌⊎◌}
use hypercomm.Base.Int.{pos}
use hypercomm.Math.{left_child, right_child, parent}
use hypercomm.Math.BinaryTree.{parent-iff-child}

parent-iff-child_example :
    (parent (pos 4) ≡ pos 1) ↔ ((left_child (pos 1) ≡ pos 4) ⊎ (right_child (pos 1) ≡ pos 4))
parent-iff-child_example = parent-iff-child 1 4
