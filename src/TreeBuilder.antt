-- ===== src/TreeBuilder.antt =====
-- include/hypercomm/tree_builder/tree_builder.hpp: one node's branch of the tree builder, for one
-- array (its maps are keyed by the array first). An element's pointer is its index, and `objects`
-- holds the associations (tree_builder/manageable_base.hpp). The quiescence count of the array is
-- kept as what was added to it and what was subtracted. The locks, which make each method atomic,
-- and the subscription to the array are not modelled. `none` is a failed assertion, a use of a null
-- pointer, or a call of a method that is not implemented.
pub mod Counts
mod Tests
use hypercomm.Base.{
  ℕ, zero, suc, ◌+◌, Bool, true, false, not, ◌&&◌, ◌||◌, List, [], ◌∷◌, ◌++◌, Option, none, some,
  if◌then◌else◌, Eq, ◌==◌, ltb, Assoc, lookup, insert, erase, length, null, map, nat_beq,
}
use hypercomm.Base.Int.{ℤ, pos, leb_ℤ}
use hypercomm.Math.{parent, leaves}

-- `association_`.
pub record Association (I : Type 0) : Type 0 where
  pub valid_upstream : Bool
  pub upstream : List I
  pub downstream : List I

-- The entry methods that the branches call on each other.
pub data Call (I : Type 0) : Type 0 where
  receive_upstream : ℤ → I → Call I
  receive_downstream : ℤ → I → Call I
  reg_endpoint : ℤ → I → Call I

-- What leaves the branch: calls of other branches, and what is asked of chares and interceptor.
pub data Request (I : Type 0) : Type 0 where
  replace_downstream : I → I → List I → Request I
  forward : I → I → Request I
  stop_forwarding : I → Request I

pub record Builder (I : Type 0) : Type 0 where
  pub index : ℤ
  pub num_nodes : ℤ
  pub produced : ℕ
  pub consumed : ℕ
  pub registered : Bool
  pub inserting : Option Bool
  pub elements : Assoc I ℕ
  pub objects : Assoc I (Option (Association I))
  pub endpoint : Option I
  pub calls : List (ℤ × Call I)
  pub requests : List (Request I)

module _ {I : Type 0} ⦃e : Eq I⦄ where
  -- `elt->association_`, null for no association.
  abbrev pub association_of : I → Builder I → Option (Association I)
  association_of i b = elim (lookup i b.objects) [ none ↦ none | some a ↦ a ]

  abbrev pub set_association : I → Association I → Builder I → Builder I
  set_association i a b = record b { objects = insert i (some a) b.objects }

  abbrev pub send : List (ℤ × Call I) → Builder I → Builder I
  send cs b = record b { calls = b.calls ++ cs }

  -- `set_endpoint_`.
  unfoldable pub set_endpoint : I → Builder I → Option (Builder I)
  set_endpoint i b = elim (association_of i b) [
    | none ↦ none
    | some a ↦ some (set_association i (record a { valid_upstream = true }) b)
  ]

  -- `is_endpoint_`.
  unfoldable pub is_endpoint : I → Builder I → Bool
  is_endpoint i b = elim (association_of i b) [
    | none ↦ false
    | some a ↦ a.valid_upstream && null a.upstream
  ]

  -- `put_upstream_`.
  unfoldable pub put_upstream : I → I → Builder I → Option (Builder I)
  put_upstream elt idx b = elim (association_of elt b) [
    | none ↦ none
    | some a ↦ some (
        set_association elt (record a { valid_upstream = true; upstream = a.upstream ++ idx ∷ [] })
          b)
  ]

  -- `put_downstream_`.
  unfoldable pub put_downstream : I → I → Builder I → Option (Builder I)
  put_downstream elt idx b = elim (association_of elt b) [
    | none ↦ none
    | some a ↦ some (set_association elt (record a { downstream = a.downstream ++ idx ∷ [] }) b)
  ]

  -- `num_downstream_`.
  unfoldable pub num_downstream : I → Builder I → ℕ
  num_downstream elt b = elim (association_of elt b) [ none ↦ 0 | some a ↦ length a.downstream ]

  -- `find_target(aid, true)`: the first element without an upstream member.
  unfoldable pub find_orphan : Assoc I ℕ → Builder I → Option I
  find_orphan [] b = none
  find_orphan ((i, rank) ∷ es) b =
      let free : Bool = elim (association_of i b) [ none ↦ true | some a ↦ not a.valid_upstream ] in
      if free then some i else find_orphan es b

  -- `find_target(aid, false)`: the first element with the fewest downstream members.
  unfoldable pub find_least : Assoc I ℕ → Builder I → Option I
  find_least [] b = none
  find_least ((i, rank) ∷ es) b = elim (find_least es b) [
    | none ↦ some i
    | some j ↦ if ltb (num_downstream j b) (num_downstream i b) then some j else some i
  ]

  -- `reg_endpoint` up to here; `known` is the endpoint's element, if the caller has it.
  unfoldable pub mark_endpoint : Option I → I → Builder I → Option (Builder I)
  mark_endpoint (some elt) idx b = set_endpoint elt b
  mark_endpoint none idx b = elim (lookup idx b.elements) [
    | none ↦ some b
    | some _ ↦ set_endpoint idx b
  ]

  -- The rest of `reg_endpoint`: the leaves of the node's own tree are told.
  unfoldable pub announce : I → Builder I → Builder I
  announce idx b =
      let ls : List ℤ = leaves b.index b.num_nodes in
      send (map (λ leaf. (leaf, reg_endpoint b.index idx)) ls)
        (record b { produced = b.produced + length ls; consumed = b.consumed + 1 })

  -- `reg_endpoint`.
  unfoldable pub register_endpoint : Option I → I → Builder I → Option (Builder I)
  register_endpoint known idx b = elim b.endpoint [
    | some _ ↦ none
    | none ↦ elim (mark_endpoint known idx (record b { endpoint = some idx })) [
      | none ↦ none
      | some b' ↦ some (announce idx b')
    ]
  ]

  -- Counts one more.
  abbrev pub produce : Builder I → Builder I
  produce b = record b { produced = b.produced + 1 }

  -- `send_upstream`: to the parent node, or, at the root, the element is the endpoint.
  unfoldable pub send_upstream : Option I → ℤ → I → Builder I → Option (Builder I)
  send_upstream known node idx b =
      let up = parent b.index in
      let source : ℤ = elim known [ some _ ↦ b.index | none ↦ node ] in
      let b1 : Option (Builder I) =
        if leb_ℤ (pos 0) up
        then some (send ((up, receive_downstream source idx) ∷ []) b)
        else register_endpoint known idx b in
      elim b1 [ none ↦ none | some b2 ↦ some (produce b2) ]

  -- `reg_upstream`: a child for the element; `send_downstream` is not implemented.
  unfoldable pub reg_upstream : I → Builder I → Option (I × Builder I)
  reg_upstream idx b = elim (find_orphan b.elements b) [
    | none ↦ none
    | some target ↦ elim (put_upstream target idx b) [ none ↦ none | some b' ↦ some (target, b') ]
  ]

  -- `reg_downstream`: a parent for the element, or none as a request was sent.
  unfoldable pub reg_downstream : Option I → ℤ → I → Builder I → Option (Option I × Builder I)
  reg_downstream known node idx b = elim (find_least b.elements b) [
    | none ↦ elim (send_upstream known node idx b) [ none ↦ none | some b' ↦ some (none, b') ]
    | some target ↦ elim (put_downstream target idx b) [
      | none ↦ none
      | some b' ↦ some (some target, b')
    ]
  ]

  -- `receive_downstream`, once a parent has been sought: the child's node is told of it.
  unfoldable pub answer : ℤ → ℤ → Option I × Builder I → Builder I
  answer node mine (some target, b) = send ((node, receive_upstream mine target) ∷ []) b
  answer node mine (none, b) = record b { consumed = b.consumed + 1 }

  -- The entry methods.
  unfoldable pub handle : Call I → Builder I → Option (Builder I)
  handle (receive_upstream node idx) b = elim (reg_upstream idx b) [
    | none ↦ none
    | some (target, b') ↦ some (record b' { consumed = b'.consumed + 1 })
  ]
  handle (receive_downstream node idx) b = elim (reg_downstream none node idx b) [
    | none ↦ none
    | some r ↦ some (answer node b.index r)
  ]
  handle (reg_endpoint node idx) b = register_endpoint none idx b

  -- `is_inserting`.
  unfoldable pub is_inserting : Builder I → Bool
  is_inserting b = elim b.inserting [ none ↦ false | some s ↦ s ]

  -- `associate`, for an element that was created here.
  unfoldable pub associate : I → Builder I → Option (Builder I)
  associate elt b = elim (association_of elt b) [
    | some _ ↦ some b
    | none ↦
        if is_inserting b
        then (let fresh : Association I = record {
          valid_upstream = false;
          upstream = [];
          downstream = [];
        } in
            elim (reg_downstream (some elt) b.index elt (set_association elt fresh b)) [
              | none ↦ none
              | some (none, b') ↦ some b'
              | some (some target, b') ↦ put_upstream elt target b'
            ])
        else none
  ]

  -- `disassociate`.
  unfoldable pub disassociate : I → Builder I → Option (Builder I)
  disassociate elt b = elim (association_of elt b) [
    | none ↦ none
    | some a ↦ if is_inserting b || not a.valid_upstream then none else elim a.upstream [
      | [] ↦ none
      | up ∷ ups ↦
          let asked : List (Request I) = replace_downstream up elt a.downstream ∷ [] in
          let more : List (Request I) = if null a.downstream then [] else forward elt up ∷ [] in
          some (record b { requests = b.requests ++ asked ++ more })
    ]
  ]

  -- `reg_element`.
  unfoldable pub reg_element : I → ℕ → Bool → Builder I → Option (Builder I)
  reg_element elt rank created b =
      let b1 : Option (Builder I) =
        if created
        then associate elt (record b { requests = b.requests ++ stop_forwarding elt ∷ [] })
        else some b in
      elim b1 [
        | none ↦ none
        | some b2 ↦ some (record b2 { elements = insert elt rank b2.elements })
      ]

  -- `unreg_element`.
  unfoldable pub unreg_element : I → Bool → Builder I → Option (Builder I)
  unreg_element elt died b =
      let b1 : Builder I = record b { elements = erase elt b.elements } in
      if died then disassociate elt b1 else some b1

  -- `reg_array`, up to the start-up process, which registers the elements.
  unfoldable pub reg_array : Builder I → Option (Builder I)
  reg_array b =
      if b.registered
      then none
      else some (record b { registered = true; produced = 0; consumed = 0; inserting = some true })

  -- `begin_inserting`.
  unfoldable pub begin_inserting : Builder I → Option (Builder I)
  begin_inserting b = elim b.inserting [
    | none ↦ none
    | some _ ↦ some (record b { inserting = some true })
  ]

  -- `create_child`, on the parent's element: the association of the child.
  unfoldable pub create_child : ℕ → I → I → Builder I → Option (Association I × Builder I)
  create_child rank up child b = elim (lookup up b.elements) [
    | none ↦ none
    | some r ↦ elim (put_downstream up child b) [
      | none ↦ none
      | some b' ↦
          if nat_beq r rank
          then some (record { valid_upstream = true; upstream = up ∷ []; downstream = [] }, b')
          else none
    ]
  ]
