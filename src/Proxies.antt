-- ===== src/Proxies.antt =====
-- include/hypercomm/core/proxy.hpp and the hashes of include/hypercomm/utilities/hash.hpp: proxies
-- of single chares, arrays, array elements and members of groups and node groups.
-- The runtime is not part of the repository: what the source asks of it is the record `Runtime`,
-- and what it relies on is `IsRuntime`. Pointers are numbers, null is 0.
pub mod Hashes
pub mod Equality
mod Tests
use hypercomm.Base.{
  ℕ, zero, suc, Bool, true, false, ◌&&◌, Option, none, some, leb, nat_beq, if◌then◌else◌, ◌≡◌, ◌↔◌,
  ◌<◌,
}

-- `CkChareID`.
pub record ChareId : Type 0 where
  pub on_pe : ℕ
  pub obj_ptr : ℕ

-- `CkArrayIndex`: the number of words in use, the number of dimensions, and the words.
pub record ArrayIndex : Type 0 where
  pub n_ints : ℕ
  pub dimension : ℕ
  pub word : ℕ → ℕ

-- A proxy of a group's or node group's member: the group's identifier, and the PE or node.
pub record Member : Type 0 where
  pub gid : ℕ
  pub pe : ℕ

-- The subclasses of `proxy`.
pub data Proxy : Type 0 where
  chare_proxy : ChareId → Proxy
  array_proxy : ℕ → Proxy
  array_element_proxy : ℕ → ArrayIndex → Proxy
  group_element_proxy : Member → Proxy
  nodegroup_element_proxy : Member → Proxy

-- `ChareType` of the runtime.
pub data ChareType : Type 0 where
  type_chare : ChareType
  type_group : ChareType
  type_node_group : ChareType
  type_array : ChareType

-- The runtime as a chare on a certain PE sees it, with the comparisons of its proxies.
pub record Runtime : Type 0 where
  pub my_pe : ℕ
  pub my_node : ℕ
  pub home_pe : ℕ → ArrayIndex → ℕ
  pub last_known_pe : ℕ → ArrayIndex → ℕ
  pub lookup_element : ℕ → ArrayIndex → ℕ
  pub array_branch : ℕ → ℕ
  pub chare_objs : ℕ
  pub local_chare : ChareId → ℕ
  pub local_branch : ℕ → ℕ
  pub local_node_branch : ℕ → ℕ
  pub same_array : ℕ → ℕ → Bool
  pub same_member : Member → Member → Bool

-- `CK_ARRAYINDEX_MAXLEN` words are compared, the dimension is not.
unfoldable pub same_words : ℕ → (ℕ → ℕ) → (ℕ → ℕ) → Bool
same_words zero ours theirs = true
same_words (suc n) ours theirs = same_words n ours theirs && nat_beq (ours n) (theirs n)

-- The runtime's comparisons decide equality, and its array managers look at what an index holds:
-- they treat two indices alike that have the same size, dimension and words.
pub record IsRuntime (max_len : ℕ) (rt : Runtime) : Type 0 where
  pub same_array_iff : (a b : ℕ) → (rt.same_array a b ≡ true) ↔ (a ≡ b)
  pub same_member_iff : (a b : Member) → (rt.same_member a b ≡ true) ↔ (a ≡ b)
  pub by_contents :
      (id : ℕ) (i j : ArrayIndex)
      → i.n_ints ≡ j.n_ints
      → i.dimension ≡ j.dimension
      → ((k : ℕ) → k < max_len → i.word k ≡ j.word k)
      → (rt.home_pe id i ≡ rt.home_pe id j)
        × (rt.last_known_pe id i ≡ rt.last_known_pe id j)
        × (rt.lookup_element id i ≡ rt.lookup_element id j)

abbrev pub grouplike_type : Bool → ChareType
grouplike_type is_node = if is_node then type_node_group else type_group

-- `type`.
unfoldable pub type_of : Proxy → ChareType
type_of (chare_proxy id) = type_chare
type_of (array_proxy id) = type_array
type_of (array_element_proxy id idx) = type_array
type_of (group_element_proxy m) = grouplike_type false
type_of (nodegroup_element_proxy m) = grouplike_type true

-- `node_level`.
unfoldable pub node_level : Proxy → Bool
node_level (nodegroup_element_proxy m) = true
node_level _ = false

-- `element_at`, the operator [] of an array's proxy.
unfoldable pub element_at : ℕ → ArrayIndex → Proxy
element_at id idx = array_element_proxy id idx

-- `collection` of an element; that of a group's member is not implemented, and throws.
unfoldable pub collection : Proxy → Option Proxy
collection (array_element_proxy id idx) = some (array_proxy id)
collection _ = none

-- The comparisons of each class.
abbrev pub equal_chares : ChareId → ChareId → Bool
equal_chares ours theirs = nat_beq ours.on_pe theirs.on_pe && nat_beq ours.obj_ptr theirs.obj_ptr

abbrev pub equal_elements : ℕ → ℕ → ArrayIndex → ℕ → ArrayIndex → Bool
equal_elements max_len id idx id' idx' =
    if nat_beq id' id then same_words max_len idx.word idx'.word else false

abbrev pub equal_members : Runtime → Member → Member → Bool
equal_members rt ours theirs = rt.same_member ours theirs

-- `equals`: a proxy of another class is another proxy.
unfoldable pub equals : ℕ → Runtime → Proxy → Proxy → Bool
equals max_len rt (chare_proxy ours) (chare_proxy theirs) = equal_chares ours theirs
equals max_len rt (array_proxy ours) (array_proxy theirs) = rt.same_array ours theirs
equals max_len rt (array_element_proxy id idx) (array_element_proxy id' idx') =
    equal_elements max_len id idx id' idx'
equals max_len rt (group_element_proxy ours) (group_element_proxy theirs) =
    equal_members rt ours theirs
equals max_len rt (nodegroup_element_proxy ours) (nodegroup_element_proxy theirs) =
    equal_members rt ours theirs
equals _ _ _ _ = false

module _ (rt : Runtime) where
  -- `home`; a whole array has none.
  unfoldable pub home : Proxy → Option ℕ
  home (chare_proxy id) = some id.on_pe
  home (array_proxy id) = none
  home (array_element_proxy id idx) = some (rt.home_pe id idx)
  home (group_element_proxy m) = some m.pe
  home (nodegroup_element_proxy m) = some m.pe

  -- `last_known`: chares that cannot migrate are at home.
  unfoldable pub last_known : Proxy → Option ℕ
  unfolding home
  last_known (array_element_proxy id idx) = some (rt.last_known_pe id idx)
  last_known p = home p

  -- `located_chare::path`: where a message for the chare goes from here, and whether that is a node.
  unfoldable pub path : Proxy → Option (ℕ × Bool)
  path p =
      let mine = if node_level p then rt.my_node else rt.my_pe in
      elim (home p) [
        | none ↦ none
        | some at_home ↦ elim (last_known p) [
          | none ↦ none
          | some last ↦ some (if nat_beq at_home mine then last else at_home, node_level p)
        ]
      ]

  -- A chare of this PE, by its pointer, or by its position in the table of virtual chares.
  abbrev pub local_object : ChareId → ℕ
  local_object id =
      if nat_beq id.on_pe rt.my_pe
      then (if leb rt.chare_objs id.obj_ptr then id.obj_ptr else rt.local_chare id)
      else 0

  abbrev pub local_member : Bool → Member → ℕ
  local_member is_node m =
      if is_node
      then (if nat_beq m.pe rt.my_node then rt.local_node_branch m.gid else 0)
      else (if nat_beq m.pe rt.my_pe then rt.local_branch m.gid else 0)

  -- `local`: the object, if it is here.
  unfoldable pub local : Proxy → ℕ
  local (chare_proxy id) = local_object id
  local (array_proxy id) = rt.array_branch id
  local (array_element_proxy id idx) = rt.lookup_element id idx
  local (group_element_proxy m) = local_member false m
  local (nodegroup_element_proxy m) = local_member true m
