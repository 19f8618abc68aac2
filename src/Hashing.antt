-- ===== src/Hashing.antt =====
-- src/distributed/hashing.py: the ring of `ConsistentHash`.
-- The hash of a text and the text of a number are arguments. The positions of the ring are a dict
-- from a position to its node; `sorted_keys` is the list of its keys in order. `keys` of virtual
-- nodes that collide are salted again until a position is free: `add_node` takes the number of
-- salts to try at most. Log lines are left out.
pub mod Ring
mod Tests
use mobile_money_simulator.Prelude.{
  ℕ, zero, suc, ◌+◌, String, Bool, true, false, not, ◌&&◌, ◌||◌, List, [], ◌∷◌, ◌++◌, Option, none,
  some, ltb, leb, length, if◌then◌else◌, elem, nat_eq, string_eq,
}
use mobile_money_simulator.Prelude.Sort.{sort_by}
use mobile_money_simulator.Dict.{Dict, lookup, contains, insert, erase, keys, values}
use Prim.Native.String.{◌++◌ as ◌++ₛ◌}

pub record ServerNode : Type 0 where
  pub node_id : String
  pub host : String
  pub port : ℕ

pub record ConsistentHash : Type 0 where
  pub virtual_nodes : ℕ
  pub nodes : Dict String ServerNode
  pub hash_ring : Dict ℕ ServerNode
  pub sorted_keys : List ℕ

abbrev pub sorted : List ℕ → List ℕ
sorted ks = sort_by (λ k. k) ks

unfoldable pub new_ring : ℕ → ConsistentHash
new_ring virtual_nodes = record {
  virtual_nodes = virtual_nodes;
  nodes = [];
  hash_ring = [];
  sorted_keys = [];
}

module _ (hash : String → ℕ) (str : ℕ → String) where
  abbrev pub virtual_key : String → ℕ → String
  virtual_key node_id i = node_id ++ₛ (":" ++ₛ str i)

  abbrev pub salted_key : String → ℕ → String
  salted_key key salt = key ++ₛ (":c" ++ₛ str salt)

  -- The loop that salts a key until its position is free; nothing when the tries are used up.
  abbrev pub free_position : ℕ → String → ℕ → ℕ → Dict ℕ ServerNode → Option ℕ
  free_position zero key salt hash_pos ring = if contains hash_pos ring then none else some hash_pos
  free_position (suc tries) key salt hash_pos ring =
      let next = free_position tries key (salt + 1) (hash (salted_key key (salt + 1))) ring in
      if contains hash_pos ring then next else some hash_pos

  -- The virtual nodes `i`, `i + 1`, …, as many as `count`.
  abbrev pub place : Option ℕ → ServerNode → Dict ℕ ServerNode → Option (Dict ℕ ServerNode)
  place none node ring = none
  place (some hash_pos) node ring = some (insert hash_pos node ring)

  abbrev pub and_then :
      Option (Dict ℕ ServerNode)
      → (Dict ℕ ServerNode → Option (Dict ℕ ServerNode))
      → Option (Dict ℕ ServerNode)
  and_then none f = none
  and_then (some ring) f = f ring

  unfoldable pub add_virtual :
      ℕ → ℕ → ℕ → ServerNode → Dict ℕ ServerNode → Option (Dict ℕ ServerNode)
  add_virtual tries zero i node ring = some ring
  add_virtual tries (suc count) i node ring =
      let key = virtual_key node.node_id i in
      and_then (place (free_position tries key 0 (hash key) ring) node ring)
        (λ ring'. add_virtual tries count (i + 1) node ring')

  -- The new state, or nothing where the salting would go on after all tries.
  abbrev pub with_ring :
      Option (Dict ℕ ServerNode) → ServerNode → ConsistentHash → Option ConsistentHash
  with_ring none node r = none
  with_ring (some ring) node r = some (record r {
    nodes = insert node.node_id node r.nodes;
    hash_ring = ring;
    sorted_keys = sorted (keys ring);
  })

  unfoldable pub add_node : ℕ → ServerNode → ConsistentHash → Option ConsistentHash
  unfolding add_virtual
  add_node tries node r =
      if contains node.node_id r.nodes
      then some r
      else with_ring (add_virtual tries r.virtual_nodes 0 node r.hash_ring) node r

  -- The positions of the unsalted keys, whoever has them.
  abbrev pub remove_virtual : ℕ → ℕ → String → Dict ℕ ServerNode → Dict ℕ ServerNode
  remove_virtual zero i node_id ring = ring
  remove_virtual (suc count) i node_id ring =
      remove_virtual count (i + 1) node_id (erase (hash (virtual_key node_id i)) ring)

  unfoldable pub remove_node : String → ConsistentHash → ConsistentHash
  remove_node node_id r =
      let ring = remove_virtual r.virtual_nodes 0 node_id r.hash_ring in
      if contains node_id r.nodes
      then record r {
        nodes = erase node_id r.nodes;
        hash_ring = ring;
        sorted_keys = sorted (keys ring);
      }
      else r

-- The element at `bisect_right`: the first key after a position, if there is one.
abbrev pub key_after : ℕ → List ℕ → Option ℕ
key_after hash_pos [] = none
key_after hash_pos (k ∷ ks) =
    let rest = key_after hash_pos ks in if ltb hash_pos k then some k else rest

abbrev pub first_key : List ℕ → Option ℕ
first_key [] = none
first_key (k ∷ ks) = some k

-- At the end of the list the search wraps around to its first key.
abbrev pub or_first : Option ℕ → List ℕ → Option ℕ
or_first none ks = first_key ks
or_first (some k) ks = some k

abbrev pub node_at : Option ℕ → Dict ℕ ServerNode → Option ServerNode
node_at none ring = none
node_at (some k) ring = lookup k ring

-- The node of a position, from the sorted keys and the ring.
abbrev pub owner : ℕ → List ℕ → Dict ℕ ServerNode → Option ServerNode
owner hash_pos ks ring = node_at (or_first (key_after hash_pos ks) ks) ring

module _ (hash : String → ℕ) (normalize : String → String) where
  unfoldable pub get_node : String → ConsistentHash → Option ServerNode
  get_node key r = owner (hash (normalize key)) r.sorted_keys r.hash_ring

  -- `ServerDiscovery.find_server_for_phone`
  unfoldable pub find_server_for_phone : String → ConsistentHash → Option ServerNode
  unfolding get_node
  find_server_for_phone phone_number r = get_node phone_number r

unfoldable pub get_all_nodes : ConsistentHash → List ServerNode
get_all_nodes r = values r.nodes

-- `RendezvousHash`: the node with the highest score; of equal scores the first one counts.
pub record RendezvousHash : Type 0 where
  pub nodes : Dict String ServerNode

unfoldable pub add_rendezvous : ServerNode → RendezvousHash → RendezvousHash
add_rendezvous node r = record { nodes = insert node.node_id node r.nodes }

unfoldable pub remove_rendezvous : String → RendezvousHash → RendezvousHash
remove_rendezvous node_id r =
    if contains node_id r.nodes then record { nodes = erase node_id r.nodes } else r

module _ (score : String → String → ℕ) (normalize : String → String) where
  -- The loop, with the best node so far and one more than its score.
  abbrev pub best_of : String → Dict String ServerNode → ℕ → Option ServerNode → Option ServerNode
  best_of key [] bound best = best
  best_of key ((node_id, node) ∷ rest) bound best =
      let s = score key node_id in
      if leb bound s then best_of key rest (suc s) (some node) else best_of key rest bound best

  unfoldable pub get_rendezvous_node : String → RendezvousHash → Option ServerNode
  get_rendezvous_node key r = best_of (normalize key) r.nodes 0 none
