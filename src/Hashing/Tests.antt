-- ===== src/Hashing/Tests.antt =====
-- A ring with a hash that collides: the length of the text.
use mobile_money_simulator.Prelude.{String, ◌≡◌, ◌⊎◌, refl, [], ◌∷◌, some, nat_eq, string_eq}
use mobile_money_simulator.Checkpoint.Tests.{unary, count}
use mobile_money_simulator.Hashing.{ServerNode, ConsistentHash, add_virtual, add_node, get_node}
use mobile_money_simulator.Hashing.Ring.{IsOrdered, get_node-add_node}

abbrev server_1 : ServerNode
server_1 = record { node_id = "s1"; host = "localhost"; port = 8001 }

abbrev server_2 : ServerNode
server_2 = record { node_id = "s2"; host = "localhost"; port = 8002 }

abbrev normalize : String → String
normalize s = s

abbrev ring : ConsistentHash
ring = record {
  virtual_nodes = 2;
  nodes = ("s1", server_1) ∷ [];
  hash_ring = (3, server_1) ∷ (4, server_1) ∷ [];
  sorted_keys = 3 ∷ 4 ∷ [];
}

-- Both keys of the second server collide and are salted.
abbrev larger : ConsistentHash
larger = record {
  virtual_nodes = 2;
  nodes = ("s1", server_1) ∷ ("s2", server_2) ∷ [];
  hash_ring = (3, server_1) ∷ (4, server_1) ∷ (6, server_2) ∷ (7, server_2) ∷ [];
  sorted_keys = 3 ∷ 4 ∷ 6 ∷ 7 ∷ [];
}

added : add_node count unary 5 server_2 ring ≡ some larger
unfolding add_node add_virtual
added = refl

get_node-add_node_example :
    ((get_node count normalize "07112" larger ≡ some server_2)
      ⊎ (get_node count normalize "07112" larger ≡ get_node count normalize "07112" ring))
    × IsOrdered larger
get_node-add_node_example =
    get_node-add_node count unary normalize 5 server_2 ring larger "07112" refl added
