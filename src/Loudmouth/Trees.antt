-- ===== src/Loudmouth/Trees.antt =====
-- Nodes as trees, with the functions of Loudmouth that read them.
use irssi_xmpp.Prelude.{Option, none, some, List, [], ◌∷◌, if◌then◌else◌, find_first}
use irssi_xmpp.Prelude.Str.{Str, str_eq}
use irssi_xmpp.Loudmouth.{Loudmouth}

mutual
  pub data Tree : Type 0 where
    node : Str → Option Str → List (Str × Str) → Forest → Tree

  pub data Forest : Type 0 where
    leaf : Forest
    sprout : Tree → Forest → Forest

abbrev pub trees : Forest → List Tree
trees leaf = []
trees (sprout t f) = t ∷ trees f

abbrev pub name_of : Tree → Str
name_of (node name value attributes f) = name

abbrev pub value_of : Tree → Option Str
value_of (node name value attributes f) = value

abbrev pub children_of : Tree → List Tree
children_of (node name value attributes f) = trees f

abbrev pub attribute : List (Str × Str) → Str → Option Str
unfolding str_eq
attribute [] name = none
attribute ((n, v) ∷ l) name = let rest = attribute l name in if str_eq n name then some v else rest

abbrev pub attribute_of : Tree → Str → Option Str
attribute_of (node name value attributes f) n = attribute attributes n

abbrev pub child_of : Tree → Str → Option Tree
unfolding find_first str_eq
child_of t name = find_first (λ c. str_eq (name_of c) name) (children_of t)

abbrev pub tree_nodes : Loudmouth
tree_nodes = record {
  Node = Tree;
  name = name_of;
  value = value_of;
  children = children_of;
  get_attribute = attribute_of;
  get_child = child_of;
}
