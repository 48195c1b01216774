-- ===== src/Boost.antt =====
-- What the resolve server asks of boost::property_tree, a library that is not part of the repository:
-- a file read as XML, the child at a path, the children in their order with their names, and the
-- string or the int (as its 32-bit pattern) at a path. `none` is a ptree_error that is thrown.
use cpmd.Base.{ℕ, Option, List}

pub record PropertyTree : Type 1 where
  pub Tree : Type 0
  pub read_xml : List ℕ → Option Tree
  pub get_child : List ℕ → Tree → Option Tree
  pub children : Tree → List (List ℕ × Tree)
  pub get_string : List ℕ → Tree → Option (List ℕ)
  pub get_int : List ℕ → Tree → Option ℕ
