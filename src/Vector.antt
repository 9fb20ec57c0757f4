-- ===== src/Vector.antt =====
-- include/utils/vector.h: the singly linked list `Vector`.
--
-- `nodes` is the chain of nodes from `head`, which only the vector itself holds; `[]` is the null pointer.
-- The size is a member of its own, as in the source. Allocations succeed.
use avi_kernel.Base.{
  ℕ, zero, suc, ◌+◌, ◌-◌, Bool, true, false, List, [], ◌∷◌, ◌++◌, ◌==◌, ltb, if◌then◌else◌, none,
  some, Result, panicked, faulted, ok, ◌>>=◌, ◌>>◌, panic_if, or_fault, get_elem?, ℤ, pos, negsuc,
}
pub mod Laws
pub mod Size
pub mod Sorting

pub record Vector (T : Type 0) : Type 0 where
  pub nodes : List T
  pub vector_size : ℕ

module _ {T : Type 0} where
  unfoldable pub empty_vector : Vector T
  empty_vector = record { nodes = []; vector_size = 0 }

  unfoldable pub size : Vector T → ℕ
  size v = v.vector_size

  unfoldable pub empty : Vector T → Bool
  empty v = v.vector_size == 0

  unfoldable pub panic_if_illegal_index : Vector T → ℤ → Result (Unit {0})
  panic_if_illegal_index v (pos index) = panic_if (ltb v.vector_size (index + 1))
  panic_if_illegal_index v (negsuc index) = panicked

  -- The nodes from the one that is `steps` further on.
  unfoldable pub follow : ℕ → List T → Result (List T)
  follow zero nodes = ok nodes
  follow (suc steps) [] = faulted
  follow (suc steps) (x ∷ nodes) = follow steps nodes

  unfoldable pub get_node : Vector T → ℤ → Result (List T)
  unfolding panic_if_illegal_index follow
  get_node v (pos index) = panic_if_illegal_index v (pos index) >> follow index v.nodes
  get_node v (negsuc index) = panic_if_illegal_index v (negsuc index) >> faulted

  -- The data of the first of these nodes.
  unfoldable pub data_of : List T → Result T
  data_of [] = faulted
  data_of (x ∷ nodes) = ok x

  unfoldable pub get : Vector T → ℤ → Result T
  unfolding get_node data_of
  get v index = get_node v index >>= data_of

  -- The chain without the node behind the one that is `steps` further on.
  unfoldable pub unlink_after : ℕ → List T → Result (List T)
  unlink_after zero (x ∷ y ∷ nodes) = ok (x ∷ nodes)
  unlink_after (suc steps) (x ∷ nodes) = unlink_after steps nodes >>= λ rest. ok (x ∷ rest)
  unlink_after steps _ = faulted

  unfoldable pub unlink : ℕ → List T → Result (List T)
  unfolding unlink_after
  unlink zero [] = faulted
  unlink zero (x ∷ nodes) = ok nodes
  unlink (suc index) nodes = unlink_after index nodes

  unfoldable pub remove : Vector T → ℤ → Result (Vector T)
  unfolding panic_if_illegal_index unlink
  remove v (negsuc index) = panic_if_illegal_index v (negsuc index) >> faulted
  remove v (pos index) = do
    panic_if_illegal_index v (pos index)
    nodes ← unlink index v.nodes
    ok (record { nodes = nodes; vector_size = v.vector_size - 1 })

  -- The chain with a node behind its last one.
  unfoldable pub link_last : List T → T → List T
  link_last [] new_data = new_data ∷ []
  link_last (x ∷ nodes) new_data = x ∷ link_last nodes new_data

  unfoldable pub append : Vector T → T → Vector T
  unfolding link_last
  append v new_data = record { nodes = link_last v.nodes new_data; vector_size = v.vector_size + 1 }

  unfoldable pub append_from : ℕ → ℕ → Vector T → Vector T → Result (Vector T)
  unfolding get append
  append_from zero i other v = ok v
  append_from (suc rounds) i other v =
      get other (pos i) >>= λ element. append_from rounds (i + 1) other (append v element)

  unfoldable pub append_vector : Vector T → Vector T → Result (Vector T)
  unfolding append_from size
  append_vector v other = append_from (size other) 0 other v

  unfoldable pub assign : Vector T → Vector T → Result (Vector T)
  unfolding append_vector empty_vector
  assign v other = append_vector empty_vector other

  -- The chain without its last node, where it has two nodes or more.
  unfoldable pub unlink_last : List T → Result (List T)
  unlink_last [] = faulted
  unlink_last (x ∷ []) = faulted
  unlink_last (x ∷ y ∷ []) = ok (x ∷ [])
  unlink_last (x ∷ y ∷ z ∷ nodes) = unlink_last (y ∷ z ∷ nodes) >>= λ rest. ok (x ∷ rest)

  unfoldable pub pop_back : Vector T → Result (Vector T)
  unfolding empty size unlink_last empty_vector
  pop_back v =
      if empty v
      then panicked
      else if size v == 1
      then ok empty_vector
      else unlink_last v.nodes >>= λ nodes.
          ok (record { nodes = nodes; vector_size = v.vector_size - 1 })

  module _ (equal : T → T → Bool) where
    unfoldable pub exist_from : ℕ → ℕ → Vector T → T → Result Bool
    unfolding get
    exist_from zero i v obj = ok false
    exist_from (suc rounds) i v obj = get v (pos i) >>= λ element.
        let rest = exist_from rounds (i + 1) v obj in if equal element obj then ok true else rest

    unfoldable pub exist : Vector T → T → Result Bool
    unfolding exist_from size
    exist v obj = exist_from (size v) 0 v obj

  module _ (compare : T → T → Bool) where
    -- The node goes in front of the first of the sorted area that compares greater, and else stays
    -- behind them.
    unfoldable pub place_node : T → List T → List T
    place_node x [] = x ∷ []
    place_node x (y ∷ sorted_area) =
        let rest = place_node x sorted_area in if compare y x then x ∷ y ∷ sorted_area else y ∷ rest

    -- The sorted area and the nodes from the iterator on.
    unfoldable pub sort_from : List T → List T → List T
    unfolding place_node
    sort_from sorted_area [] = sorted_area
    sort_from sorted_area (x ∷ nodes) = sort_from (place_node x sorted_area) nodes

    unfoldable pub sort : Vector T → Vector T
    unfolding sort_from
    sort v = record v { nodes = sort_from [] v.nodes }
