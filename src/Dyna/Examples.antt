-- ===== src/Dyna/Examples.antt =====
-- A list of two items, at the addresses 16 and 32, and the operations on it.
use web_tester.Prelude.{
  ℕ, ◌≡◌, ℤ, false, sub_ℕ, refl, true, none, some, List, [], ◌∷◌, pos, ◌==◌, if◌then◌else◌, arith,
}
use web_tester.Dyna.Memory.{null, Memory}
use web_tester.Dyna.Ops.{Handle, delete, delete_all, sort}
use web_tester.Dyna.Shape.{Returns, Node, has, cell, IsDyna, SameOutside}
use web_tester.Dyna.Delete.{Stands, Gone, delete-removes}
use web_tester.Dyna.Passes.{Payload, gt}
use web_tester.Dyna.Sort.{Sorted, sort-Sorted}
use web_tester.Dyna.Walk.{called_all, delete_all-clears}

abbrev one : Node
one = record { at = 16; item = 5; tag = 0 }

abbrev two : Node
two = record { at = 32; item = 6; tag = 1 }

abbrev pub two_items : List Node
two_items = one ∷ two ∷ []

abbrev pub memory : Memory
memory = record {
  cells = λ a.
      if a == 16
      then some (cell null one 32)
      else if a == 32
      then some (cell 16 two null)
      else none;
  calls = [];
}

abbrev pub handle : Handle
handle = record { head = 16; tail = 32; find_data = null; count = pos 2 }

pub memory-IsDyna : IsDyna memory.cells handle two_items
memory-IsDyna = record {
  head = refl;
  tail = refl;
  count = refl;
  distinct = (omega arith, refl, (omega arith, refl, tt));
  linked = (refl, (refl, tt));
}

delete-removes_example :
    Returns
      (λ (r, t) n. (r ≡ pos 0) × Stands n.cells t (one ∷ []) × Gone memory n (one ∷ []) two [] 9)
      (delete (some handle) 32 9 memory)
delete-removes_example = delete-removes memory handle (one ∷ []) two [] 9 memory-IsDyna

delete_all-clears_example :
    Returns
      (λ (r, t) n.
        (r ≡ pos 0)
        × Stands n.cells t []
        × ((a : ℕ) → has a two_items ≡ true → n.cells a ≡ none)
        × SameOutside two_items memory.cells n.cells
        × (n.calls ≡ called_all 9 two_items []))
      (delete_all (some handle) 9 memory)
delete_all-clears_example = delete_all-clears memory handle two_items 9 memory-IsDyna

-- From the greatest data to the least.
abbrev descending : ℕ → ℕ → ℤ
descending a b = sub_ℕ b a

descending_asym : (d e : Payload) → gt descending d e ≡ true → gt descending e d ≡ false
descending_asym d e h = ground arith

descending_trans :
    (d e f : Payload)
    → gt descending d e ≡ false
    → gt descending e f ≡ false
    → gt descending d f ≡ false
descending_trans d e f h k = ground arith

sort-Sorted_example :
    Returns
      (λ u n. Sorted descending memory handle two_items n)
      (sort (some handle) descending memory)
sort-Sorted_example =
    sort-Sorted descending memory handle two_items descending_asym descending_trans memory-IsDyna
