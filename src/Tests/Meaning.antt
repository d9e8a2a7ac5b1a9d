-- ===== src/Tests/Meaning.antt =====
-- The theorems on what ledger operations mean, applied to a path of a field and a map key.
use minocrab.Prelude.{ℕ, ◌≡◌, refl, String, true, false, List, [], ◌∷◌, ◌++◌, arith, err}
use minocrab.Ledger.Fab.{bytes, AlignedValue, Key, null, cell, array, nil, cons, Op}
use minocrab.Ledger.Impact.{LedgerKey, field_key, value_key}
use minocrab.Ledger.Ops.{
  cell_write_at, map_insert_coin_at, list_push_front_at, merkle_tree_insert_index_at,
  cell_extremum_at, cell_write_first_at,
}
use minocrab.Ledger.Kernel.{kernel_effect_add}
use minocrab.Ledger.Meaning.{Means}
use minocrab.Ledger.Meaning.Elements.{CarriesPath, CarriesKey}
use minocrab.Ledger.Meaning.Cells.{enter, leave, qualify_ops, cell_write_at-Means}
use minocrab.Ledger.Meaning.Collections.{map_insert_coin_at-Means, map_insert_coin_at-deep}
use minocrab.Ledger.Meaning.Structures.{list_push_front_at-Means, merkle_tree_insert_index_at-Means}
use minocrab.Ledger.Meaning.Blind.{cell_extremum_at-Means, cell_write_first_at-Means}
use minocrab.Ledger.Meaning.Kernel.{kernel_effect_add-Means}
use minocrab.Tests.Instance.{nat_ops, nat_laws}
use minocrab.Tests.Ledger.{
  nat_fab, nat_fab_laws, wire_value, cell_value, carried, cell_value-IsValue,
}

abbrev pub field_three : List (LedgerKey ℕ ℕ)
field_three = field_key 3 ∷ []

abbrev pub byte : ℕ → AlignedValue
byte i = record { value = (i ∷ []) ∷ []; alignment = bytes 1 ∷ [] }

abbrev pub nested : List (LedgerKey ℕ ℕ)
nested = field_key 3 ∷ value_key cell_value ∷ []

abbrev pub three : Key
three = Key.value (byte 3)

abbrev pub seven : Key
seven = Key.value carried

pub field_three-Path :
    CarriesPath nat_ops nat_fab nat_laws nat_fab_laws wire_value field_three (three ∷ [])
unfolding nat_fab_laws
field_three-Path = ((omega arith, refl), tt)

pub nested-Path :
    CarriesPath nat_ops nat_fab nat_laws nat_fab_laws wire_value nested (three ∷ seven ∷ [])
unfolding nat_fab_laws
nested-Path = ((omega arith, refl), ((carried, cell_value-IsValue, refl), tt))

field_three-Key : CarriesKey nat_ops nat_fab nat_laws nat_fab_laws wire_value (field_key 3) three
unfolding nat_fab_laws
field_three-Key = (omega arith, refl)

pub value-Key :
    CarriesKey nat_ops nat_fab nat_laws nat_fab_laws wire_value (value_key cell_value) seven
value-Key = (carried, cell_value-IsValue, refl)

cell_write_at-Means_example :
    Means nat_ops nat_fab nat_laws wire_value
      (cell_write_at nat_ops nat_fab (field_three ++ value_key cell_value ∷ []) cell_value)
      (enter (three ∷ [])
        ++ ((Op.push false (cell carried) ∷ Op.push true (cell carried) ∷ Op.ins false 1 ∷ [])
            ++ leave 1))
      []
cell_write_at-Means_example =
    cell_write_at-Means nat_ops nat_fab nat_laws nat_fab_laws wire_value field_three
      (value_key cell_value) cell_value (three ∷ []) carried carried field_three-Path value-Key
      cell_value-IsValue (omega arith)

map_insert_coin_at-Means_example :
    Means nat_ops nat_fab nat_laws wire_value
      (map_insert_coin_at nat_ops nat_fab nested cell_value cell_value cell_value)
      ((Op.idx false true (three ∷ seven ∷ []) ∷ Op.push false (cell carried) ∷ [])
        ++ (qualify_ops nat_ops nat_fab nat_laws nat_fab_laws wire_value 7 carried carried
            ++ (Op.ins false 1 ∷ Op.ins true 2 ∷ [])))
      []
map_insert_coin_at-Means_example =
    map_insert_coin_at-Means nat_ops nat_fab nat_laws nat_fab_laws wire_value nested
      (three ∷ seven ∷ []) nested-Path (omega arith) cell_value cell_value cell_value carried
      carried carried cell_value-IsValue cell_value-IsValue cell_value-IsValue (omega arith)

abbrev deep : List (LedgerKey ℕ ℕ)
deep =
    field_key 0
    ∷ field_key 1
    ∷ field_key 2
    ∷ field_key 3
    ∷ field_key 4
    ∷ field_key 5
    ∷ field_key 6
    ∷ []

map_insert_coin_at-deep_example :
    (e : String) × (map_insert_coin_at nat_ops nat_fab deep cell_value cell_value cell_value
      ≡ err e)
map_insert_coin_at-deep_example =
    map_insert_coin_at-deep nat_ops nat_fab nat_laws nat_fab_laws wire_value deep cell_value
      cell_value cell_value (omega arith)

list_push_front_at-Means_example :
    Means nat_ops nat_fab nat_laws wire_value
      (list_push_front_at nat_ops nat_fab nested cell_value)
      (Op.idx false true (three ∷ seven ∷ [])
        ∷ Op.dup 0
        ∷ Op.idx false false (Key.value (byte 2) ∷ [])
        ∷ Op.addi 1
        ∷ Op.push true (array (cons (cell carried) (cons null (cons null nil))))
        ∷ Op.swap 0
        ∷ Op.push false (cell (byte 2))
        ∷ Op.swap 0
        ∷ Op.ins true 1
        ∷ Op.swap 0
        ∷ Op.push false (cell (byte 1))
        ∷ Op.swap 0
        ∷ Op.ins true 3
        ∷ [])
      []
unfolding nat_fab_laws
list_push_front_at-Means_example =
    list_push_front_at-Means nat_ops nat_fab nat_laws nat_fab_laws wire_value nested
      (three ∷ seven ∷ []) nested-Path (omega arith) (omega arith) cell_value carried
      cell_value-IsValue

merkle_tree_insert_index_at-Means_example :
    Means nat_ops nat_fab nat_laws wire_value
      (merkle_tree_insert_index_at nat_ops nat_fab nested cell_value cell_value)
      (Op.idx false true (three ∷ seven ∷ [])
        ∷ Op.idx false true (Key.value (byte 0) ∷ [])
        ∷ Op.push false (cell carried)
        ∷ Op.push true (cell carried)
        ∷ Op.ins false 2
        ∷ Op.idx false true (Key.value (byte 1) ∷ [])
        ∷ Op.push false (cell carried)
        ∷ Op.addi 1
        ∷ Op.dup 1
        ∷ Op.dup 1
        ∷ Op.lt
        ∷ Op.branch 2
        ∷ Op.pop
        ∷ Op.jmp 2
        ∷ Op.swap 0
        ∷ Op.pop
        ∷ Op.ins false 1
        ∷ Op.ins true 2
        ∷ [])
      []
unfolding nat_fab_laws
merkle_tree_insert_index_at-Means_example =
    merkle_tree_insert_index_at-Means nat_ops nat_fab nat_laws nat_fab_laws wire_value nested
      (three ∷ seven ∷ []) nested-Path (omega arith) (omega arith) cell_value cell_value carried
      carried cell_value-IsValue cell_value-IsValue

cell_extremum_at-Means_example :
    Means nat_ops nat_fab nat_laws wire_value
      (cell_extremum_at nat_ops nat_fab nested cell_value true)
      ((Op.idx false true (three ∷ seven ∷ [])
          ∷ Op.push true (cell carried)
          ∷ Op.dup 1
          ∷ Op.dup 1
          ∷ Op.lt
          ∷ [])
        ++ ((Op.neg ∷ [])
            ++ (Op.branch 3 ∷ Op.swap 0 ∷ Op.pop ∷ Op.jmp 1 ∷ Op.pop ∷ Op.ins true 2 ∷ [])))
      []
cell_extremum_at-Means_example =
    cell_extremum_at-Means nat_ops nat_fab nat_laws nat_fab_laws wire_value nested
      (three ∷ seven ∷ []) cell_value carried true nested-Path (omega arith) (omega arith)
      cell_value-IsValue

cell_write_first_at-Means_example :
    Means nat_ops nat_fab nat_laws wire_value
      (cell_write_first_at nat_ops nat_fab
        (field_three ++ value_key cell_value ∷ [])
        ([] ++ field_key 3 ∷ [])
        cell_value)
      ((Op.dup 0 ∷ Op.idx false false (three ∷ []) ∷ Op.branch 8 ∷ [])
        ++ ((Op.idx false true (three ∷ [])
              ∷ Op.push false (cell carried)
              ∷ Op.push true (cell carried)
              ∷ Op.ins false 1
              ∷ Op.ins true 1
              ∷ [])
            ++ (Op.push false (cell (byte 3))
                ∷ Op.push true (cell (byte 1))
                ∷ Op.ins false 1
                ∷ [])))
      []
unfolding nat_fab_laws
cell_write_first_at-Means_example =
    cell_write_first_at-Means nat_ops nat_fab nat_laws nat_fab_laws wire_value field_three
      (value_key cell_value) (three ∷ []) carried [] (field_key 3) [] (three ∷ []) (byte 3)
      cell_value carried field_three-Path value-Key (omega arith) tt field_three-Key (omega arith)
      field_three-Path cell_value-IsValue

kernel_effect_add-Means_example :
    Means nat_ops nat_fab nat_laws wire_value
      (kernel_effect_add nat_ops nat_fab 4 cell_value cell_value)
      (Op.swap 0
        ∷ Op.idx true true (Key.value (byte 4) ∷ [])
        ∷ Op.push false (cell carried)
        ∷ Op.dup 1
        ∷ Op.dup 1
        ∷ Op.member
        ∷ Op.push false (cell carried)
        ∷ Op.swap 0
        ∷ Op.neg
        ∷ Op.branch 4
        ∷ Op.dup 2
        ∷ Op.dup 2
        ∷ Op.idx true false (Key.stack ∷ [])
        ∷ Op.add
        ∷ Op.ins true 2
        ∷ Op.swap 0
        ∷ [])
      []
unfolding nat_fab_laws
kernel_effect_add-Means_example =
    kernel_effect_add-Means nat_ops nat_fab nat_laws nat_fab_laws wire_value 4 cell_value cell_value
      carried carried (omega arith) cell_value-IsValue cell_value-IsValue
