-- ===== src/Quiescence/Reading.antt =====
-- ReadQuiescence, OpenQuiescence and Quiet of member/consensus/quiescence.go.
use arbiter_core.Quiescence.{
  QuiescentTable, table_eq, table_ord, QuiescenceBlock, QuiescenceFile, quiescence_version,
  QuiescenceError, Quiescence, bad_version, missing_blocks, bad_block, bad_table, unordered_tables,
}
use arbiter_core.Base.{
  ℕ, Bool, true, false, Option, none, some, List, [], ◌∷◌, Bytes, list_eq, nat_eq, list_ord,
  nat_ord, leb, ◌==◌, if◌then◌else◌, Result, ok, err, length, contains, ◌&&◌, ◌||◌, not, is_less,
}

-- strings.TrimSpace(s) == "", over the UTF-8 of Unicode's white space: the bytes that a character
-- has left are the state, 0 between characters.
unfoldable pub blank_step : ℕ → ℕ → Option ℕ
blank_step state c =
    if state == 0
    then (if (leb 9 c && leb c 13) || c == 32
        then some 0
        else if c == 194 || c == 225 || c == 226 || c == 227
        then some c
        else none)
    else if state == 194
    then (if c == 133 || c == 160 then some 0 else none)
    else if state == 225
    then (if c == 154 then some 1 else none)
    else if state == 1
    then (if c == 128 then some 0 else none)
    else if state == 226
    then (if c == 128 then some 2 else if c == 129 then some 3 else none)
    else if state == 2
    then (if (leb 128 c && leb c 138) || c == 168 || c == 169 || c == 175 then some 0 else none)
    else if state == 3
    then (if c == 159 then some 0 else none)
    else if state == 227
    then (if c == 128 then some 1 else none)
    else none

unfoldable pub is_blank_from : ℕ → Bytes → Bool
is_blank_from state [] = state == 0
is_blank_from state (c ∷ cs) = elim (blank_step state c) [
  | none ↦ false
  | some next ↦ is_blank_from next cs
]

-- A table record that ReadQuiescence accepts.
unfoldable pub is_table : QuiescentTable → Bool
is_table t = not (is_blank_from 0 t.table_id) && not (t.incarnation_seq == 0)

unfoldable pub check_tables : List QuiescentTable → Option QuiescenceError
check_tables [] = none
check_tables (t ∷ []) = if is_table t then none else some bad_table
check_tables (t ∷ u ∷ tables) =
    let rest = check_tables (u ∷ tables) in
    if is_table t
    then (if is_less (table_ord.cmp t u)
        then rest
        else if is_table u
        then some unordered_tables
        else some bad_table)
    else some bad_table

unfoldable pub check_blocks : ℕ → List QuiescenceBlock → Option QuiescenceError
check_blocks prior [] = none
check_blocks prior (b ∷ blocks) =
    let rest = check_blocks b.block_seq blocks in
    if b.block_seq == 0 || leb b.block_seq prior || length b.tables == 0
    then some bad_block
    else elim (check_tables b.tables) [ some e ↦ some e | none ↦ rest ]

unfoldable pub read_quiescence :
    Option QuiescenceFile → Result QuiescenceError (List QuiescenceBlock)
read_quiescence none = ok []
read_quiescence (some f) =
    if not (f.version == quiescence_version) then err bad_version else elim f.blocks [
      | none ↦ err missing_blocks
      | some blocks ↦ elim (check_blocks 0 blocks) [ some e ↦ err e | none ↦ ok blocks ]
    ]

unfoldable pub open_quiescence : Option QuiescenceFile → Result QuiescenceError Quiescence
open_quiescence file = elim (read_quiescence file) [
  | err e ↦ err e
  | ok blocks ↦ ok (record { blocks = blocks; observations = []; allocated = 0; file = file })
]

unfoldable pub quiet : List QuiescenceBlock → Bytes → ℕ → Bool
quiet [] table_id incarnation = true
quiet (b ∷ blocks) table_id incarnation =
    let rest = quiet blocks table_id incarnation in
    if contains (record { table_id = table_id; incarnation_seq = incarnation }) b.tables
    then false
    else rest
