-- ===== src/Board/Cuckoo.antt =====
-- crates/rfish-engine/src/board/cuckoo.rs: the two hashes, the tables, the insertion walk and the lookup.
-- An array is the function of its indices.
pub mod Insertion
use rfish.Prelude.{ℕ, zero, suc, ◌/◌, ◌^◌, ◌==◌, if◌then◌else◌, Option, none, some, bit_and, update}
use rfish.Board.Move.{Move, no_move, is_none}
use rfish.Board.Zobrist.{Key}

unfoldable pub h1 : Key → ℕ
h1 key = bit_and key 0x1fff

unfoldable pub h2 : Key → ℕ
h2 key = bit_and (key / 2 ^ 16) 0x1fff

pub record CuckooTables : Type 0 where
  pub keys : ℕ → Key
  pub moves : ℕ → Move

abbrev pub no_tables : CuckooTables
no_tables = record { keys = λ i. 0; moves = λ i. no_move }

-- The slot that a displaced entry goes to: the one of its two that it does not come from.
unfoldable pub other_slot : Key → ℕ → ℕ
unfolding h1 h2
other_slot key i = if i == h1 key then h2 key else h1 key

-- One exchange of the entry in hand with a slot's.
abbrev pub seated : CuckooTables → ℕ → Key → Move → CuckooTables
seated t i key mv = record { keys = update t.keys i key; moves = update t.moves i mv }

-- The walk from slot `i` on, on fuel: `none` when it has not found an empty slot.
unfoldable pub insert : ℕ → CuckooTables → Key → Move → ℕ → Option CuckooTables
unfolding other_slot
insert zero t key mv i = none
insert (suc fuel) t key mv i =
    let rest = insert fuel (seated t i key mv) (t.keys i) (t.moves i) (other_slot (t.keys i) i) in
    if is_none (t.moves i) then some (seated t i key mv) else rest

unfoldable pub lookup : CuckooTables → Key → Option Move
unfolding h1 h2
lookup t key =
    if t.keys (h1 key) == key
    then some (t.moves (h1 key))
    else if t.keys (h2 key) == key
    then some (t.moves (h2 key))
    else none
