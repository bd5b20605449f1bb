-- ===== src/Nodes/Table.antt =====
-- `newNode`: nodes are handed out one behind the other from a table that is doubled when it is full.
use javascript_database.Common.{ℕ, ◌+◌, ◌-◌, ◌*◌, ◌/◌, ◌%◌, leb, ◌==◌, if◌then◌else◌}
use javascript_database.Vector.{word_mod}

-- sizeof(Node)
abbrev pub node_size : ℕ
node_size = 4

-- The part of parseData that `newNode` reads and writes. A null table has size 0.
pub record ParseData : Type 0 where
  pub table_size : ℕ
  pub table_next : ℕ
  pub line_no : ℕ

-- The blocks that `size` bytes take.
unfoldable pub blocks : ℕ → ℕ
blocks size = (size + node_size - 1) % word_mod / node_size

-- `capacity` is what `js_realloc` reports for a request: the bytes that the new block holds.
module _ (capacity : ℕ → ℕ) where
  -- The size of the table after it has been made larger.
  unfoldable pub grown_size : ℕ → ℕ
  grown_size table_size =
      if table_size == 0
      then 4090 * node_size / node_size
      else capacity (table_size * 2 % word_mod * node_size % word_mod) / node_size

  -- The new state, and the address of the node.
  unfoldable pub new_node : ParseData → ℕ → ParseData × ℕ
  unfolding grown_size blocks
  new_node pd size =
      let blks = blocks size in
      let table_size' =
        (if leb pd.table_size ((blks + pd.table_next) % word_mod)
          then grown_size pd.table_size
          else pd.table_size) in
      (
        record pd { table_size = table_size'; table_next = (pd.table_next + blks) % word_mod },
        pd.table_next,
      )
