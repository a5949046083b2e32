-- ===== src/Chunk.antt =====
-- internal/chunk: cutting a stream into chunks, at a fixed size or where its content says.
pub mod Gear
pub mod Fixed
pub mod Cdc
use revika.Base.{List, Bytes}

-- What a reader holds: its bytes, and how it ends.
pub data End : Type 0 where
  eof failure : End

-- What the iterator yields. `stuck` is no value of the code: a loop ran out of fuel.
pub data Item : Type 0 where
  chunk : Bytes → Item
  failed : Item
  stuck : Item
