-- ===== src/Db/RealDataFile.antt =====
-- src/db/io/real_data_file.rs: an append-only file of data behind a buffer of 8192 bytes. A write
-- locks the buffer and the offset together, so it is one step. Calls of the file system succeed but
-- for a read past the end, a seek to a negative place and a length that no vector can have.
pub mod Appends
use scouter_server_rust.Common.{
  ℕ, ◌+◌, ◌-◌, ◌%◌, ◌^◌, Bool, Option, none, some, [], ◌++◌, length, ltb, leb, if◌then◌else◌,
}
use scouter_server_rust.Word.{Bytes, to_be_bytes}
use scouter_server_rust.Outcome.{Outcome, ◌>>=◌, ok}
use scouter_server_rust.Protocol.Input.{read_n}
use scouter_server_rust.Db.RealKeyFile.{read_at}

abbrev pub capacity : ℕ
capacity = 8192

-- What the file holds, what waits in the buffer of the `BufWriter`, and the offset, an i64.
pub record RealDataFile : Type 0 where
  pub file : Bytes
  pub pending : Bytes
  pub offset : ℕ

-- `file` is the content of the file, if there is one.
unfoldable pub open_file : Option Bytes → RealDataFile
open_file none = record { file = []; pending = []; offset = 0 }
open_file (some file) = record { file = file; pending = []; offset = length file }

unfoldable pub flush : RealDataFile → RealDataFile
flush df = record df { file = df.file ++ df.pending; pending = [] }

-- `BufWriter::write_all`: bytes that do not fit make room first, and as many as the buffer holds or
-- more go to the file directly.
unfoldable pub make_room : RealDataFile → Bytes → RealDataFile
make_room df bytes = if ltb (capacity - length df.pending) (length bytes) then flush df else df

unfoldable pub write_all : RealDataFile → Bytes → RealDataFile
write_all df bytes =
    if leb capacity (length bytes)
    then record (make_room df bytes) { file = (make_room df bytes).file ++ bytes }
    else record (make_room df bytes) { pending = (make_room df bytes).pending ++ bytes }

-- The offset before the write, and the file after it.
unfoldable pub write : RealDataFile → Bytes → ℕ × RealDataFile
write df bytes =
    (df.offset, record (write_all df bytes) { offset = (df.offset + length bytes) % 2 ^ 64 })

unfoldable pub write_short : RealDataFile → ℕ → ℕ × RealDataFile
write_short df v = write df (to_be_bytes 2 v)

unfoldable pub write_int : RealDataFile → ℕ → ℕ × RealDataFile
write_int df v = write df (to_be_bytes 4 v)

unfoldable pub read : RealDataFile → ℕ → ℕ → Outcome (Bytes × RealDataFile)
read df offset len = do bytes ← read_at (flush df).file offset (read_n len); ok (bytes, flush df)

unfoldable pub get_offset : RealDataFile → ℕ
get_offset df = df.offset
