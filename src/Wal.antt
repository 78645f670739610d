-- ===== src/Wal.antt =====
-- internal/storage/wal.go: log records and the write-ahead log.
pub mod RoundTrip
pub mod File
pub mod Checkpoint
use ryu_db.Base.{
  ℕ, ◌+◌, ◌-◌, ◌^◌, ◌<◌, Bool, true, false, List, [], ◌∷◌, ◌++◌, Option, none, some, Bytes, length,
  take,
}
use ryu_db.Base.{slice, slice?, ltb, ◌==◌, if◌then◌else◌, u16, u32}
use ryu_db.Base.{Error, Result, ok, err, panic, ◌>>=◌, or_panic}
use ryu_db.Base.{
  record_too_small, record_size_mismatch, record_checksum, record_size_corrupt, end_of_file,
}
use ryu_db.Base.Segments.{flatten}
use ryu_db.Bytes.Binary.{le_bytes, le_value}
use ryu_db.Bytes.Crc.{crc32}

abbrev pub log_op_insert : ℕ
log_op_insert = 1

abbrev pub log_op_delete : ℕ
log_op_delete = 2

abbrev pub log_op_full_page : ℕ
log_op_full_page = 3

abbrev pub log_op_commit : ℕ
log_op_commit = 4

abbrev pub log_op_abort : ℕ
log_op_abort = 5

abbrev pub log_op_clr : ℕ
log_op_clr = 6

abbrev pub log_op_checkpoint : ℕ
log_op_checkpoint = 7

abbrev pub log_op_undo_insert : ℕ
log_op_undo_insert = 8

pub record LogRecord : Type 0 where
  pub lsn : ℕ
  pub txn_id : ℕ
  pub prev_lsn : ℕ
  pub page_id : ℕ
  pub op_type : ℕ
  pub key : Bytes
  pub value : Bytes

abbrev pub record_size : LogRecord → ℕ
record_size l = 4 + 8 + 8 + 4 + 1 + 8 + 2 + 4 + length l.key + length l.value + 4

-- The fields between the size and the checksum, in the order of the buffer.
abbrev pub payload : LogRecord → List Bytes
payload l =
    le_bytes 8 l.lsn
    ∷ le_bytes 8 l.txn_id
    ∷ le_bytes 4 l.page_id
    ∷ (l.op_type ∷ [])
    ∷ le_bytes 8 l.prev_lsn
    ∷ le_bytes 2 (u16 (length l.key))
    ∷ le_bytes 4 (u32 (length l.value))
    ∷ l.key
    ∷ l.value
    ∷ []

unfoldable pub serialize : LogRecord → Bytes
serialize l =
    le_bytes 4 (u32 (record_size l))
    ++ (flatten (payload l) ++ le_bytes 4 (crc32 (flatten (payload l))))

-- `data[a:b]` at fixed bounds below 43, which the first test makes good.
abbrev pub fixed_field : Bytes → ℕ → ℕ → ℕ
fixed_field bytes off w = le_value (slice bytes off w)

unfoldable pub parse_record : Bytes → Result LogRecord
parse_record bytes = do
  let key_end = 39 + fixed_field bytes 33 2
  key ← or_panic (slice? bytes 39 key_end)
  value ← or_panic (slice? bytes key_end (key_end + fixed_field bytes 35 4))
  ok (record {
    lsn = fixed_field bytes 4 8;
    txn_id = fixed_field bytes 12 8;
    prev_lsn = fixed_field bytes 25 8;
    page_id = fixed_field bytes 20 4;
    op_type = fixed_field bytes 24 1;
    key = key;
    value = value;
  })

unfoldable pub deserialize_log_record : Bytes → Result LogRecord
unfolding parse_record
deserialize_log_record bytes =
    if ltb (length bytes) 43
    then err record_too_small
    else if fixed_field bytes 0 4 == length bytes
    then (if fixed_field bytes (length bytes - 4) 4 == crc32 (slice bytes 4 (length bytes - 4 - 4))
        then parse_record bytes
        else err record_checksum)
    else err record_size_mismatch

-- The file is its content, and every write goes to its end (O_APPEND).
pub record Wal : Type 0 where
  pub file : Bytes
  pub current_lsn : ℕ

abbrev pub wal_magic : Bytes
wal_magic = 87 ∷ 65 ∷ 76 ∷ 10 ∷ []

-- What the operating system does with a write and its fsync: both succeed, the write stops with an
-- error after some bytes, or the fsync fails.
pub data Io : Type 0 where
  io_ok : Io
  write_error : ℕ → Io
  sync_error : Io

-- What becomes of the header that NewWAL writes, whose error is not looked at.
abbrev pub written_header : Io → Bytes
written_header io_ok = wal_magic
written_header (write_error n) = take n wal_magic
written_header sync_error = wal_magic

-- NewWAL on the content that the file has: an empty file gets a header, and counts as 4 bytes.
unfoldable pub new_wal : Io → Bytes → Wal
new_wal io content =
    if length content == 0
    then record { file = written_header io; current_lsn = 4 }
    else record { file = content; current_lsn = length content }

-- Append: the log behind it, and the LSN unless there was an error.
unfoldable pub append : Io → ℕ → ℕ → ℕ → ℕ → Bytes → Bytes → Wal → Wal × Option ℕ
append io txn_id page_id prev_lsn op_type key value w =
    let bytes = serialize (record {
      lsn = w.current_lsn;
      txn_id = txn_id;
      prev_lsn = prev_lsn;
      page_id = page_id;
      op_type = op_type;
      key = key;
      value = value;
    }) in
    let written : Wal = record {
      file = w.file ++ bytes;
      current_lsn = w.current_lsn + length bytes;
    } in
    elim io [
      | io_ok ↦ (written, some w.current_lsn)
      | write_error n ↦ (record w { file = w.file ++ take n bytes }, none)
      | sync_error ↦ (written, none)
    ]

-- `file.ReadAt(buf, off)` with a buffer of `n` bytes.
abbrev pub read_at : Bytes → ℕ → ℕ → Result Bytes
read_at file off n = if ltb (length file) (off + n) then err end_of_file else ok (slice file off n)

unfoldable pub read_record : Wal → ℕ → Result (LogRecord × ℕ)
read_record w lsn = do
  size_bytes ← read_at w.file lsn 4
  bytes ←
      (if ltb (le_value size_bytes) 43
        then err record_size_corrupt
        else read_at w.file lsn (le_value size_bytes))
  l ← deserialize_log_record bytes
  ok (l, le_value size_bytes)
