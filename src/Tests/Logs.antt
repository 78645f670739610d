-- ===== src/Tests/Logs.antt =====
-- Runs of internal/storage/wal.go.
use ryu_db.Base.{◌+◌, ◌≡◌, refl, arith, [], ◌∷◌, some, ok, err, end_of_file, slice}
use ryu_db.Wal.{
  LogRecord, record_size, serialize, deserialize_log_record, Wal, io_ok, write_error, append,
  read_record,
}
use ryu_db.Wal.RoundTrip.{Fits, deserialize-serialize}
use ryu_db.Wal.File.{
  IsLog, appended, read-append, append_keeps_reads, torn_record_unread, append_after_write_error,
}

abbrev empty_log : Wal
empty_log = record { file = 87 ∷ 65 ∷ 76 ∷ 10 ∷ []; current_lsn = 4 }

abbrev first : LogRecord
first = appended 7 1 0 1 (107 ∷ []) (118 ∷ []) empty_log

first-Fits : Fits first
first-Fits = record {
  lsn = omega arith;
  txn_id = omega arith;
  prev_lsn = omega arith;
  page_id = omega arith;
  op_type = omega arith;
  key = omega arith;
  size = omega arith;
}

deserialize-serialize_example : deserialize_log_record (serialize first) ≡ ok first
deserialize-serialize_example = deserialize-serialize first first-Fits

read-append_example :
    let (w, lsn) = append io_ok 7 1 0 1 (107 ∷ []) (118 ∷ []) empty_log in
    (lsn ≡ some 4) × IsLog w × (read_record w 4 ≡ ok (first, record_size first))
read-append_example = read-append 7 1 0 1 (107 ∷ []) (118 ∷ []) empty_log refl first-Fits

abbrev one_record : Wal
one_record = (append io_ok 7 1 0 1 (107 ∷ []) (118 ∷ []) empty_log).0

append_keeps_reads_example :
    read_record (append (write_error 3) 7 0 4 4 [] [] one_record).0 4
    ≡ ok (first, record_size first)
append_keeps_reads_example =
    append_keeps_reads 7 0 4 4 [] [] one_record (write_error 3) 4 (first, record_size first)
      (read-append 7 1 0 1 (107 ∷ []) (118 ∷ []) empty_log refl first-Fits).2

torn_record_unread_example :
    read_record (append (write_error 20) 7 1 0 1 (107 ∷ []) (118 ∷ []) empty_log).0 4
    ≡ err end_of_file
torn_record_unread_example =
    torn_record_unread 7 1 0 1 (107 ∷ []) (118 ∷ []) empty_log 20 refl first-Fits (omega arith)

append_after_write_error_example :
    let broken = (append (write_error 3) 7 1 0 1 (107 ∷ []) (118 ∷ []) empty_log).0 in
    let (w, lsn) = append io_ok 7 1 0 1 (107 ∷ []) (118 ∷ []) broken in
    (lsn ≡ some 4) × (slice w.file (4 + 3) (record_size first) ≡ serialize first) × ¬ (IsLog w)
append_after_write_error_example =
    append_after_write_error 7 1 0 1 (107 ∷ []) (118 ∷ []) empty_log 3 refl (omega arith)
      (omega arith)
