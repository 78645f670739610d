-- ===== src/Wal/File.antt =====
-- The log file: what Append wrote is read at its LSN, now and later, and a torn record is not read.
use ryu_db.Base.{
  ℕ, ◌+◌, ◌≤◌, ◌<◌, ◌≡◌, refl, sym, ap, ◌∙◌, arith, ◌++◌, true, false, Bool-cases, inl, inr,
}
use ryu_db.Base.{
  Bytes, length, length-append, length-take, take, slice, slice-append_left, slice-append_right,
  slice-take, slice_whole,
}
use ryu_db.Base.{ltb, some, ok, err, end_of_file}
use ryu_db.Bytes.Binary.{le_value}
use ryu_db.Base.{◌==◌, Bool-cases, inl, inr}
use ryu_db.Wal.{
  LogRecord, record_size, serialize, Wal, new_wal, Io, io_ok, write_error, sync_error, append,
  read_record,
}
use ryu_db.Wal.RoundTrip.{Fits, length-serialize, size_field, deserialize-serialize}

-- The next LSN is the length of the file.
abbrev pub IsLog : Wal → Type 0
IsLog w = w.current_lsn ≡ length w.file

pub new_wal-IsLog : (content : Bytes) → IsLog (new_wal io_ok content)
unfolding new_wal
new_wal-IsLog content = elim (Bool-cases (length content == 0)) [
  | inl empty ↦ rw empty refl
  | inr full ↦ rw full refl
]

-- The record that Append makes.
abbrev pub appended : ℕ → ℕ → ℕ → ℕ → Bytes → Bytes → Wal → LogRecord
appended txn_id page_id prev_lsn op_type key value w = record {
  lsn = w.current_lsn;
  txn_id = txn_id;
  prev_lsn = prev_lsn;
  page_id = page_id;
  op_type = op_type;
  key = key;
  value = value;
}

module _ (file : Bytes) (l : LogRecord) where
  record_at_end : slice (file ++ serialize l) (length file) (record_size l) ≡ serialize l
  record_at_end =
      ap (λ k. slice (file ++ serialize l) k (record_size l))
        (let e : length file ≡ length file + 0 = omega arith in e)
      ∙ slice-append_right file (serialize l) 0 (record_size l)
      ∙ ap (slice (serialize l) 0) (sym (length-serialize l))
      ∙ slice_whole (serialize l)

module _ (file : Bytes) (l : LogRecord) (h : Fits l) where
  size_at_end : slice (file ++ serialize l) (length file) 4 ≡ slice (serialize l) 0 4
  size_at_end =
      ap (λ k. slice (file ++ serialize l) k 4)
        (let e : length file ≡ length file + 0 = omega arith in e)
      ∙ slice-append_right file (serialize l) 0 4

  read_at_end :
      (cursor : ℕ)
      → read_record (record { file = file ++ serialize l; current_lsn = cursor }) (length file)
        ≡ ok (l, record_size l)
  unfolding read_record
  read_at_end cursor =
      let n : length (file ++ serialize l) ≡ length file + record_size l =
        omega (arith, length-append {0} file (serialize l), length-serialize l) in
      let first : ltb (length (file ++ serialize l)) (length file + 4) ≡ false = ground arith in
      let large : ltb (record_size l) 43 ≡ false = ground arith in
      let second : ltb (length (file ++ serialize l)) (length file + record_size l) ≡ false =
        ground arith in
      rw
        (
          first,
          size_at_end,
          size_field l h,
          large,
          second,
          record_at_end file l,
          deserialize-serialize l h,
        )
        refl

  -- The record cut off after `n` bytes.
  torn_at_end :
      (n cursor : ℕ)
      → n < record_size l
      → read_record
          (record { file = file ++ take n (serialize l); current_lsn = cursor })
          (length file)
        ≡ err end_of_file
  unfolding read_record
  torn_at_end n cursor short =
      let len : length (file ++ take n (serialize l)) ≡ length file + n = omega (
        arith,
        length-append {0} file (take n (serialize l)),
        length-take n (serialize l) (omega (arith, length-serialize l)),
      ) in
      elim (Bool-cases (ltb n 4)) [
        | inl tiny ↦
            let first : ltb (length (file ++ take n (serialize l))) (length file + 4) ≡ true =
              ground (arith, len) in
            rw first refl
        | inr enough ↦
            let first : ltb (length (file ++ take n (serialize l))) (length file + 4) ≡ false =
              ground (arith, len) in
            let size : slice (file ++ take n (serialize l)) (length file) 4
                ≡ slice (serialize l) 0 4 =
              ap (λ k. slice (file ++ take n (serialize l)) k 4)
                (let e : length file ≡ length file + 0 = omega arith in e)
              ∙ slice-append_right file (take n (serialize l)) 0 4
              ∙ slice-take n (serialize l) 0 4 (ground arith) in
            let large : ltb (record_size l) 43 ≡ false = ground arith in
            let second : ltb (length (file ++ take n (serialize l))) (length file + record_size l)
                ≡ true =
              ground (arith, len) in
            rw (first, size, size_field l h, large, second) refl
      ]

-- Bytes behind the end do not change what is read.
read_record-append :
    (file more : Bytes) (c d lsn : ℕ) (found : LogRecord × ℕ)
    → read_record (record { file = file; current_lsn = c }) lsn ≡ ok found
    → read_record (record { file = file ++ more; current_lsn = d }) lsn ≡ ok found
unfolding read_record
read_record-append file more c d lsn found e =
    let n = length-append {0} file more in
    let short : ltb (length file) (lsn + 4) ≡ false = ground arith in
    let short' : ltb (length (file ++ more)) (lsn + 4) ≡ false = ground (arith, n) in
    let size : slice (file ++ more) lsn 4 ≡ slice file lsn 4 =
      slice-append_left file more lsn 4 (ground arith) in
    let large : ltb (le_value (slice file lsn 4)) 43 ≡ false = ground (arith, short) in
    let fits : ltb (length file) (lsn + le_value (slice file lsn 4)) ≡ false =
      ground (arith, short, large) in
    let fits' : ltb (length (file ++ more)) (lsn + le_value (slice file lsn 4)) ≡ false =
      ground (arith, n, fits) in
    let bytes =
      slice-append_left file more lsn (le_value (slice file lsn 4)) (ground (arith, fits)) in
    rw (short', size, large, fits', bytes) (rw (short, large, fits) at e)

module _ (txn_id page_id prev_lsn op_type : ℕ) (key value : Bytes) (w : Wal) where
  abbrev new_record : LogRecord
  new_record = appended txn_id page_id prev_lsn op_type key value w

  -- On a log whose next LSN is the length of its file, a successful Append of a record that fits its
  -- fields returns that LSN and keeps the invariant, and ReadRecord at that LSN returns the record
  -- and its size.
  pub read-append :
      IsLog w
      → Fits new_record
      → let (w', lsn) = append io_ok txn_id page_id prev_lsn op_type key value w in
        (lsn ≡ some w.current_lsn)
        × IsLog w'
        × (read_record w' w.current_lsn ≡ ok (new_record, record_size new_record))
  unfolding append
  read-append log h = (
    refl,
    omega (arith, length-append {0} w.file (serialize new_record), log),
    ap (read_record _) log ∙ read_at_end w.file new_record h _,
  )

  -- Whatever becomes of the write and the fsync, Append leaves every record readable at its LSN that
  -- was readable before.
  pub append_keeps_reads :
      (io : Io) (lsn : ℕ) (found : LogRecord × ℕ)
      → read_record w lsn ≡ ok found
      → read_record (append io txn_id page_id prev_lsn op_type key value w).0 lsn ≡ ok found
  unfolding append
  append_keeps_reads io_ok lsn found e = read_record-append w.file _ w.current_lsn _ lsn found e
  append_keeps_reads (write_error n) lsn found e =
      read_record-append w.file _ w.current_lsn _ lsn found e
  append_keeps_reads sync_error lsn found e =
      read_record-append w.file _ w.current_lsn _ lsn found e

  -- On a log whose next LSN is the length of its file, a record that fits its fields and whose write
  -- broke off before its last byte is not read at its LSN: ReadRecord reports the end of the file.
  pub torn_record_unread :
      (n : ℕ)
      → IsLog w
      → Fits new_record
      → n < record_size new_record
      → read_record
          (append (write_error n) txn_id page_id prev_lsn op_type key value w).0
          w.current_lsn
        ≡ err end_of_file
  unfolding append
  torn_record_unread n log h short =
      ap (read_record _) log ∙ torn_at_end w.file new_record h n _ short

  -- On a log whose next LSN is the length of its file, after a write that broke off behind some
  -- bytes, LSNs are no longer file offsets: the next Append of the same operation succeeds with the
  -- old LSN, and its record stands behind that LSN by the bytes of the broken write.
  pub append_after_write_error :
      (n : ℕ)
      → IsLog w
      → 0 < n
      → n ≤ record_size new_record
      → let broken = (append (write_error n) txn_id page_id prev_lsn op_type key value w).0 in
        let (w', lsn) = append io_ok txn_id page_id prev_lsn op_type key value broken in
        (lsn ≡ some w.current_lsn)
        × (slice w'.file (w.current_lsn + n) (record_size new_record) ≡ serialize new_record)
        × ¬ (IsLog w')
  unfolding append
  append_after_write_error n log some_written not_more =
      let torn = take n (serialize new_record) in
      let len : length (w.file ++ torn) ≡ w.current_lsn + n = omega (
        arith,
        log,
        length-append {0} w.file torn,
        length-take n (serialize new_record) (omega (arith, length-serialize new_record)),
      ) in
      (
        refl,
        ap (λ k. slice ((w.file ++ torn) ++ serialize new_record) k (record_size new_record))
              (sym len)
            ∙ record_at_end (w.file ++ torn) new_record,
        λ e. omega (arith, len, length-append {0} (w.file ++ torn) (serialize new_record)),
      )
