-- ===== src/Wal/RoundTrip.antt =====
-- DeserializeLogRecord reads back what Serialize wrote.
use mathlib.Core.List.{append-nil, append_assoc}
use ryu_db.Base.{ℕ, ◌+◌, ◌-◌, ◌^◌, ◌<◌, ◌≡◌, refl, sym, ap, ◌∙◌, arith, List, [], ◌∷◌, ◌++◌, false}
use ryu_db.Base.{Bytes, length, slice-append, slice, slice?_at, ltb, ==_iff, u16, u32, ok}
use ryu_db.Base.Segments.{flatten, total, length-flatten, slice-segment}
use ryu_db.Bytes.Binary.{le_bytes, le_value, length-le_bytes, le_value-le_bytes}
use ryu_db.Bytes.Crc.{crc32, crc32-lt}
use ryu_db.Wal.{LogRecord, record_size, payload, serialize, fixed_field, deserialize_log_record}

-- A record whose numbers fit their fields.
pub record Fits (l : LogRecord) : Type 0 where
  pub lsn : l.lsn < 256 ^ 8
  pub txn_id : l.txn_id < 256 ^ 8
  pub prev_lsn : l.prev_lsn < 256 ^ 8
  pub page_id : l.page_id < 256 ^ 4
  pub op_type : l.op_type < 256
  pub key : length l.key < 65536
  pub size : record_size l < 256 ^ 4

-- The whole buffer as a row of segments.
segments : LogRecord → List Bytes
segments l =
    le_bytes 4 (u32 (record_size l))
    ∷ (payload l ++ (le_bytes 4 (crc32 (flatten (payload l))) ∷ []))

serialize-segments : (l : LogRecord) → serialize l ≡ flatten (segments l)
unfolding serialize segments
serialize-segments l = simp (append_assoc, append-nil)

module _ (l : LogRecord) where
  total-segments : total (segments l) ≡ record_size l
  unfolding segments
  total-segments = omega (arith, length-le_bytes)

  pub length-serialize : length (serialize l) ≡ record_size l
  length-serialize = ap length (serialize-segments l) ∙ length-flatten (segments l) ∙ total-segments

  at_segment :
      (before : List Bytes) (s : Bytes) (after : List Bytes) (lo n : ℕ)
      → segments l ≡ before ++ s ∷ after
      → lo ≡ total before
      → n ≡ length s
      → slice (serialize l) lo n ≡ s
  at_segment before s after lo n e p q =
      rw (serialize-segments l, e) (slice-segment before s after lo n p q)

  -- A number that fits its width reads back.
  number_at :
      (before : List Bytes) (w v : ℕ) (after : List Bytes) (lo : ℕ)
      → segments l ≡ before ++ le_bytes w v ∷ after
      → lo ≡ total before
      → v < 256 ^ w
      → fixed_field (serialize l) lo w ≡ v
  number_at before w v after lo e p small =
      ap le_value (at_segment before (le_bytes w v) after lo w e p (sym (length-le_bytes w v)))
      ∙ le_value-le_bytes w v small

  module _ (h : Fits l) where
    pub size_field : fixed_field (serialize l) 0 4 ≡ record_size l
    unfolding segments
    size_field =
        number_at [] 4 (u32 (record_size l)) _ 0 refl refl (omega arith) ∙ omega (arith, h.size)

    lsn_field : fixed_field (serialize l) 4 8 ≡ l.lsn
    unfolding segments
    lsn_field =
        number_at (le_bytes 4 (u32 (record_size l)) ∷ []) 8 l.lsn _ 4 refl
          (omega (arith, length-le_bytes)) h.lsn

    txn_id_field : fixed_field (serialize l) 12 8 ≡ l.txn_id
    unfolding segments
    txn_id_field =
        number_at (le_bytes 4 (u32 (record_size l)) ∷ le_bytes 8 l.lsn ∷ []) 8 l.txn_id _ 12 refl
          (omega (arith, length-le_bytes)) h.txn_id

    abbrev to_txn_id : List Bytes
    to_txn_id = le_bytes 4 (u32 (record_size l)) ∷ le_bytes 8 l.lsn ∷ le_bytes 8 l.txn_id ∷ []

    page_id_field : fixed_field (serialize l) 20 4 ≡ l.page_id
    unfolding segments
    page_id_field =
        number_at to_txn_id 4 l.page_id _ 20 refl (omega (arith, length-le_bytes)) h.page_id

    abbrev to_page_id : List Bytes
    to_page_id = to_txn_id ++ le_bytes 4 l.page_id ∷ []

    op_type_field : fixed_field (serialize l) 24 1 ≡ l.op_type
    unfolding segments
    op_type_field =
        ap le_value
          (at_segment to_page_id (l.op_type ∷ []) _ 24 1 refl (omega (arith, length-le_bytes)) refl)
        ∙ unfold le_value in omega arith

    abbrev to_op_type : List Bytes
    to_op_type = to_page_id ++ (l.op_type ∷ []) ∷ []

    prev_lsn_field : fixed_field (serialize l) 25 8 ≡ l.prev_lsn
    unfolding segments
    prev_lsn_field =
        number_at to_op_type 8 l.prev_lsn _ 25 refl (omega (arith, length-le_bytes)) h.prev_lsn

    abbrev to_prev_lsn : List Bytes
    to_prev_lsn = to_op_type ++ le_bytes 8 l.prev_lsn ∷ []

    key_length_field : fixed_field (serialize l) 33 2 ≡ length l.key
    unfolding segments
    key_length_field =
        number_at to_prev_lsn 2 (u16 (length l.key)) _ 33 refl (omega (arith, length-le_bytes))
          (omega arith)
        ∙ omega (arith, h.key)

    abbrev to_key_length : List Bytes
    to_key_length = to_prev_lsn ++ le_bytes 2 (u16 (length l.key)) ∷ []

    value_length_field : fixed_field (serialize l) 35 4 ≡ length l.value
    unfolding segments
    value_length_field =
        number_at to_key_length 4 (u32 (length l.value)) _ 35 refl (omega (arith, length-le_bytes))
          (omega arith)
        ∙ omega (arith, h.size)

    abbrev to_value_length : List Bytes
    to_value_length = to_key_length ++ le_bytes 4 (u32 (length l.value)) ∷ []

    key_field : slice (serialize l) 39 (length l.key) ≡ l.key
    unfolding segments
    key_field =
        at_segment to_value_length l.key _ 39 (length l.key) refl (omega (arith, length-le_bytes))
          refl

    value_field : slice (serialize l) (39 + length l.key) (length l.value) ≡ l.value
    unfolding segments
    value_field =
        at_segment (to_value_length ++ l.key ∷ []) l.value _ (39 + length l.key) (length l.value)
          refl (omega (arith, length-le_bytes)) refl

    crc_field : fixed_field (serialize l) (record_size l - 4) 4 ≡ crc32 (flatten (payload l))
    unfolding segments
    crc_field =
        number_at (to_value_length ++ l.key ∷ l.value ∷ []) 4 (crc32 (flatten (payload l))) [] _
          refl (omega (arith, length-le_bytes)) (crc32-lt (flatten (payload l)))

    length-payload : length (flatten (payload l)) ≡ record_size l - 4 - 4
    length-payload = length-flatten (payload l) ∙ omega (arith, length-le_bytes)

    covered : slice (serialize l) 4 (record_size l - 4 - 4) ≡ flatten (payload l)
    unfolding serialize
    covered =
        let e =
          slice-append (le_bytes 4 (u32 (record_size l))) (flatten (payload l))
            (le_bytes 4 (crc32 (flatten (payload l)))) in
        rw (length-le_bytes 4 (u32 (record_size l)), length-payload) at e

    -- DeserializeLogRecord reads a serialised record back whole: its size and its checksum agree,
    -- and every field returns, if the numbers fit their fields and the whole fits 32 bits.
    pub deserialize-serialize : deserialize_log_record (serialize l) ≡ ok l
    unfolding deserialize_log_record
    deserialize-serialize =
        let n = length-serialize in
        let large : ltb (record_size l) 43 ≡ false = ground arith in
        let key_read =
          slice?_at (serialize l) 39 (39 + length l.key) (length l.key) refl (omega (arith, n)) in
        let value_read =
          slice?_at (serialize l) (39 + length l.key) (39 + length l.key + length l.value)
            (length l.value) refl (omega (arith, n)) in
        let key_end : (39 + length l.key) ≡ 39 + length l.key = refl in
        rw
          (
            n,
            large,
            size_field,
            (==_iff (record_size l) (record_size l)).1 refl,
            crc_field,
            covered,
            (==_iff (crc32 (flatten (payload l))) (crc32 (flatten (payload l)))).1 refl,
            key_length_field,
            value_length_field,
            lsn_field,
            txn_id_field,
            page_id_field,
            prev_lsn_field,
            op_type_field,
            key_read,
            value_read,
          )
          (rw (key_field, value_field) refl)
