-- ===== src/Txn/Key.antt =====
-- BuildMVCCKey and ExtractMVCCKey of txn.go: `[UserKey] 0x00 [TxID, 8 bytes big-endian]`.
use Prim.Native.Nat.{compare}
use ryu_db.Base.{ℕ, suc, ◌+◌, ◌-◌, ◌^◌, ◌<◌, ◌≡◌, ◌≢◌, refl, ap, ◌∙◌, arith, [], ◌∷◌, ◌++◌}
use ryu_db.Base.{Bytes, length, length-append, All, take, drop, take-length_append}
use ryu_db.Base.{get_or, get_or-append_at, ltb, ◌==◌, if◌then◌else◌}
use ryu_db.Bytes.Binary.{be_bytes, be_value, length-be_bytes, be_value-be_bytes}
use ryu_db.Bytes.Order.{compare_bytes, compare_bytes-append_left, compare_bytes-be_bytes}

unfoldable pub build_mvcc_key : Bytes → ℕ → Bytes
build_mvcc_key key tx_id = key ++ 0 ∷ be_bytes 8 tx_id

unfoldable pub extract_mvcc_key : Bytes → Bytes × ℕ
extract_mvcc_key mvcc_key =
    let n = length mvcc_key in
    if ltb n 9
    then (mvcc_key, 0)
    else if get_or mvcc_key (n - 9) 0 == 0
    then (take (n - 9) mvcc_key, be_value 0 (drop (n - 8) mvcc_key))
    else (mvcc_key, 0)

drop_separator_lem : (xs ys : Bytes) (y : ℕ) → drop (suc (length xs)) (xs ++ y ∷ ys) ≡ ys
unfolding drop
drop_separator_lem [] ys y = refl
drop_separator_lem (x ∷ xs) ys y = drop_separator_lem xs ys y

pub length-build_mvcc_key : (key : Bytes) (t : ℕ) → length (build_mvcc_key key t) ≡ length key + 9
unfolding build_mvcc_key
length-build_mvcc_key key t =
    omega (arith, length-append key (0 ∷ be_bytes 8 t), length-be_bytes 8 t)

-- ExtractMVCCKey takes every key that BuildMVCCKey builds from a uint64 apart again, whatever bytes
-- the user key holds.
pub extract-build_mvcc_key :
    (key : Bytes) (t : ℕ) → t < 2 ^ 64 → extract_mvcc_key (build_mvcc_key key t) ≡ (key, t)
unfolding extract_mvcc_key
extract-build_mvcc_key key t h =
    let n : length (build_mvcc_key key t) ≡ length key + 9 = length-build_mvcc_key key t in
    let nine : length (build_mvcc_key key t) - 9 ≡ length key = omega arith in
    let eight : length (build_mvcc_key key t) - 8 ≡ suc (length key) = omega arith in
    let separator : get_or (build_mvcc_key key t) (length key) 0 ≡ 0 =
      unfold build_mvcc_key in get_or-append_at key (be_bytes 8 t) 0 0 in
    let front : take (length key) (build_mvcc_key key t) ≡ key =
      unfold build_mvcc_key in take-length_append key (0 ∷ be_bytes 8 t) in
    let back : be_value 0 (drop (suc (length key)) (build_mvcc_key key t)) ≡ t =
      unfold build_mvcc_key in
      ap (be_value 0) (drop_separator_lem key (be_bytes 8 t) 0)
      ∙ be_value-be_bytes 8 t (omega arith) in
    rw (nine, eight) (ground arith)

-- The versions of one user key sort by transaction id, for ids of 64 bits.
pub compare_bytes-build_mvcc_key :
    (key : Bytes) (a b : ℕ)
    → a < 2 ^ 64
    → b < 2 ^ 64
    → compare_bytes (build_mvcc_key key a) (build_mvcc_key key b) ≡ compare a b
unfolding build_mvcc_key
compare_bytes-build_mvcc_key key a b ha hb =
    compare_bytes-append_left key (0 ∷ be_bytes 8 a) (0 ∷ be_bytes 8 b)
    ∙ unfold compare_bytes in compare_bytes-be_bytes 8 a b (omega arith) (omega arith)

abbrev pub NoNul : Bytes → Type 0
NoNul = All (λ b. 0 < b)

-- User keys without a zero byte keep their own order whatever the transaction ids, so the versions
-- of each of them stand together.
pub compare_bytes-build_mvcc_key_ne :
    (j k : Bytes) (a b : ℕ)
    → NoNul j
    → NoNul k
    → j ≢ k
    → compare_bytes (build_mvcc_key j a) (build_mvcc_key k b) ≡ compare_bytes j k
unfolding build_mvcc_key compare_bytes
compare_bytes-build_mvcc_key_ne [] [] a b hj hk e = absurd (e refl)
compare_bytes-build_mvcc_key_ne [] (y ∷ ys) a b hj hk e = ground arith
compare_bytes-build_mvcc_key_ne (x ∷ xs) [] a b hj hk e = ground arith
compare_bytes-build_mvcc_key_ne (x ∷ xs) (y ∷ ys) a b hj hk e =
    ground (arith, compare_bytes-build_mvcc_key_ne xs ys a b)
