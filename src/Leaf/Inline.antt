-- ===== src/Leaf/Inline.antt =====
-- Leaves whose values stand in their cells: no chain is read or freed.
use ryu_db.Base.{
  ◌≡◌, refl, sym, ap, ◌∙◌, arith, false, Bool-cases, inl, inr, Option, none, some, List, [], ◌∷◌,
  All, Bytes, ℕ,
}
use ryu_db.Bytes.Order.{bytes_eq}
use ryu_db.Cell.{is_overflow}
use ryu_db.Txn.{TransactionManager}
use ryu_db.Leaf.Versions.{Version, version_key, raw, raw_leaf, to_cell, IsVersion, deserialize-raw}
use ryu_db.Leaf.Latest.{newest}
use ryu_db.Leaf.Write.{
  Scan, scanned, conflict, scan_panic, ScanResult, keep_cell, with_scan, scan_loop, finish_scan,
  scan, is_conflict,
}

-- The value stands in the cell itself.
abbrev pub IsInline : Option Version → Type 0
IsInline none = Unit
IsInline (some v) = is_overflow (to_cell v) ≡ false

abbrev pub AllInline : List Version → Type 0
AllInline vs = All (λ v. is_overflow (to_cell v) ≡ false) vs

pub newest-IsInline :
    (tx_mgr : Option TransactionManager) (user : Bytes) (reader : ℕ) (vs : List Version)
    → AllInline vs
    → IsInline (newest tx_mgr user reader vs)
unfolding newest
newest-IsInline tx_mgr user reader [] h = tt
newest-IsInline tx_mgr user reader (v ∷ vs) h =
    ground (arith, newest-IsInline tx_mgr user reader vs h.1)

keep_cell-freed :
    (key new_bytes : Bytes) (v : Version) (s : Scan)
    → is_overflow (to_cell v) ≡ false
    → (keep_cell key new_bytes (raw v) (to_cell v) s).freed ≡ s.freed
keep_cell-freed key new_bytes v s inline = elim (Bool-cases (bytes_eq (version_key v) key)) [
  | inl same ↦ rw (same, inline) refl
  | inr apart ↦ rw apart refl
]

scan_loop-freed :
    (tx_mgr : Option TransactionManager) (key new_bytes : Bytes) (vs : List Version) (s r : Scan)
    → All IsVersion vs
    → AllInline vs
    → scan_loop tx_mgr key new_bytes (raw_leaf vs) s ≡ scanned r
    → r.freed ≡ s.freed
unfolding scan_loop
scan_loop-freed tx_mgr key new_bytes [] s r hv inline e =
    let same : s ≡ r = cc e in ap (λ (k : Scan). k.freed) (sym same)
scan_loop-freed tx_mgr key new_bytes (v ∷ vs) s r hv inline e =
    let s' = keep_cell key new_bytes (raw v) (to_cell v) s in
    elim (Bool-cases (is_conflict tx_mgr key (version_key v))) [
      | inl clash ↦ absurd (cc (rw (deserialize-raw v hv.0, clash) at e))
      | inr fine ↦
          scan_loop-freed tx_mgr key new_bytes vs s' r hv.1 inline.1
            (rw (deserialize-raw v hv.0, fine) at e)
          ∙ keep_cell-freed key new_bytes v s inline.0
    ]

finish_scan-freed : (new_bytes : Bytes) (s : Scan) → (finish_scan new_bytes s).freed ≡ s.freed
finish_scan-freed new_bytes s = elim (Bool-cases s.key_exists) [
  | inl old ↦ rw old refl
  | inr new ↦ rw new refl
]

with_scan-freed :
    (new_bytes : Bytes) (o : ScanResult) (r : Scan)
    → ((s : Scan) → o ≡ scanned s → s.freed ≡ [])
    → with_scan o (λ s. scanned (finish_scan new_bytes s)) ≡ scanned r
    → r.freed ≡ []
with_scan-freed new_bytes (scanned s) r h e =
    let same : finish_scan new_bytes s ≡ r = cc e in
    ap (λ (k : Scan). k.freed) (sym same) ∙ finish_scan-freed new_bytes s ∙ h s refl
with_scan-freed new_bytes (conflict f) r h e = absurd (cc e)
with_scan-freed new_bytes scan_panic r h e = absurd (cc e)

-- A scan that ends without a conflict frees no chain.
pub scan-freed :
    (tx_mgr : Option TransactionManager) (key new_bytes : Bytes) (vs : List Version) (r : Scan)
    → All IsVersion vs
    → AllInline vs
    → scan tx_mgr key new_bytes (raw_leaf vs) ≡ scanned r
    → r.freed ≡ []
unfolding scan
scan-freed tx_mgr key new_bytes vs r hv inline e =
    with_scan-freed new_bytes
      (scan_loop tx_mgr key new_bytes (raw_leaf vs)
        (record { cells = []; key_exists = false; total_space = 32; freed = [] }))
      r (λ s found. scan_loop-freed tx_mgr key new_bytes vs _ s hv inline found) e

scan_loop-conflict_freed :
    (tx_mgr : Option TransactionManager) (key new_bytes : Bytes) (vs : List Version) (s : Scan)
    (freed : List Bytes)
    → All IsVersion vs
    → AllInline vs
    → scan_loop tx_mgr key new_bytes (raw_leaf vs) s ≡ conflict freed
    → freed ≡ s.freed
unfolding scan_loop
scan_loop-conflict_freed tx_mgr key new_bytes [] s freed hv inline e = absurd (cc e)
scan_loop-conflict_freed tx_mgr key new_bytes (v ∷ vs) s freed hv inline e =
    let s' = keep_cell key new_bytes (raw v) (to_cell v) s in
    elim (Bool-cases (is_conflict tx_mgr key (version_key v))) [
      | inl clash ↦
          let found : conflict s.freed ≡ conflict freed = rw (deserialize-raw v hv.0, clash) at e in
          let same : s.freed ≡ freed = cc found in sym same
      | inr fine ↦
          scan_loop-conflict_freed tx_mgr key new_bytes vs s' freed hv.1 inline.1
            (rw (deserialize-raw v hv.0, fine) at e)
          ∙ keep_cell-freed key new_bytes v s inline.0
    ]

with_scan-conflict_freed :
    (new_bytes : Bytes) (o : ScanResult) (freed : List Bytes)
    → ((f : List Bytes) → o ≡ conflict f → f ≡ [])
    → with_scan o (λ s. scanned (finish_scan new_bytes s)) ≡ conflict freed
    → freed ≡ []
with_scan-conflict_freed new_bytes (scanned s) freed h e = absurd (cc e)
with_scan-conflict_freed new_bytes (conflict f) freed h e =
    let same : f ≡ freed = cc e in sym same ∙ h f refl
with_scan-conflict_freed new_bytes scan_panic freed h e = absurd (cc e)

-- Nor does one that ends in a conflict.
pub scan-conflict_freed :
    (tx_mgr : Option TransactionManager) (key new_bytes : Bytes) (vs : List Version)
    (freed : List Bytes)
    → All IsVersion vs
    → AllInline vs
    → scan tx_mgr key new_bytes (raw_leaf vs) ≡ conflict freed
    → freed ≡ []
unfolding scan
scan-conflict_freed tx_mgr key new_bytes vs freed hv inline e =
    with_scan-conflict_freed new_bytes
      (scan_loop tx_mgr key new_bytes (raw_leaf vs)
        (record { cells = []; key_exists = false; total_space = 32; freed = [] }))
      freed (λ f found. scan_loop-conflict_freed tx_mgr key new_bytes vs _ f hv inline found) e
