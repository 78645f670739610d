-- ===== src/Tests/Leaves.antt =====
-- Runs on one leaf: internal/storage/btree.go and vacuum.go.
use ryu_db.Base.{
  ℕ, ◌+◌, ◌≤◌, ◌<◌, ◌^◌, ◌≡◌, inl, inr, refl, arith, Bool, true, false, Option, none, some, List,
  [], ◌∷◌, Bytes, All, replicate, length-replicate, Result, ok, err, key_not_found,
}
use ryu_db.Bytes.Order.{compare_bytes}
use ryu_db.Page.{Page}
use ryu_db.Page.Rebuild.{Holds, rebuild-Holds, cells_size}
use ryu_db.Tests.Pages.{blank, size_blank}
use ryu_db.Txn.{TransactionManager, running, get_status}
use ryu_db.Txn.Key.{build_mvcc_key}
use ryu_db.Leaf.Read.{sees_commited, find_latest_in, latest_value}
use ryu_db.Leaf.Clean.{vacuum_leaf}
use ryu_db.Leaf.Write.{write_leaf, fits}
use ryu_db.Leaf.Versions.{Version, IsVersion, IsLeaf, raw_leaf, to_cell}
use ryu_db.Leaf.Latest.{sees}
use ryu_db.Leaf.Scan.{has_conflict}
use ryu_db.Leaf.Vacuum.{kept}
use ryu_db.Leaf.Put.{put}
use ryu_db.Leaf.VacuumPage.{vacuum_leaf-Holds, value_of, vacuum_leaf_keeps_reads}
use ryu_db.Leaf.WriteLeaf.{find_latest-write_leaf}

abbrev pub k : Bytes
k = 107 ∷ []

-- Two versions of one key, by transactions 2 and 5, and the tombstone of another by 3.
abbrev old : Version
old = record { user = k; tx = 2; value = 97 ∷ []; flag = 0 }

abbrev pub young : Version
young = record { user = k; tx = 5; value = 98 ∷ []; flag = 0 }

abbrev gone : Version
gone = record { user = 109 ∷ []; tx = 3; value = []; flag = 2 }

abbrev pub versions : List Version
versions = old ∷ young ∷ gone ∷ []

abbrev pub next : Version
next = record { user = k; tx = 9; value = 99 ∷ []; flag = 0 }

old-IsVersion : IsVersion old
unfolding build_mvcc_key ryu_db.Bytes.Binary.be_bytes
old-IsVersion = record {
  no_nul = omega arith;
  id = omega arith;
  size = omega arith;
  flags = inl refl;
}

young-IsVersion : IsVersion young
unfolding build_mvcc_key ryu_db.Bytes.Binary.be_bytes
young-IsVersion = record {
  no_nul = omega arith;
  id = omega arith;
  size = omega arith;
  flags = inl refl;
}

gone-IsVersion : IsVersion gone
unfolding build_mvcc_key ryu_db.Bytes.Binary.be_bytes
gone-IsVersion = record {
  no_nul = omega arith;
  id = omega arith;
  size = omega arith;
  flags = inr (inl refl);
}

pub next-IsVersion : IsVersion next
unfolding build_mvcc_key ryu_db.Bytes.Binary.be_bytes
next-IsVersion = record {
  no_nul = omega arith;
  id = omega arith;
  size = omega arith;
  flags = inl refl;
}

pub versions-IsLeaf : IsLeaf versions
unfolding compare_bytes build_mvcc_key ryu_db.Bytes.Binary.be_bytes
versions-IsLeaf = (
  (old-IsVersion, (young-IsVersion, (gone-IsVersion, tt))),
  ((refl, (refl, tt)), ((refl, tt), (tt, tt))),
)

-- Each cell has 5 bytes of header, and 9 behind the user key.
pub sample_room : 32 + cells_size (raw_leaf versions) ≤ 4096
unfolding ryu_db.Cell.serialize_kv_cell build_mvcc_key ryu_db.Bytes.Binary.be_bytes
    ryu_db.Bytes.Binary.le_bytes
sample_room = omega arith

sample : Page
sample = (rebuild-Holds 1 blank (inl refl) size_blank (raw_leaf versions) sample_room).0

sample-Holds : Holds sample (raw_leaf versions)
unfolding sample
sample-Holds = (rebuild-Holds 1 blank (inl refl) size_blank (raw_leaf versions) sample_room).2

-- Transaction 7 runs, and all below it have committed.
abbrev pub manager : TransactionManager
manager = record { txn_table = (7, running) ∷ []; lsn_table = [] }

settled : All (λ v. v.tx < 7 → sees_commited (some manager) v.tx ≡ true) versions
unfolding get_status ryu_db.Base.Table.lookup
settled = ((λ _. refl), ((λ _. refl), ((λ _. refl), tt)))

abbrev no_chains : Bytes → Result Bytes
no_chains _ = err key_not_found

vacuum_leaf_keeps_reads_example :
    (q : Page) × (freed : List Bytes) × (vacuum_leaf 7 sample ≡ ok (q, freed))
    × (value_of (find_latest_in no_chains (build_mvcc_key k 8) (some manager) q)
        ≡ value_of (find_latest_in no_chains (build_mvcc_key k 8) (some manager) sample))
vacuum_leaf_keeps_reads_example =
    vacuum_leaf_keeps_reads no_chains (some manager) k 8 7 sample versions (omega arith)
      (omega arith) sample-Holds versions-IsLeaf settled

vacuum_leaf-Holds_example :
    (q : Page) × (freed : List Bytes) × (vacuum_leaf 7 sample ≡ ok (q, freed))
    × Holds q (raw_leaf (kept 7 versions))
    × IsLeaf (kept 7 versions)
vacuum_leaf-Holds_example = vacuum_leaf-Holds 7 sample versions sample-Holds versions-IsLeaf

-- The old version and the tombstone go.
kept_one : kept 7 versions ≡ young ∷ []
unfolding kept compare_bytes
kept_one = refl

pub no_conflict : has_conflict (some manager) next versions ≡ false
unfolding compare_bytes get_status ryu_db.Base.Table.lookup
no_conflict = refl

pub next_room : 32 + cells_size (raw_leaf (put next versions)) ≤ 4096
unfolding put compare_bytes ryu_db.Cell.serialize_kv_cell build_mvcc_key
    ryu_db.Bytes.Binary.be_bytes ryu_db.Bytes.Binary.le_bytes
next_room = omega arith

find_latest-write_leaf_example :
    (q : Page) × (freed : List Bytes) × (write_leaf (some manager) (to_cell next) sample
      ≡ ok (fits q, freed))
    × ((read_chain : Bytes → Result Bytes) (mgr : Option TransactionManager)
        → find_latest_in read_chain (build_mvcc_key k 9) mgr q
          ≡ latest_value read_chain (some (to_cell next)))
    × ((read_chain : Bytes → Result Bytes) (mgr : Option TransactionManager) (user : Bytes)
          (reader : ℕ)
        → reader < 2 ^ 64
        → sees mgr user reader next ≡ false
        → find_latest_in read_chain (build_mvcc_key user reader) mgr q
          ≡ find_latest_in read_chain (build_mvcc_key user reader) mgr sample)
find_latest-write_leaf_example =
    find_latest-write_leaf (some manager) next sample versions next-IsVersion sample-Holds
      versions-IsLeaf no_conflict next_room

-- Transaction 5 is still running, so another may not write its key.
abbrev pub busy : TransactionManager
busy = record { txn_table = (5, running) ∷ []; lsn_table = [] }

pub in_conflict : has_conflict (some busy) next versions ≡ true
unfolding compare_bytes get_status ryu_db.Base.Table.lookup
in_conflict = refl
