-- ===== src/Cell/Flags.antt =====
-- The flag bits of a KVCell.
use ryu_db.Base.{
  ℕ, zero, suc, ◌≡◌, ◌<◌, ◌≤◌, ◌+◌, if◌then◌else◌, refl, arith, Bool, true, false, not, ◌&&◌,
  bit_and, bit_or, ◌==◌,
}
use ryu_db.Cell.{KvCell, is_deleted, set_deleted, is_overflow, set_overflow}

-- Does the table hold at the `count` numbers from `first` on?
holds_from : ℕ → ℕ → (ℕ → Bool) → Bool
holds_from first zero table = true
holds_from first (suc count) table =
    let rest = holds_from (suc first) count table in if table first then rest else false

holds_from_entry :
    (count first f : ℕ) (table : ℕ → Bool)
    → holds_from first count table ≡ true
    → first ≤ f
    → f < first + count
    → table f ≡ true
unfolding holds_from
holds_from_entry zero first f table all above below = absurd (omega arith)
holds_from_entry (suc count) first f table all above below =
    ground (arith, holds_from_entry count (suc first) f table)

same : Bool → Bool → Bool
same true b = b
same false b = not b

-- Each bit is set by its own setter and left by the other's.
flag_table : ℕ → Bool
unfolding same
flag_table f =
    not (bit_and (bit_or f 2) 2 == 0)
    && same (not (bit_and (bit_or f 2) 4 == 0)) (not (bit_and f 4 == 0))
    && not (bit_and (bit_or f 4) 4 == 0)
    && same (not (bit_and (bit_or f 4) 2 == 0)) (not (bit_and f 2 == 0))

flag_table_holds : holds_from 0 256 flag_table ≡ true
unfolding holds_from flag_table
flag_table_holds = refl

-- On a byte of flags, SetDeleted makes IsDeleted true and leaves IsOverflow, and SetOverflow makes
-- IsOverflow true and leaves IsDeleted.
pub flags_independent :
    (k : KvCell)
    → k.flag < 256
    → (is_deleted (set_deleted k) ≡ true)
      × (is_overflow (set_deleted k) ≡ is_overflow k)
      × (is_overflow (set_overflow k) ≡ true)
      × (is_deleted (set_overflow k) ≡ is_deleted k)
unfolding is_deleted is_overflow set_deleted set_overflow flag_table
flags_independent k h =
    ground
      (arith, holds_from_entry 256 0 k.flag flag_table flag_table_holds (omega arith) (omega arith))
