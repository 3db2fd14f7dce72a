-- ===== src/Latch/Word.antt =====
-- `crates/hybrid-latch/src/helpers.rs`: the 64-bit version word. `none` is a panic.
use Prim.Native.Nat.{bit_and, bit_or}
use pagebox.Base.{
  ℕ, ◌+◌, ◌-◌, ◌*◌, ◌/◌, ◌%◌, ◌≤◌, ◌<◌, ◌≡◌, refl, ◌∙◌, Option, none, some, Bool, true, not, arith,
  leb, leb→le, le→leb, ◌==◌, if◌then◌else◌, guard, ◌>>◌,
}
use pagebox.Base.Bits.{bit_and_step, bit_and-one, bit_or-one, bit_and-ones}

abbrev pub u64_mod : ℕ
u64_mod = 18446744073709551616

abbrev pub exclusive_bit : ℕ
exclusive_bit = 1

-- `!EXCLUSIVE_BIT`
abbrev pub clear_exclusive_bit : ℕ
clear_exclusive_bit = u64_mod - 2

abbrev pub version_step : ℕ
version_step = 2

unfoldable pub exclusive_mask : ℕ → ℕ
exclusive_mask word = bit_and word exclusive_bit

unfoldable pub exclusive_mask_is_set : ℕ → Bool
exclusive_mask_is_set mask = not (mask == 0)

unfoldable pub version_is_exclusive : ℕ → Bool
unfolding exclusive_mask exclusive_mask_is_set
version_is_exclusive word = exclusive_mask_is_set (exclusive_mask word)

unfoldable pub optimistic_snapshot_still_valid : ℕ → ℕ → Bool
optimistic_snapshot_still_valid current snapshot = current == snapshot

unfoldable pub optimistic_restart_required : ℕ → ℕ → Bool
unfolding optimistic_snapshot_still_valid
optimistic_restart_required current snapshot =
    not (optimistic_snapshot_still_valid current snapshot)

unfoldable pub enter_exclusive_version : ℕ → ℕ
enter_exclusive_version current = bit_or current exclusive_bit

unfoldable pub exclusive_base_version : ℕ → ℕ
exclusive_base_version version = bit_and version clear_exclusive_bit

unfoldable pub can_advance_readable_version : ℕ → Bool
can_advance_readable_version version = leb version 18446744073709551613

-- `checked_add`
unfoldable pub advance_readable_version_checked : ℕ → Option ℕ
advance_readable_version_checked version =
    if leb (version + version_step) (u64_mod - 1) then some (version + version_step) else none

unfoldable pub advance_readable_version : ℕ → Option ℕ
unfolding can_advance_readable_version advance_readable_version_checked
advance_readable_version version = do
  guard (can_advance_readable_version version)
  advance_readable_version_checked version

unfoldable pub exit_exclusive_version : ℕ → Option ℕ
unfolding version_is_exclusive exclusive_base_version advance_readable_version
exit_exclusive_version version = do
  guard (version_is_exclusive version)
  advance_readable_version (exclusive_base_version version)

unfoldable pub optimistic_read_allowed : ℕ → Bool
unfolding version_is_exclusive
optimistic_read_allowed version = not (version_is_exclusive version)

unfoldable pub optimistic_snapshot : ℕ → Option ℕ
unfolding optimistic_read_allowed
optimistic_snapshot version = if not (optimistic_read_allowed version) then none else some version

-- The exclusive bit is the parity of the word.
pub version_is_exclusive-parity : (w : ℕ) → version_is_exclusive w ≡ (w % 2 == 1)
unfolding version_is_exclusive
version_is_exclusive-parity w = rw (bit_and-one w) (ground arith)

pub enter_exclusive-even : (v : ℕ) → v % 2 ≡ 0 → enter_exclusive_version v ≡ v + 1
unfolding enter_exclusive_version
enter_exclusive-even v h = bit_or-one v ∙ omega arith

pub exclusive_base-floor : (w : ℕ) → w < u64_mod → exclusive_base_version w ≡ w / 2 * 2
unfolding exclusive_base_version
exclusive_base-floor w h =
    omega (arith, bit_and_step w clear_exclusive_bit, bit_and-ones 63 (w / 2) (omega arith))

-- Leaving an exclusive section takes a readable version to the next one.
pub exit_exclusive-enter :
    (v : ℕ)
    → v % 2 ≡ 0
    → can_advance_readable_version v ≡ true
    → exit_exclusive_version (v + 1) ≡ some (v + 2)
unfolding exit_exclusive_version can_advance_readable_version exclusive_base_version
exit_exclusive-enter v even h =
    let room : v ≤ 18446744073709551613 = leb→le v 18446744073709551613 h in
    let bit : bit_and (v + 1) 1 ≡ 1 = bit_and-one (v + 1) ∙ omega arith in
    let base : bit_and (v + 1) clear_exclusive_bit ≡ v =
      exclusive_base-floor (v + 1) (omega arith) ∙ omega arith in
    rw (bit, base, le→leb v 18446744073709551613 room)
      (rw (le→leb (v + 2) (u64_mod - 1) (omega arith)))

-- A snapshot is taken of readable versions only, as they are.
pub optimistic_snapshot_lem : (v s : ℕ) → optimistic_snapshot v ≡ some s → (s ≡ v) × (v % 2 ≡ 0)
unfolding optimistic_snapshot
optimistic_snapshot_lem v s e = ground (arith, bit_and-one v)

pub optimistic_snapshot-even : (v : ℕ) → v % 2 ≡ 0 → optimistic_snapshot v ≡ some v
unfolding optimistic_snapshot
optimistic_snapshot-even v e = rw (bit_and-one v, e) refl

pub optimistic_snapshot-odd : (v : ℕ) → v % 2 ≡ 1 → optimistic_snapshot v ≡ none
unfolding optimistic_snapshot
optimistic_snapshot-odd v e = rw (bit_and-one v, e) refl
