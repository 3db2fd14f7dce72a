-- ===== src/Bytes/Fields.antt =====
-- Little-endian integer fields of a byte array.
use pagebox.Base.{ℕ, ◌+◌, ◌^◌, ◌≤◌, ◌<◌, ◌≡◌, ap, ◌∙◌, ◌⊎◌, arith}
use pagebox.Bytes.Memory.{
  Memory, IsByte, write_bytes-IsByte, read_bytes, write_bytes, read_back, read_bytes_outside,
  write_bytes_outside, read_bytes_cong,
}
use pagebox.Bytes.LittleEndian.{
  from_le_bytes, to_le_bytes, to_le_bytes-IsByte, length-to_le_bytes, from_le_bytes-to_le_bytes,
}

-- `uN::from_le_bytes(buf[at..at + n])`
unfoldable pub get_le : ℕ → ℕ → Memory → ℕ
get_le n at m = from_le_bytes (read_bytes m at n)

-- `buf[at..at + n].copy_from_slice(&v.to_le_bytes())`
unfoldable pub put_le : ℕ → ℕ → ℕ → Memory → Memory
put_le n at v m = write_bytes m at (to_le_bytes n v)

pub get_le-put_le : (n at v : ℕ) (m : Memory) → v < 256 ^ n → get_le n at (put_le n at v m) ≡ v
unfolding get_le put_le
get_le-put_le n at v m fits =
    ap from_le_bytes (read_back m at (to_le_bytes n v) (length-to_le_bytes n v))
    ∙ from_le_bytes-to_le_bytes n v fits

-- A field that another write does not touch.
pub get_le-put_le_apart :
    (n at n' at' v : ℕ) (m : Memory)
    → (at + n ≤ at') ⊎ (at' + n' ≤ at)
    → get_le n at (put_le n' at' v m) ≡ get_le n at m
unfolding get_le put_le
get_le-put_le_apart n at n' at' v m apart =
    let size = length-to_le_bytes n' v in
    ap from_le_bytes (read_bytes_outside m at' (to_le_bytes n' v) at n (omega (arith, size, apart)))

pub put_le_outside :
    (n at v : ℕ) (m : Memory) (x : ℕ) → (x < at) ⊎ (at + n ≤ x) → put_le n at v m x ≡ m x
unfolding put_le
put_le_outside n at v m x apart =
    let size = length-to_le_bytes n v in
    write_bytes_outside m at (to_le_bytes n v) x (omega (arith, size, apart))

pub get_le_cong :
    (n at : ℕ) (m m' : Memory)
    → ((x : ℕ) → at ≤ x → x < at + n → m x ≡ m' x)
    → get_le n at m ≡ get_le n at m'
unfolding get_le
get_le_cong n at m m' same = ap from_le_bytes (read_bytes_cong m m' at n same)

pub put_le-IsByte :
    (n at v : ℕ) (m : Memory) → ((a : ℕ) → IsByte (m a)) → (a : ℕ) → IsByte (put_le n at v m a)
unfolding put_le
put_le-IsByte n at v m bytes =
    write_bytes-IsByte m at (to_le_bytes n v) (to_le_bytes-IsByte n v) bytes
