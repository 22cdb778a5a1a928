-- ===== src/Channel.antt =====
-- workers/channelNumberFinder/channelNumberFinder.go: which channel number comes next.
-- A uint16 is a number below 65536. `used` stands for `ChannelFinder.IsChannelUsed`, as it answers
-- during one call. The mutex makes a call one step.
pub mod Scan
pub mod Termination
pub mod Clear
use vlite.Base.{
  ℕ, zero, suc, ◌+◌, ◌%◌, bit_or, bit_xor, Bool, true, false, not, Option, none, some, ltb, ◌==◌,
  if◌then◌else◌,
}

pub record Finder : Type 0 where
  pub last_allocated_number : ℕ
  pub direction_is_descending : Bool
  pub mask : ℕ
  pub out_mask : ℕ

unfoldable pub new_finder : ℕ → ℕ → Finder
new_finder mask out_mask = record {
  last_allocated_number = 0;
  direction_is_descending = false;
  mask = mask;
  out_mask = out_mask;
}

-- The variables of the loop in `organise`.
pub record Scanned : Type 0 where
  pub scanning : ℕ
  pub max : ℕ
  pub min : ℕ

-- One round: `Scanning++` and the two comparisons.
scan_round : (ℕ → Bool) → ℕ → Scanned → Scanned
scan_round used out s =
    let n = (s.scanning + 1) % 65536 in
    if used (bit_or n out)
    then record {
      scanning = n;
      max = if ltb s.max n then n else s.max;
      min = if ltb n s.min then n else s.min;
    }
    else record s { scanning = n }

-- The loop, with fuel: `(Scanning+1) != (0xffff^cnf.Mask)`. At most 65535 rounds are made.
scan : ℕ → (ℕ → Bool) → ℕ → ℕ → Scanned → Scanned
scan zero used out target s = s
scan (suc fuel) used out target s =
    let rest = scan fuel used out target (scan_round used out s) in
    if (s.scanning + 1) % 65536 == target then s else rest

-- `^cnf.Mask`, which is also where the scan stops.
abbrev pub limit : ℕ → ℕ
limit mask = bit_xor 0xffff mask

pub scan_all : (ℕ → Bool) → Finder → Scanned
scan_all used c =
    scan 65536 used c.out_mask (limit c.mask) (record { scanning = 0; max = 0; min = limit c.mask })

pub organise : (ℕ → Bool) → Finder → Finder
organise used c =
    let s = scan_all used c in
    if not c.direction_is_descending
    then record c { direction_is_descending = true; last_allocated_number = s.min }
    else record c { direction_is_descending = false; last_allocated_number = s.max }

-- The body calls itself after `organise`; `none` is a recursion deeper than the fuel.
unfoldable pub find_next_raw : ℕ → (ℕ → Bool) → Finder → Option (ℕ × Finder)
find_next_raw zero used c = none
find_next_raw (suc fuel) used c =
    let again = find_next_raw fuel used (organise used c) in
    let down = (c.last_allocated_number + 65535) % 65536 in
    let up = (c.last_allocated_number + 1) % 65536 in
    if c.direction_is_descending
    then if c.last_allocated_number == 2
      then again
      else some (down, record c { last_allocated_number = down })
    else if bit_or c.last_allocated_number c.mask == 0xffff
    then again
    else some (up, record c { last_allocated_number = up })

-- Three levels of recursion are enough.
unfoldable pub find_next : (ℕ → Bool) → Finder → Option (ℕ × Finder)
find_next used c = elim (find_next_raw 3 used c) [
  | none ↦ none
  | some (result, c') ↦ some (bit_or result c.out_mask, c')
]
