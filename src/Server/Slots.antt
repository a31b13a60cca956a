-- ===== src/Server/Slots.antt =====
-- src/server.rs, `ConnectionSlot`: the count of open connections. `acquire` adds first and takes
-- back if there were too many, so between its two atomic operations others may run.
use keep_talking_sfu.Prelude.{ℕ, ◌+◌, ◌-◌, ◌%◌, ◌^◌, ◌≤◌, ◌<◌, ◌≡◌, refl, leb, if◌then◌else◌, arith}

-- `AtomicU64::fetch_add(1)` and `fetch_sub(1)`.
abbrev pub add_one : ℕ → ℕ
add_one c = (c + 1) % 2 ^ 64

abbrev pub sub_one : ℕ → ℕ
sub_one c = (c + 2 ^ 64 - 1) % 2 ^ 64

-- The counter, the slots that are held, and the calls of `acquire` that have added and not yet
-- taken back.
pub record Slots : Type 0 where
  pub connections : ℕ
  pub held : ℕ
  pub refusing : ℕ

-- The first operation of `acquire` and its test; the second one, when refused; ``drop`.
unfoldable pub acquire : ℕ → Slots → Slots
acquire max_connections s =
    if leb max_connections s.connections
    then record s { connections = add_one s.connections; refusing = s.refusing + 1 }
    else record s { connections = add_one s.connections; held = s.held + 1 }

unfoldable pub take_back : Slots → Slots
take_back s = record s { connections = sub_one s.connections; refusing = s.refusing - 1 }

unfoldable pub drop_slot : Slots → Slots
drop_slot s = record s { connections = sub_one s.connections; held = s.held - 1 }

-- Any interleaving of the calls of many tasks, of which fewer than 2^32 are being refused at once.
pub data Reach (max_connections : ℕ) : Slots → Type 0 where
  starts : Reach max_connections (record { connections = 0; held = 0; refusing = 0 })
  acquires :
      {s : Slots}
      → Reach max_connections s
      → s.refusing < 2 ^ 32
      → Reach max_connections (acquire max_connections s)
  takes_back :
      {s : Slots} → Reach max_connections s → 0 < s.refusing → Reach max_connections (take_back s)
  drops : {s : Slots} → Reach max_connections s → 0 < s.held → Reach max_connections (drop_slot s)

-- However the tasks interleave, no more connections hold a slot than the limit allows, and the
-- counter is exact: it is the held slots and the calls that still have to take back. The limit is
-- below 2^62, and a call starts only while fewer than 2^32 have to take back.
pub slots_bounded :
    (max_connections : ℕ) (s : Slots)
    → max_connections < 2 ^ 62
    → Reach max_connections s
    → (s.held ≤ max_connections) × (s.connections ≡ s.held + s.refusing) × (s.refusing ≤ 2 ^ 32)
unfolding acquire take_back drop_slot
slots_bounded m s h starts = (omega arith, refl, omega arith)
slots_bounded m s h (acquires {s = s'} r few) = ground (arith, slots_bounded m s' h r)
slots_bounded m s h (takes_back {s = s'} r some_left) = omega (arith, slots_bounded m s' h r)
slots_bounded m s h (drops {s = s'} r some_left) = omega (arith, slots_bounded m s' h r)
