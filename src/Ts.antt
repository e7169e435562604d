-- ===== src/Ts.antt =====
-- media/ts.h: transport stream packets and the fields of their header. The parsers of the program
-- association table and the program map table are in `Ts.Pat` and `Ts.Pmt`.
pub mod Pat
pub mod Section
pub mod Header
pub mod Fields
pub mod Pmt
pub mod Streams
pub mod Pids
mod Tests
use cliveserver.Base.{
  ℕ, zero, suc, ◌+◌, ◌*◌, ◌/◌, ◌%◌, Bool, Option, none, some, List, [], ◌∷◌, bit_and, ◌==◌,
  if◌then◌else◌,
}

-- `TSPacket_t`: four bytes of header, and the payload
pub record Packet : Type 0 where
  pub header0 : ℕ
  pub header1 : ℕ
  pub header2 : ℕ
  pub header3 : ℕ
  pub payload : List ℕ

-- `GET2BYTES`: `<<` and `|` of bytes are a product and a sum
abbrev pub get2bytes : ℕ → ℕ → ℕ
get2bytes a b = a * 256 + b

-- `TSPACKET_GETPID`
abbrev pub get_pid : Packet → ℕ
get_pid p = bit_and p.header1 0x1f * 256 + p.header2

-- `TSPACKET_ISPAYLOADUNITSTART`
abbrev pub is_payload_unit_start : Packet → Bool
is_payload_unit_start p = bit_and p.header1 0x40 == 0x40

-- `TSPACKET_GETADAPTATION`
abbrev pub get_adaptation : Packet → ℕ
get_adaptation p = bit_and p.header3 0x30 / 16

module _ {A : Type 0} where
  -- the element at an index, if there is one
  abbrev pub get_elem? : List A → ℕ → Option A
  get_elem? [] i = none
  get_elem? (x ∷ xs) zero = some x
  get_elem? (x ∷ xs) (suc i) = get_elem? xs i

-- the steps of a parser: `none` is an access outside an array
infixl 5 ◌>>=◌
abbrev pub ◌>>=◌ : {A B : Type 0} → Option A → (A → Option B) → Option B
none >>= f = none
some a >>= f = f a

-- two bytes of a payload from an index on
abbrev pub two_bytes : List ℕ → ℕ → Option ℕ
two_bytes payload i =
    get_elem? payload i >>= λ a. get_elem? payload (i + 1) >>= λ b. some (get2bytes a b)

-- Where a section's table id is, from the local variable `payload_start` of eight bits, which only
-- an adaptation field sets anew.
unfoldable pub section_start : Packet → ℕ → Option ℕ
section_start p payload_start =
    (if bit_and (get_adaptation p) 2 == 0
      then some payload_start
      else (get_elem? p.payload 0 >>= λ n. some ((n + 1) % 256)))
    >>= λ start. get_elem? p.payload start >>= λ pointer. some (((start + pointer) % 256 + 1) % 256)
