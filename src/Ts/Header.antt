-- ===== src/Ts/Header.antt =====
-- The macros of media/ts.h that read and write the header of a packet, and the clock reference of its
-- adaptation field. `<<` and `|` of parts that do not overlap are a product and a sum.
use Prim.Native.Nat.{bit_or}
use cliveserver.Base.{ℕ, ◌+◌, ◌*◌, ◌/◌, Bool, Option, some, bit_and, ◌==◌}
use cliveserver.Ts.{Packet, get_elem?, ◌>>=◌}

-- `GET3BYTES`
abbrev pub get3bytes : ℕ → ℕ → ℕ → ℕ
get3bytes a b c = a * 65536 + b * 256 + c

-- `TSPACKET_SETPID`
unfoldable pub set_pid : Packet → ℕ → Packet
set_pid p pid = record p {
  header1 = bit_or (bit_and p.header1 0xe0) (bit_and (pid / 256) 0x1f);
  header2 = bit_and pid 0xff;
}

-- `TSPACKET_GETCOUNT`
unfoldable pub get_count : Packet → ℕ
get_count p = bit_and p.header3 0x0f

-- `TSPACKET_SETCOUNT`
unfoldable pub set_count : Packet → ℕ → Packet
set_count p count = record p { header3 = bit_or (bit_and p.header3 0xf0) (bit_and count 0x0f) }

-- `TSPACKET_ISVALID`
unfoldable pub is_valid : Packet → Bool
is_valid p = bit_and p.header1 0x80 == 0x00

-- `TSPACKET_GETPRIORITY`
unfoldable pub get_priority : Packet → ℕ
get_priority p = bit_and p.header1 0x20 / 16

-- `TSPACKET_SETPRIORITY`
unfoldable pub set_priority : Packet → ℕ → Packet
set_priority p priority = record p {
  header1 = bit_or (bit_and p.header1 0xdf) (bit_and (priority * 16) 0x20);
}

-- `TSPACKET_SETADAPTATION`
unfoldable pub set_adaptation : Packet → ℕ → Packet
set_adaptation p adaptation = record p {
  header3 = bit_or (bit_and p.header3 0xcf) (bit_and (adaptation * 16) 0x30);
}

-- `TSPACKET_GETADAPTATION_LEN`; `none` is an access outside the payload
unfoldable pub get_adaptation_len : Packet → Option ℕ
get_adaptation_len p = get_elem? p.payload 0

-- `TSPACKET_ISPCRFLAGSET`
unfoldable pub is_pcr_flag_set : Packet → Option Bool
is_pcr_flag_set p = get_elem? p.payload 1 >>= λ flags. some (bit_and flags 0x10 == 0x10)

-- `TSPACKET_GETPCRBASE`
unfoldable pub get_pcr_base : Packet → Option ℕ
get_pcr_base p = get_elem? p.payload 2 >>= λ a. get_elem? p.payload 3 >>= λ b.
    get_elem? p.payload 4 >>= λ c. get_elem? p.payload 5 >>= λ d. get_elem? p.payload 6 >>= λ e.
    some (a * 33554432 + b * 131072 + c * 512 + d * 2 + bit_and e 0x80 / 128)

-- `TSPACKET_GETPCREXT`
unfoldable pub get_pcr_ext : Packet → Option ℕ
get_pcr_ext p = get_elem? p.payload 7 >>= λ low.
    get_elem? p.payload 6 >>= λ high. some (low + bit_and high 0x01 * 256)
