-- ===== src/Ts/Fields.antt =====
-- Writing a field of a header and reading it back, and reading the others.
use cliveserver.Base.{
  ℕ, ◌+◌, ◌*◌, ◌/◌, ◌%◌, ◌^◌, ◌<◌, ◌≡◌, refl, ap, ◌∙◌, some, List, [], ◌∷◌, ◌++◌, bit_and, ◌==◌,
  arith,
}
use cliveserver.Base.Bits.{bit_and-mask, bit_and-shift}
use cliveserver.Base.Digits.{field_set, field_kept}
use cliveserver.Ts.{Packet, get_pid, is_payload_unit_start, get_adaptation}
use cliveserver.Ts.Header.{
  set_pid, get_count, set_count, is_valid, get_priority, set_priority, set_adaptation, get_pcr_base,
  get_pcr_ext,
}

-- After TSPACKET_SETPID the PID reads as the low 13 bits of the value, whatever the packet, and the
-- marks of a payload unit start and of an error, the priority, the adaptation field control and the
-- count read as before.
pub set_pid-fields :
    (p : Packet) (pid : ℕ)
    → (get_pid (set_pid p pid) ≡ pid % 8192)
      × (is_payload_unit_start (set_pid p pid) ≡ is_payload_unit_start p)
      × (is_valid (set_pid p pid) ≡ is_valid p)
      × (get_priority (set_pid p pid) ≡ get_priority p)
      × (get_adaptation (set_pid p pid) ≡ get_adaptation p)
      × (get_count (set_pid p pid) ≡ get_count p)
unfolding set_pid is_valid get_priority get_count
set_pid-fields p pid = (
  rw (field_set p.header1 0xe0 (pid / 256) 0x1f refl)
      (omega (arith, bit_and-mask 5 (pid / 256), bit_and-mask 8 pid)),
  ap (λ b. b == 0x40) (field_kept p.header1 0xe0 (pid / 256) 0x1f 0x40 refl refl),
  ap (λ b. b == 0x00) (field_kept p.header1 0xe0 (pid / 256) 0x1f 0x80 refl refl),
  ap (λ b. b / 16) (field_kept p.header1 0xe0 (pid / 256) 0x1f 0x20 refl refl),
  refl,
  refl,
)

-- After TSPACKET_SETCOUNT the count reads as the low 4 bits of the value and the adaptation field
-- control as before; after TSPACKET_SETADAPTATION the control reads as the low 2 bits of the value and
-- the count as before.
pub set_count-fields :
    (p : Packet) (v : ℕ)
    → (get_count (set_count p v) ≡ v % 16)
      × (get_adaptation (set_count p v) ≡ get_adaptation p)
      × (get_adaptation (set_adaptation p v) ≡ v % 4)
      × (get_count (set_adaptation p v) ≡ get_count p)
unfolding get_count set_count set_adaptation
set_count-fields p v = (
  field_set p.header3 0xf0 v 0x0f refl ∙ bit_and-mask 4 v,
  ap (λ b. b / 16) (field_kept p.header3 0xf0 v 0x0f 0x30 refl refl),
  rw (field_set p.header3 0xcf (v * 16) 0x30 refl) (
      omega (
        arith,
        bit_and-shift 4 (v * 16) 3,
        ap (λ (b : ℕ). bit_and b 3) {x = v * 16 / 2 ^ 4} {y = v} (omega arith),
        bit_and-mask 2 v,
      )),
  field_kept p.header3 0xcf (v * 16) 0x30 0x0f refl refl,
)

-- TSPACKET_SETPRIORITY writes the bit 1 of the value, not the bit 0: a priority of 0 or 1 always reads
-- as 0, and 2 as 2. The PID and the marks read as before.
pub set_priority-fields :
    (p : Packet) (v : ℕ)
    → (get_priority (set_priority p v) ≡ v / 2 % 2 * 2)
      × (get_pid (set_priority p v) ≡ get_pid p)
      × (is_payload_unit_start (set_priority p v) ≡ is_payload_unit_start p)
      × (is_valid (set_priority p v) ≡ is_valid p)
unfolding is_valid get_priority set_priority
set_priority-fields p v = (
  rw (field_set p.header1 0xdf (v * 16) 0x20 refl)
      (omega (arith, bit_and-shift 5 (v * 16) 1, bit_and-mask 1 (v * 16 / 32))),
  ap (λ b. b * 256 + p.header2) (field_kept p.header1 0xdf (v * 16) 0x20 0x1f refl refl),
  ap (λ b. b == 0x40) (field_kept p.header1 0xdf (v * 16) 0x20 0x40 refl refl),
  ap (λ b. b == 0x00) (field_kept p.header1 0xdf (v * 16) 0x20 0x80 refl refl),
)

-- The six bytes of a clock reference in the standard's layout: 33 bits of base, 6 of reserve, 9 of
-- extension.
abbrev pub pcr_bytes : ℕ → ℕ → List ℕ
pcr_bytes base ext =
    base / 33554432
    ∷ base / 131072 % 256
    ∷ base / 512 % 256
    ∷ base / 2 % 256
    ∷ (base % 2 * 128 + 126 + ext / 256)
    ∷ ext % 256
    ∷ []

-- Behind the length and the flags of an adaptation field, the bytes of a clock reference with a base
-- of 33 bits and an extension of 9 bits read as that base and that extension.
pub pcr_bytes-read :
    (p : Packet) (len flags base ext : ℕ) (rest : List ℕ)
    → base < 2 ^ 33
    → ext < 2 ^ 9
    → p.payload ≡ len ∷ flags ∷ pcr_bytes base ext ++ rest
    → (get_pcr_base p ≡ some base) × (get_pcr_ext p ≡ some ext)
unfolding get_pcr_base get_pcr_ext
pcr_bytes-read p len flags base ext rest h h' e =
    let high = base % 2 * 128 + 126 + ext / 256 in
    rw e (
      ap some (omega (arith, h, h', bit_and-shift 7 high 1, bit_and-mask 1 (high / 128))),
      ap some (omega (arith, h', bit_and-mask 1 high)),
    )
