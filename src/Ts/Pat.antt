-- ===== src/Ts/Pat.antt =====
-- media/pat.c: `patparse`, over the answers of `read` for whole packets.
use cliveserver.Base.{
  ℕ, zero, suc, ◌+◌, ◌-◌, ◌%◌, ◌^◌, ◌⊎◌, inl, inr, ◌&&◌, not, Option, none, some, List, [], ◌∷◌,
  bit_and, ◌==◌, if◌then◌else◌,
}
use cliveserver.Ts.{
  Packet, get_pid, is_payload_unit_start, get_adaptation, get_elem?, ◌>>=◌, two_bytes,
  section_start,
}

-- `program_list`
pub record Program : Type 0 where
  pub program_num : ℕ
  pub pmt_pid : ℕ

-- `-=` on `uint16_t`
abbrev pub sub16 : ℕ → ℕ → ℕ
sub16 a b = (a + 2 ^ 16 - b) % 2 ^ 16

-- The loop over the programs of a section, with the free slots of `program` first. It ends at a
-- section length of exactly 0; outside the packet or the slots there is `none`.
unfoldable pub pat_entries : ℕ → List ℕ → ℕ → ℕ → Option (List Program)
pat_entries zero payload start n = if n == 0 then some [] else none
pat_entries (suc slots) payload start n =
    let rest = pat_entries slots payload ((start + 4) % 256) (sub16 n 4) in
    if n == 0
    then some []
    else (two_bytes payload start >>= λ num. two_bytes payload ((start + 2) % 256) >>= λ pid.
        rest >>= λ programs.
        some (record { program_num = num; pmt_pid = bit_and pid 0x1fff } ∷ programs))

-- One packet: the `payload_start` with which the search goes on, or the programs.
unfoldable pub pat_packet : Packet → ℕ → Option (ℕ ⊎ List Program)
pat_packet p payload_start =
    if (p.header0 == 0x47 && get_pid p == 0)
      && (is_payload_unit_start p && not (bit_and (get_adaptation p) 1 == 0))
    then (section_start p payload_start >>= λ start. get_elem? p.payload start >>= λ table_id.
        if table_id == 0
        then (two_bytes p.payload ((start + 1) % 256) >>= λ length.
            pat_entries 20 p.payload ((start + 8) % 256) (sub16 (bit_and length 0x3ff) 9)
            >>= λ programs. some (inr programs))
        else some (inl start))
    else some (inl payload_start)

-- The search, with the rounds left. A read that is short gives no packet, and neither does the end
-- of the file, which is the end of the list.
unfoldable pub pat_loop : ℕ → List (Option Packet) → ℕ → Option (List Program)
pat_loop zero packets payload_start = some []
pat_loop (suc i) [] payload_start = some []
pat_loop (suc i) (none ∷ packets) payload_start = pat_loop i packets payload_start
pat_loop (suc i) (some p ∷ packets) payload_start = elim (pat_packet p payload_start) [
  | none ↦ none
  | some (inl start) ↦ pat_loop i packets start
  | some (inr programs) ↦ some programs
]

unfoldable pub patparse : List (Option Packet) → Option (List Program)
patparse packets = pat_loop 32768 packets 0
