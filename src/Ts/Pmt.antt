-- ===== src/Ts/Pmt.antt =====
-- media/pmt.c: `pmtparse`, over the answers of `read` for whole packets.
use cliveserver.Base.{
  ℕ, zero, suc, ◌+◌, ◌%◌, ◌⊎◌, inl, inr, ◌&&◌, not, Option, none, some, List, [], ◌∷◌, bit_and,
  ◌==◌, if◌then◌else◌,
}
use cliveserver.Ts.{
  Packet, get_pid, is_payload_unit_start, get_adaptation, get_elem?, ◌>>=◌, two_bytes,
  section_start,
}
use cliveserver.Ts.Pat.{sub16}

-- `es_list`
pub record Stream : Type 0 where
  pub stream_type : ℕ
  pub es_pid : ℕ

-- `pmt_list`
pub record PmtList : Type 0 where
  pub program_num : ℕ
  pub pcr_pid : ℕ
  pub alles : List Stream

abbrev pub no_streams : PmtList
no_streams = record { program_num = 0; pcr_pid = 0; alles = [] }

-- The loop over the streams of a section, with the free slots of `alles` first. The length of a
-- stream's descriptors moves an index of eight bits.
unfoldable pub pmt_streams : ℕ → List ℕ → ℕ → ℕ → Option (List Stream)
pmt_streams zero payload start n = if n == 0 then some [] else none
pmt_streams (suc slots) payload start n =
    let rest = λ (es_info_length : ℕ).
      pmt_streams slots payload ((start + 5 + es_info_length) % 256)
        (sub16 (sub16 n 5) es_info_length) in
    if n == 0
    then some []
    else (get_elem? payload start >>= λ stream_type.
        two_bytes payload ((start + 1) % 256) >>= λ pid.
        two_bytes payload ((start + 3) % 256) >>= λ info. rest (bit_and info 0x0fff) >>= λ streams.
        some (record { stream_type = stream_type; es_pid = bit_and pid 0x1fff } ∷ streams))

-- the section behind its table id, which is at `start`
unfoldable pub pmt_section : List ℕ → ℕ → Option PmtList
pmt_section payload start = two_bytes payload ((start + 1) % 256) >>= λ length.
    two_bytes payload ((start + 3) % 256) >>= λ program_num.
    two_bytes payload ((start + 8) % 256) >>= λ pcr.
    two_bytes payload ((start + 10) % 256) >>= λ info.
    let program_info_length = bit_and info 0x0fff in
    pmt_streams 5 payload ((start + 10 + program_info_length + 2) % 256)
      (sub16 (sub16 (bit_and length 0x3ff) 13) program_info_length)
    >>= λ streams.
        some (record { program_num = program_num; pcr_pid = bit_and pcr 0x1fff; alles = streams })

-- One packet: the `payload_start` with which the search goes on, or the result. A section of
-- another table with this PID ends the search with nothing.
unfoldable pub pmt_packet : ℕ → Packet → ℕ → Option (ℕ ⊎ PmtList)
pmt_packet pmt_pid p payload_start =
    if (p.header0 == 0x47 && get_pid p == pmt_pid)
      && (is_payload_unit_start p && not (bit_and (get_adaptation p) 1 == 0))
    then (section_start p payload_start >>= λ start. get_elem? p.payload start >>= λ table_id.
        if table_id == 2
        then (pmt_section p.payload start >>= λ pmt. some (inr pmt))
        else some (inr no_streams))
    else some (inl payload_start)

unfoldable pub pmt_loop : ℕ → ℕ → List (Option Packet) → ℕ → Option PmtList
pmt_loop pmt_pid zero packets payload_start = some no_streams
pmt_loop pmt_pid (suc i) [] payload_start = some no_streams
pmt_loop pmt_pid (suc i) (none ∷ packets) payload_start = pmt_loop pmt_pid i packets payload_start
pmt_loop pmt_pid (suc i) (some p ∷ packets) payload_start =
    elim (pmt_packet pmt_pid p payload_start) [
      | none ↦ none
      | some (inl start) ↦ pmt_loop pmt_pid i packets start
      | some (inr pmt) ↦ some pmt
    ]

unfoldable pub pmtparse : List (Option Packet) → ℕ → Option PmtList
pmtparse packets pmt_pid = pmt_loop pmt_pid 32768 packets 0
