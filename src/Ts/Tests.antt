-- ===== src/Ts/Tests.antt =====
-- The table of two programs in one packet, and a packet in front of it that hides it.
use cliveserver.Base.{◌%◌, ◌/◌, ◌*◌, ◌++◌}
use cliveserver.Ts.{get_pid}
use cliveserver.Ts.Header.{set_pid, get_priority, set_priority, get_pcr_base, get_pcr_ext}
use cliveserver.Ts.Fields.{set_pid-fields, set_priority-fields, pcr_bytes, pcr_bytes-read}
use cliveserver.Base.{ℕ, ◌≡◌, refl, none, some, List, [], ◌∷◌, ◌++◌, arith}
use cliveserver.Ts.{Packet, section_start}
use cliveserver.Ts.Pat.{Program, pat_entries, pat_packet, pat_loop, patparse}
use cliveserver.Ts.Pmt.{pmtparse}
use cliveserver.Ts.Streams.{map_section}
use cliveserver.Ts.Pids.{ProgramMap, IsSmall, BeginsMap, read_back, pmtparse-section}
use cliveserver.Ts.Section.{Begins, section, patparse-section}

abbrev table : List Program
table =
    record { program_num = 1; pmt_pid = 0x100 } ∷ record { program_num = 2; pmt_pid = 0x1001 } ∷ []

abbrev pid_zero : List ℕ → Packet
pid_zero payload = record {
  header0 = 0x47;
  header1 = 0x40;
  header2 = 0;
  header3 = 0x15;
  payload = payload;
}

abbrev first : Packet
first = pid_zero (section table (0 ∷ 1 ∷ 0xc1 ∷ 0 ∷ 0 ∷ []) (9 ∷ 9 ∷ 9 ∷ 9 ∷ 255 ∷ []))

first-Begins : Begins first table
first-Begins = record {
  sync = refl;
  pid = refl;
  unit = refl;
  adaptation = refl;
  skipped = 0 ∷ 1 ∷ 0xc1 ∷ 0 ∷ 0 ∷ [];
  five = omega arith;
  tail = 9 ∷ 9 ∷ 9 ∷ 9 ∷ 255 ∷ [];
  whole = refl;
}

abbrev video : Packet
video = record (pid_zero []) { header1 = 0x41; header2 = 0x11 }

patparse-section_example : patparse ((none ∷ some video ∷ []) ++ some first ∷ []) ≡ some table
patparse-section_example =
    patparse-section table (none ∷ some video ∷ []) [] first (omega arith) (omega arith) (refl, tt)
      first-Begins (omega arith)

-- A section of another table with PID 0 leaves `payload_start` at 1, and the table behind it is
-- not found.
stale : patparse (some (pid_zero (0 ∷ 7 ∷ [])) ∷ some first ∷ []) ≡ some []
unfolding patparse pat_loop pat_packet section_start pat_entries
stale = refl

-- a video stream with two bytes of descriptors, and a sound stream without
abbrev movie : ProgramMap
movie = record {
  program_num = 1;
  pcr_pid = 0x101;
  info = 5 ∷ 0 ∷ [];
  streams =
      record { stream = record { stream_type = 0x1b; es_pid = 0x101 }; descriptors = 40 ∷ 0 ∷ [] }
      ∷ record { stream = record { stream_type = 0x0f; es_pid = 0x102 }; descriptors = [] }
      ∷ [];
}

movie-IsSmall : IsSmall movie
movie-IsSmall = record {
  pcr = omega arith;
  pids = omega arith;
  few = omega arith;
  room = omega arith;
}

abbrev mapped : Packet
mapped =
    record (pid_zero (
      map_section movie.program_num movie.pcr_pid (0xc1 ∷ 0 ∷ 0 ∷ []) movie.info movie.streams
        (255 ∷ []))) { header1 = 0x41 }

mapped-BeginsMap : BeginsMap 0x100 mapped movie
mapped-BeginsMap = record {
  sync = refl;
  pid = refl;
  unit = refl;
  adaptation = refl;
  version = 0xc1;
  number = 0;
  last = 0;
  tail = 255 ∷ [];
  whole = refl;
}

pmtparse-section_example :
    pmtparse ((some first ∷ none ∷ []) ++ some mapped ∷ []) 0x100 ≡ some (read_back movie)
pmtparse-section_example =
    pmtparse-section 0x100 movie (some first ∷ none ∷ []) [] mapped movie-IsSmall (refl, tt)
      mapped-BeginsMap (omega arith)

abbrev clock_packet : Packet
clock_packet = record {
  header0 = 71;
  header1 = 0x60;
  header2 = 5;
  header3 = 0x3a;
  payload = 7 ∷ 16 ∷ pcr_bytes 123456789 300 ++ 255 ∷ [];
}

set_pid-fields_example : get_pid (set_pid clock_packet 9000) ≡ 9000 % 8192
set_pid-fields_example = (set_pid-fields clock_packet 9000).0

set_priority-fields_example : get_priority (set_priority clock_packet 1) ≡ 1 / 2 % 2 * 2
set_priority-fields_example = (set_priority-fields clock_packet 1).0

pcr_bytes-read_example :
    (get_pcr_base clock_packet ≡ some 123456789) × (get_pcr_ext clock_packet ≡ some 300)
pcr_bytes-read_example =
    pcr_bytes-read clock_packet 7 16 123456789 300 (255 ∷ []) (omega arith) (omega arith) refl
