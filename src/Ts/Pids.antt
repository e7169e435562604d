-- ===== src/Ts/Pids.antt =====
-- The search of `pmtparse` for the first section with its packet identifier.
use cliveserver.Base.{
  ℕ, zero, suc, ◌+◌, ◌^◌, ◌≤◌, ◌<◌, ◌≡◌, refl, inl, inr, false, true, Option, none, some, List, [],
  ◌∷◌, ◌++◌, ◌==◌, length, arith, map, Bool-cases, ==_self,
}
use cliveserver.Ts.{Packet, get_pid, is_payload_unit_start, get_adaptation, section_start}
use cliveserver.Ts.Pmt.{PmtList, pmt_packet, pmt_loop, pmtparse}
use cliveserver.Ts.Streams.{Described, total, AreSmall, map_section, pmt_section-map_section}

-- a program with its descriptors and streams
pub record ProgramMap : Type 0 where
  pub program_num : ℕ
  pub pcr_pid : ℕ
  pub info : List ℕ
  pub streams : List Described

-- What the standard and the parser's array and index allow: identifiers of 13 bits, at most five
-- streams, and streams that end at a payload index below 256.
pub record IsSmall (m : ProgramMap) : Type 0 where
  pub pcr : m.pcr_pid < 2 ^ 13
  pub pids : AreSmall m.streams
  pub few : length m.streams ≤ 5
  pub room : 13 + length m.info + total m.streams < 256

-- what the parser returns of it
abbrev pub read_back : ProgramMap → PmtList
read_back m = record {
  program_num = m.program_num;
  pcr_pid = m.pcr_pid;
  alles = map (λ d. d.stream) m.streams;
}

-- a packet with this identifier that begins the program's section and has no adaptation field
pub record BeginsMap (pmt_pid : ℕ) (p : Packet) (m : ProgramMap) : Type 0 where
  pub sync : p.header0 ≡ 0x47
  pub pid : get_pid p ≡ pmt_pid
  pub unit : is_payload_unit_start p ≡ true
  pub adaptation : get_adaptation p ≡ 1
  pub version : ℕ
  pub number : ℕ
  pub last : ℕ
  pub tail : List ℕ
  pub whole :
      p.payload
      ≡ map_section m.program_num m.pcr_pid (version ∷ number ∷ last ∷ []) m.info m.streams tail

-- short reads, and packets with other identifiers
abbrev pub OtherPids : ℕ → List (Option Packet) → Type 0
OtherPids pmt_pid [] = Unit {0}
OtherPids pmt_pid (none ∷ packets) = OtherPids pmt_pid packets
OtherPids pmt_pid (some p ∷ packets) = ((get_pid p == pmt_pid) ≡ false) × OtherPids pmt_pid packets

module _ (pmt_pid : ℕ) (m : ProgramMap) (small : IsSmall m) where
  pmt_packet-begins :
      (p : Packet) → BeginsMap pmt_pid p m → pmt_packet pmt_pid p 0 ≡ some (inr (read_back m))
  pmt_packet-begins p b =
      let found =
        pmt_section-map_section m.program_num m.pcr_pid m.info m.streams b.tail small.pcr small.pids
          small.few small.room b.version b.number b.last in
      unfold pmt_packet section_start in
      rw (b.sync, b.pid, b.unit, b.adaptation, b.whole, ==_self pmt_pid) (rw found refl)

  pmt_packet-other :
      (q : Packet) → (get_pid q == pmt_pid) ≡ false → pmt_packet pmt_pid q 0 ≡ some (inl 0)
  unfolding pmt_packet
  pmt_packet-other q e = elim (Bool-cases (q.header0 == 0x47)) [
    | inl s ↦ rw (s, e) refl
    | inr s ↦ rw s refl
  ]

  pmt_loop-begins :
      (before later : List (Option Packet)) (p : Packet) (i : ℕ)
      → OtherPids pmt_pid before
      → BeginsMap pmt_pid p m
      → length before < i
      → pmt_loop pmt_pid i (before ++ some p ∷ later) 0 ≡ some (read_back m)
  unfolding pmt_loop
  pmt_loop-begins [] later p zero others b room = absurd (omega arith)
  pmt_loop-begins [] later p (suc i) others b room = rw (pmt_loop, pmt_packet-begins p b) refl
  pmt_loop-begins (q ∷ before) later p zero others b room = absurd (omega arith)
  pmt_loop-begins (none ∷ before) later p (suc i) others b room =
      pmt_loop-begins before later p i others b (omega arith)
  pmt_loop-begins (some q ∷ before) later p (suc i) others b room =
      rw (pmt_loop, pmt_packet-other q others.0)
        (pmt_loop-begins before later p i others.1 b (omega arith))

-- A program map section as the standard writes it, small enough for the parser's array and
-- index and begun by a packet with the identifier asked for and no adaptation field, is read back:
-- the program's number, the clock's identifier, and the types and identifiers of its streams in
-- their order, whatever descriptors stand between them, if only short reads and packets with other
-- identifiers are before that packet, and fewer than 32768 of them.
pub pmtparse-section :
    (pmt_pid : ℕ) (m : ProgramMap) (before later : List (Option Packet)) (p : Packet)
    → IsSmall m
    → OtherPids pmt_pid before
    → BeginsMap pmt_pid p m
    → length before < 32768
    → pmtparse (before ++ some p ∷ later) pmt_pid ≡ some (read_back m)
unfolding pmtparse
pmtparse-section pmt_pid m before later p small others b room =
    pmt_loop-begins pmt_pid m small before later p 32768 others b room
