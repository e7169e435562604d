-- ===== src/Ts/Section.antt =====
-- A program association section, as the standard writes it, read back by `patparse`.
use cliveserver.Base.{
  ℕ, zero, suc, ◌+◌, ◌*◌, ◌/◌, ◌%◌, ◌^◌, ◌≤◌, ◌<◌, ◌≡◌, refl, ap, ◌∙◌, inl, inr, true, false,
  Option, none, some, List, [], ◌∷◌, ◌++◌, append_assoc, bit_and, ◌==◌, length, length-append,
  Bool-cases, arith,
}
use cliveserver.Base.Bits.{bit_and-mask}
use cliveserver.Ts.{
  Packet, get_pid, is_payload_unit_start, get_adaptation, get2bytes, get_elem?, two_bytes,
  section_start,
}
use cliveserver.Ts.Pat.{Program, sub16, pat_entries, pat_packet, pat_loop, patparse}

-- the four bytes of a program, with the reserved bits set
abbrev pub entry : Program → List ℕ
entry q =
    q.program_num / 256 ∷ q.program_num % 256 ∷ (0xe0 + q.pmt_pid / 256) ∷ q.pmt_pid % 256 ∷ []

abbrev pub entries : List Program → List ℕ
entries [] = []
entries (q ∷ programs) = entry q ++ entries programs

-- numbers of 16 bits and packet identifiers of 13
abbrev pub AreSized : List Program → Type 0
AreSized [] = Unit {0}
AreSized (q ∷ programs) = (q.program_num < 2 ^ 16) × (q.pmt_pid < 2 ^ 13) × AreSized programs

-- An element behind a list.
pub get_elem?-append :
    (front : List ℕ) (i : ℕ) (rest : List ℕ)
    → get_elem? (front ++ rest) (length front + i) ≡ get_elem? rest i
get_elem?-append [] i rest = ap (get_elem? rest) (omega arith)
get_elem?-append (x ∷ front) i rest =
    ap (get_elem? (x ∷ (front ++ rest))) {x = length (x ∷ front) + i} {y = suc (length front + i)}
      (omega arith)
    ∙ get_elem?-append front i rest

pub two_bytes-append :
    (front : List ℕ) (j i : ℕ) (a b : ℕ) (rest : List ℕ)
    → j ≡ length front + i
    → get_elem? rest i ≡ some a
    → get_elem? rest (i + 1) ≡ some b
    → two_bytes (front ++ rest) j ≡ some (get2bytes a b)
two_bytes-append front j i a b rest at e e' =
    let first : get_elem? (front ++ rest) j ≡ some a =
      ap (get_elem? (front ++ rest)) at ∙ get_elem?-append front i rest ∙ e in
    let second : get_elem? (front ++ rest) (j + 1) ≡ some b =
      ap (get_elem? (front ++ rest)) {x = j + 1} {y = length front + (i + 1)} (omega (arith, at))
      ∙ get_elem?-append front (i + 1) rest
      ∙ e' in
    rw (first, second) refl

pat_entries-entries :
    (programs : List Program) (slots : ℕ) (front tail : List ℕ)
    → AreSized programs
    → length programs ≤ slots
    → length front + 4 * length programs < 256
    → pat_entries slots (front ++ (entries programs ++ tail)) (length front) (4 * length programs)
      ≡ some programs
unfolding pat_entries
pat_entries-entries [] zero front tail ok fits room = refl
pat_entries-entries [] (suc slots) front tail ok fits room = refl
pat_entries-entries (q ∷ programs) zero front tail ok fits room = absurd (omega arith)
pat_entries-entries (q ∷ programs) (suc slots) front tail ok fits room =
    let rest = entries programs ++ tail in
    let num : two_bytes (front ++ (entry q ++ rest)) (length front) ≡ some q.program_num =
      two_bytes-append front (length front) 0 _ _ (entry q ++ rest) (omega arith) refl refl
      ∙ ap some (omega arith) in
    let pid : two_bytes (front ++ (entry q ++ rest)) ((length front + 2) % 256)
        ≡ some (get2bytes (0xe0 + q.pmt_pid / 256) (q.pmt_pid % 256)) =
      two_bytes-append front ((length front + 2) % 256) 2 _ _ (entry q ++ rest) (omega arith) refl
        refl in
    let low : bit_and (get2bytes (0xe0 + q.pmt_pid / 256) (q.pmt_pid % 256)) 0x1fff ≡ q.pmt_pid =
      bit_and-mask 13 (get2bytes (0xe0 + q.pmt_pid / 256) (q.pmt_pid % 256))
      ∙ omega (arith, ok.1) in
    let at : (length front + 4) % 256 ≡ length (front ++ entry q) =
      omega (arith, length-append front (entry q)) in
    let left : sub16 (4 * suc (length programs)) 4 ≡ 4 * length programs = omega arith in
    let later : pat_entries slots (front ++ (entry q ++ rest)) ((length front + 4) % 256)
          (sub16 (4 * suc (length programs)) 4)
        ≡ some programs =
      rw (at, left, ← append_assoc)
        (pat_entries-entries programs slots (front ++ entry q) tail ok.2 (omega arith)
          (omega (arith, at))) in
    let more : (4 * suc (length programs) == 0) ≡ false = ground arith in
    rw (more, num, pid, later, low) refl

-- the payload of a packet that a section begins: the pointer, the table id, the length behind its
-- four flag bits, five bytes that are not read, the programs, and what follows them
abbrev pub section : List Program → List ℕ → List ℕ → List ℕ
section programs skipped tail =
    let n : ℕ = 9 + 4 * length programs in
    0 ∷ 0 ∷ (0xb0 + n / 256) ∷ (n % 256) ∷ (skipped ++ (entries programs ++ tail))

-- a packet of the program association table that begins a section and has no adaptation field
pub record Begins (p : Packet) (programs : List Program) : Type 0 where
  pub sync : p.header0 ≡ 0x47
  pub pid : get_pid p ≡ 0
  pub unit : is_payload_unit_start p ≡ true
  pub adaptation : get_adaptation p ≡ 1
  pub skipped : List ℕ
  pub five : length skipped ≡ 5
  pub tail : List ℕ
  pub whole : p.payload ≡ section programs skipped tail

-- short reads, and packets of other streams
abbrev pub OtherStreams : List (Option Packet) → Type 0
OtherStreams [] = Unit {0}
OtherStreams (none ∷ packets) = OtherStreams packets
OtherStreams (some p ∷ packets) = ((get_pid p == 0) ≡ false) × OtherStreams packets

module _ (programs : List Program) (ok : AreSized programs) (few : length programs ≤ 20) where
  pat_packet-section : (p : Packet) → Begins p programs → pat_packet p 0 ≡ some (inr programs)
  pat_packet-section p b =
      let n : ℕ = 9 + 4 * length programs in
      let sent : ℕ = get2bytes (0xb0 + n / 256) (n % 256) in
      let front = 0 ∷ 0 ∷ (0xb0 + n / 256) ∷ (n % 256) ∷ b.skipped in
      let at : 9 ≡ length front = omega (arith, b.five) in
      let low : bit_and sent 0x3ff ≡ n = bit_and-mask 10 sent ∙ omega arith in
      let left : sub16 (bit_and sent 0x3ff) 9 ≡ 4 * length programs =
        ap (λ m. sub16 m 9) low ∙ omega arith in
      let found : pat_entries 20 (section programs b.skipped b.tail) 9 (4 * length programs)
          ≡ some programs =
        ap (λ i. pat_entries 20 (section programs b.skipped b.tail) i (4 * length programs)) at
        ∙ pat_entries-entries programs 20 front b.tail ok few (omega (arith, at)) in
      unfold pat_packet section_start in
      rw (b.sync, b.pid, b.unit, b.adaptation, b.whole) (rw (left, found) refl)

  pat_packet-other : (q : Packet) → (get_pid q == 0) ≡ false → pat_packet q 0 ≡ some (inl 0)
  unfolding pat_packet
  pat_packet-other q e = elim (Bool-cases (q.header0 == 0x47)) [
    | inl s ↦ rw (s, e) refl
    | inr s ↦ rw s refl
  ]

  pat_loop-section :
      (before later : List (Option Packet)) (p : Packet) (i : ℕ)
      → OtherStreams before
      → Begins p programs
      → length before < i
      → pat_loop i (before ++ some p ∷ later) 0 ≡ some programs
  unfolding pat_loop
  pat_loop-section [] later p zero others b room = absurd (omega arith)
  pat_loop-section [] later p (suc i) others b room = rw (pat_loop, pat_packet-section p b) refl
  pat_loop-section (q ∷ before) later p zero others b room = absurd (omega arith)
  pat_loop-section (none ∷ before) later p (suc i) others b room =
      pat_loop-section before later p i others b (omega arith)
  pat_loop-section (some q ∷ before) later p (suc i) others b room =
      rw (pat_loop, pat_packet-other q others.0)
        (pat_loop-section before later p i others.1 b (omega arith))

-- Up to 20 programs in a section as the standard writes it, begun by a packet of the program
-- association table without an adaptation field, are read back in their order, if only short reads
-- and packets of other streams are before that packet, and fewer than 32768 of them.
pub patparse-section :
    (programs : List Program) (before later : List (Option Packet)) (p : Packet)
    → AreSized programs
    → length programs ≤ 20
    → OtherStreams before
    → Begins p programs
    → length before < 32768
    → patparse (before ++ some p ∷ later) ≡ some programs
unfolding patparse
patparse-section programs before later p ok few others b room =
    pat_loop-section programs ok few before later p 32768 others b room
