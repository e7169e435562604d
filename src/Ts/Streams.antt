-- ===== src/Ts/Streams.antt =====
-- A program map section, as the standard writes it, read back by `pmtparse`.
use cliveserver.Base.{
  ℕ, zero, suc, ◌+◌, ◌/◌, ◌%◌, ◌^◌, ◌≤◌, ◌<◌, ◌≡◌, refl, ap, ◌∙◌, false, some, List, [], ◌∷◌, ◌++◌,
  append_assoc, bit_and, ◌==◌, length, length-append, arith, map,
}
use cliveserver.Base.Bits.{bit_and-mask}
use cliveserver.Ts.{get2bytes, get_elem?, two_bytes}
use cliveserver.Ts.Pat.{sub16}
use cliveserver.Ts.Section.{get_elem?-append, two_bytes-append}
use cliveserver.Ts.Pmt.{Stream, pmt_streams, pmt_section}

-- a stream with its descriptors, which the parser passes over
pub record Described : Type 0 where
  pub stream : Stream
  pub descriptors : List ℕ

-- a packet identifier or a length of 12 bits behind reserved bits
abbrev pub pid_bytes : ℕ → List ℕ → List ℕ
pid_bytes pid rest = (0xe0 + pid / 256) ∷ (pid % 256) ∷ rest

abbrev pub length_bytes : ℕ → List ℕ → List ℕ
length_bytes n rest = (0xf0 + n / 256) ∷ (n % 256) ∷ rest

abbrev pub stream_bytes : Described → List ℕ
stream_bytes d =
    d.stream.stream_type
    ∷ pid_bytes d.stream.es_pid (length_bytes (length d.descriptors) d.descriptors)

abbrev pub all_bytes : List Described → List ℕ
all_bytes [] = []
all_bytes (d ∷ ds) = stream_bytes d ++ all_bytes ds

abbrev pub total : List Described → ℕ
total [] = 0
total (d ∷ ds) = 5 + length d.descriptors + total ds

-- packet identifiers of 13 bits
abbrev pub AreSmall : List Described → Type 0
AreSmall [] = Unit {0}
AreSmall (d ∷ ds) = (d.stream.es_pid < 2 ^ 13) × AreSmall ds

pid_lem : (pid : ℕ) → pid < 2 ^ 13 → bit_and (get2bytes (0xe0 + pid / 256) (pid % 256)) 0x1fff ≡ pid
pid_lem pid small =
    bit_and-mask 13 (get2bytes (0xe0 + pid / 256) (pid % 256)) ∙ omega (arith, small)

length_lem : (n : ℕ) → n < 2 ^ 12 → bit_and (get2bytes (0xf0 + n / 256) (n % 256)) 0x0fff ≡ n
length_lem n small = bit_and-mask 12 (get2bytes (0xf0 + n / 256) (n % 256)) ∙ omega (arith, small)

pmt_streams-all_bytes :
    (ds : List Described) (slots : ℕ) (front tail : List ℕ)
    → AreSmall ds
    → length ds ≤ slots
    → length front + total ds < 256
    → pmt_streams slots (front ++ (all_bytes ds ++ tail)) (length front) (total ds)
      ≡ some (map (λ d. d.stream) ds)
unfolding pmt_streams
pmt_streams-all_bytes [] zero front tail ok fits room = refl
pmt_streams-all_bytes [] (suc slots) front tail ok fits room = refl
pmt_streams-all_bytes (d ∷ ds) zero front tail ok fits room = absurd (omega arith)
pmt_streams-all_bytes (d ∷ ds) (suc slots) front tail ok fits room =
    let rest = all_bytes ds ++ tail in
    let here =
      d.stream.stream_type
      ∷ pid_bytes d.stream.es_pid (length_bytes (length d.descriptors) (d.descriptors ++ rest)) in
    let n : ℕ = length d.descriptors in
    let kind : get_elem? (front ++ here) (length front) ≡ some d.stream.stream_type =
      ap (get_elem? (front ++ here)) {x = length front} {y = length front + 0} (omega arith)
      ∙ get_elem?-append front 0 here in
    let pid : two_bytes (front ++ here) ((length front + 1) % 256)
        ≡ some (get2bytes (0xe0 + d.stream.es_pid / 256) (d.stream.es_pid % 256)) =
      two_bytes-append front ((length front + 1) % 256) 1 _ _ here (omega arith) refl refl in
    let info : two_bytes (front ++ here) ((length front + 3) % 256)
        ≡ some (get2bytes (0xf0 + n / 256) (n % 256)) =
      two_bytes-append front ((length front + 3) % 256) 3 _ _ here (omega arith) refl refl in
    let size : length (stream_bytes d) ≡ 5 + n = omega arith in
    let at : (length front + 5 + n) % 256 ≡ length (front ++ stream_bytes d) =
      omega (arith, length-append front (stream_bytes d), size) in
    let left : sub16 (sub16 (5 + n + total ds) 5) n ≡ total ds = omega arith in
    let later : pmt_streams slots (front ++ (stream_bytes d ++ rest)) ((length front + 5 + n) % 256)
          (sub16 (sub16 (5 + n + total ds) 5) n)
        ≡ some (map (λ e. e.stream) ds) =
      rw (at, left, ← append_assoc)
        (pmt_streams-all_bytes ds slots (front ++ stream_bytes d) tail ok.1 (omega arith)
          (omega (arith, at))) in
    let more : (5 + n + total ds == 0) ≡ false = ground arith in
    let same : front ++ (all_bytes (d ∷ ds) ++ tail) ≡ front ++ here =
      ap (λ l. front ++ l) (append_assoc (stream_bytes d) (all_bytes ds) tail) in
    let behind : pmt_streams (suc slots) (front ++ here) (length front) (5 + n + total ds)
        ≡ some (map (λ e. e.stream) (d ∷ ds)) =
      rw (more, kind, pid, info, length_lem n (omega arith), later, pid_lem d.stream.es_pid ok.0)
        refl in
    ap (λ l. pmt_streams (suc slots) l (length front) (total (d ∷ ds))) same ∙ behind

-- the payload of a packet that a section begins: the pointer, the table id, the length, the
-- program's number, three bytes that are not read, the clock's packet identifier, the program's
-- descriptors, the streams, and what follows them
abbrev pub map_section : ℕ → ℕ → List ℕ → List ℕ → List Described → List ℕ → List ℕ
map_section program_num pcr_pid skipped info ds tail =
    let n : ℕ = 13 + length info + total ds in
    0
    ∷ 2
    ∷ (0xb0 + n / 256)
    ∷ (n % 256)
    ∷ (program_num / 256)
    ∷ (program_num % 256)
    ∷ (skipped ++ pid_bytes pcr_pid (length_bytes (length info) (info ++ (all_bytes ds ++ tail))))

module _ (program_num pcr_pid : ℕ) (info : List ℕ) (ds : List Described) (tail : List ℕ)
    (pcr : pcr_pid < 2 ^ 13) (ok : AreSmall ds) (few : length ds ≤ 5)
    (room : 13 + length info + total ds < 256) where
  -- The section is read back.
  pub pmt_section-map_section :
      (a b c : ℕ)
      → pmt_section (map_section program_num pcr_pid (a ∷ b ∷ c ∷ []) info ds tail) 1
        ≡ some (record {
          program_num = program_num;
          pcr_pid = pcr_pid;
          alles = map (λ d. d.stream) ds;
        })
  unfolding pmt_section
  pmt_section-map_section a b c =
      let n : ℕ = 13 + length info + total ds in
      let sent : ℕ = get2bytes (0xb0 + n / 256) (n % 256) in
      let payload = map_section program_num pcr_pid (a ∷ b ∷ c ∷ []) info ds tail in
      let front =
        0
        ∷ 2
        ∷ (0xb0 + n / 256)
        ∷ (n % 256)
        ∷ (program_num / 256)
        ∷ (program_num % 256)
        ∷ a
        ∷ b
        ∷ c
        ∷ pid_bytes pcr_pid (length_bytes (length info) info) in
      let low : bit_and sent 0x3ff ≡ n = bit_and-mask 10 sent ∙ omega arith in
      let left : sub16 (sub16 (bit_and sent 0x3ff) 13) (length info) ≡ total ds =
        ap (λ m. sub16 (sub16 m 13) (length info)) low ∙ omega arith in
      let at : (1 + 10 + length info + 2) % 256 ≡ length front = omega arith in
      let number : get2bytes (program_num / 256) (program_num % 256) ≡ program_num = omega arith in
      let whole : payload ≡ front ++ (all_bytes ds ++ tail) = refl in
      let streams : pmt_streams 5 payload ((1 + 10 + length info + 2) % 256) (total ds)
          ≡ some (map (λ d. d.stream) ds) =
        ap (λ i. pmt_streams 5 payload i (total ds)) at
        ∙ pmt_streams-all_bytes ds 5 front tail ok few (omega (arith, at)) in
      rw (length_lem (length info) (omega arith), left, streams, number, pid_lem pcr_pid pcr) refl
