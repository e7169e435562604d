-- ===== src/Socket/Resolve.antt =====
-- `clive_resolve` of util.c. `getaddrinfo` is not part of the repository: it is a parameter, with the
-- node, which may be NULL, the port, whose digits are the service, and the AI_PASSIVE flag. It answers
-- with a status and the list of addresses.
use cliveserver.Base.{
  ℕ, ◌+◌, ◌<◌, ◌≤◌, ◌≡◌, refl, Bool, true, false, Option, none, some, List, [], ◌∷◌, ◌++◌, leb,
  ◌==◌, if◌then◌else◌, length, drop, arith, length-append, length-drop,
}
use cliveserver.Base.Int.{ℤ, pos, negsuc, is_neg}
use cliveserver.Run.{Run, returned, assert}
use cliveserver.Text.{starts_with}
use cliveserver.Util.{clive_valid_port}

-- `struct sockinfo`, with the bytes of its union
pub record SockInfo : Type 0 where
  pub family : ℕ
  pub addrlen : ℕ
  pub addr : List ℕ

-- the fields of `struct addrinfo` that are read
pub record AddrInfo : Type 0 where
  pub ai_family : ℕ
  pub ai_addr : List ℕ

-- AF_UNIX, as the two bytes of `sun_family` too; the sizes of `struct sockaddr_un` and of its path
abbrev pub af_unix : ℕ
af_unix = 1

abbrev pub sun_size : ℕ
sun_size = 110

abbrev pub sun_path_size : ℕ
sun_path_size = 108

-- `name` up to its NUL
unfoldable pub clive_resolve_unix : List ℕ → SockInfo → ℤ × SockInfo
clive_resolve_unix name si = if leb sun_path_size (length name) then (negsuc 0, si) else (
  pos 0,
  record {
    family = af_unix;
    addrlen = sun_size;
    addr = af_unix ∷ 0 ∷ (name ++ 0 ∷ drop (length name + 3) si.addr);
  },
)

-- the loop that stops at the first address
unfoldable pub first_address : List AddrInfo → SockInfo → ℤ × SockInfo
first_address [] si = (negsuc 0, si)
first_address (cai ∷ _) si = (
  pos 0,
  record {
    family = cai.ai_family;
    addrlen = length cai.ai_addr;
    addr = cai.ai_addr ++ drop (length cai.ai_addr) si.addr;
  },
)

module _ (getaddrinfo : Option (List ℕ) → ℤ → Bool → ℤ × List AddrInfo) where
  unfoldable pub clive_resolve_inet : Option (List ℕ) → ℤ → SockInfo → Run (ℤ × SockInfo)
  unfolding first_address
  clive_resolve_inet name port si = assert (clive_valid_port port) (
      let (status, ai) = getaddrinfo name port (elim name [ none ↦ true | some _ ↦ false ]) in
      returned (if is_neg status then (negsuc 0, si) else first_address ai si))

  unfoldable pub clive_resolve : Option (List ℕ) → ℤ → SockInfo → Run (ℤ × SockInfo)
  unfolding clive_resolve_inet clive_resolve_unix
  clive_resolve none port si = clive_resolve_inet none port si
  clive_resolve (some name) port si =
      if starts_with name (b'/' ∷ [])
      then returned (clive_resolve_unix name si)
      else clive_resolve_inet (some name) port si

-- the text of a C string that begins at the head of a list
abbrev pub c_string : List ℕ → List ℕ
c_string [] = []
c_string (c ∷ text) = if c == 0 then [] else c ∷ c_string text

abbrev pub NoNul : List ℕ → Type 0
NoNul [] = Unit {0}
NoNul (c ∷ text) = ((c == 0) ≡ false) × NoNul text

c_string-append : (text rest : List ℕ) → NoNul text → c_string (text ++ 0 ∷ rest) ≡ text
c_string-append [] rest h = refl
c_string-append (c ∷ text) rest h = rw (h.0, c_string-append text rest h.1) refl

length_sun :
    (name old : List ℕ)
    → length old ≡ 110
    → length name < 108
    → length (af_unix ∷ 0 ∷ (name ++ 0 ∷ drop (length name + 3) old)) ≡ 110
length_sun name old size short = omega (
  arith,
  length-append name (0 ∷ drop (length name + 3) old),
  length-drop (length name + 3) old,
  size,
  short,
)

-- A path of at most 107 bytes, NUL not counted, resolves whatever the port and without
-- `getaddrinfo`: to the Unix family, with the path as it is behind the two bytes of the family, in an
-- address of the size that it had; a longer one does not, and leaves `si` as it was.
pub clive_resolve-path :
    (getaddrinfo : Option (List ℕ) → ℤ → Bool → ℤ × List AddrInfo) (short long : List ℕ) (port : ℤ)
    (si : SockInfo)
    → NoNul (b'/' ∷ short)
    → length short < 107
    → 107 ≤ length long
    → length si.addr ≡ 110
    → (made : SockInfo) × (clive_resolve getaddrinfo (some (b'/' ∷ short)) port si
        ≡ returned (pos 0, made))
      × (made.family ≡ af_unix)
      × (c_string (drop 2 made.addr) ≡ b'/' ∷ short)
      × (length made.addr ≡ 110)
      × (clive_resolve getaddrinfo (some (b'/' ∷ long)) port si ≡ returned (negsuc 0, si))
unfolding clive_resolve clive_resolve_unix starts_with
clive_resolve-path getaddrinfo short long port si text fits over size =
    let name = b'/' ∷ short in
    let ok : leb sun_path_size (length name) ≡ false = ground (arith, fits) in
    let bad : leb sun_path_size (length (b'/' ∷ long)) ≡ true = ground (arith, over) in
    (
      record {
        family = af_unix;
        addrlen = sun_size;
        addr = af_unix ∷ 0 ∷ (name ++ 0 ∷ drop (length name + 3) si.addr);
      },
      rw ok refl,
      refl,
      c_string-append name (drop (length name + 3) si.addr) text,
      length_sun name si.addr size (omega (arith, fits)),
      rw bad refl,
    )
