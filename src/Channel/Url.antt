-- ===== src/Channel/Url.antt =====
-- The part of `clive_new_channel` that reads the input URL, and the channel that it makes.
use cliveserver.Base.{
  ℕ, ◌%◌, ◌^◌, Bool, ◌&&◌, ◌||◌, Option, none, some, List, [], ◌∷◌, ltb, if◌then◌else◌, length,
  drop,
}
use cliveserver.Base.Int.{pos, pos_part}
use cliveserver.Event.{new_connection}
use cliveserver.Media.{undetected}
use cliveserver.Text.{starts_with, strchr}
use cliveserver.Util.{clive_atoi, clive_valid_port}
use cliveserver.Channel.{Channel, Protocol, udp, tcp, http, rtmp}

-- the `protocol` table
abbrev pub udp_prefix : List ℕ
udp_prefix = b'u' ∷ b'd' ∷ b'p' ∷ b':' ∷ b'/' ∷ b'/' ∷ []

abbrev pub tcp_prefix : List ℕ
tcp_prefix = b't' ∷ b'c' ∷ b'p' ∷ b':' ∷ b'/' ∷ b'/' ∷ []

abbrev pub http_prefix : List ℕ
http_prefix = b'h' ∷ b't' ∷ b't' ∷ b'p' ∷ b':' ∷ b'/' ∷ b'/' ∷ []

abbrev pub rtmp_prefix : List ℕ
rtmp_prefix = b'r' ∷ b't' ∷ b'm' ∷ b'p' ∷ b':' ∷ b'/' ∷ b'/' ∷ []

-- the loop over the table
unfoldable pub input_protocol : List ℕ → Option Protocol
input_protocol url =
    if starts_with url udp_prefix
    then some udp
    else if starts_with url tcp_prefix
    then some tcp
    else if starts_with url http_prefix
    then some http
    else if starts_with url rtmp_prefix
    then some rtmp
    else none

-- the local variables that the URL fills; `location` is used for nothing but a log line
pub record Endpoint : Type 0 where
  pub ip_addr : List ℕ
  pub sport : ℕ
  pub location : List ℕ

-- `crashed`: a buffer of 64 or 32 bytes is overrun, read without its NUL, or NULL is dereferenced.
-- `asserted`: the ASSERT of `clive_resolve_inet` ends the process.
pub data Parsed : Type 0 where
  endpoint : Endpoint → Parsed
  crashed : Parsed
  asserted : Parsed

-- the port behind ':', through `int` into `uint16_t`
abbrev pub read_port : List ℕ → ℕ
read_port text = pos_part (clive_atoi text 5) % 2 ^ 16

-- the checks that C does not make: `ip` and its NUL in 64 bytes, the location and its NUL in 32
abbrev pub fits : List ℕ → List ℕ → Bool
fits ip location = ltb (length ip) 64 && ltb (length location) 32

-- `clive_resolve` before its call of the resolver: a name that begins with '/' is a path, any other
-- asserts a valid port. What the resolver answers is not used.
abbrev pub resolvable : List ℕ → ℕ → Bool
resolvable ip port = starts_with ip (b'/' ∷ []) || clive_valid_port (pos port)

abbrev pub location_found : Option (List ℕ × List ℕ) → List ℕ
location_found none = []
location_found (some (_, from)) = from

unfoldable pub location_in : List ℕ → List ℕ
location_in text = location_found (strchr text b'/')

abbrev pub http_endpoint : List ℕ → ℕ → List ℕ → Parsed
http_endpoint ip port location =
    if fits ip location
    then (if resolvable ip port
        then endpoint (record { ip_addr = ip; sport = port; location = location })
        else asserted)
    else crashed

-- `case HTTP`, by what `strchr` finds: a colon, or else a slash
abbrev pub http_without_port : Option (List ℕ × List ℕ) → Parsed
http_without_port none = crashed
http_without_port (some (ip, from)) = http_endpoint ip 80 (location_in from)

abbrev pub http_found : List ℕ → Option (List ℕ × List ℕ) → Parsed
http_found rest none = http_without_port (strchr rest b'/')
http_found rest (some (ip, from)) =
    http_endpoint ip (read_port (drop 1 from)) (location_in (drop 1 from))

unfoldable pub parse_http : List ℕ → Parsed
parse_http rest = http_found rest (strchr rest b':')

-- `case UDP` and `case TCP`
abbrev pub socket_found : List ℕ → Option (List ℕ × List ℕ) → Parsed
socket_found rest none =
    if fits rest []
    then endpoint (record { ip_addr = rest; sport = 9090; location = [] })
    else crashed
socket_found rest (some (ip, from)) =
    if fits ip []
    then endpoint (record { ip_addr = ip; sport = read_port (drop 1 from); location = [] })
    else crashed

unfoldable pub parse_socket : List ℕ → Parsed
parse_socket rest = socket_found rest (strchr rest b':')

unfoldable pub parse_url : List ℕ → Parsed
unfolding input_protocol
parse_url url = elim (input_protocol url) [
  | some http ↦ parse_http (drop 7 url)
  | some udp ↦ parse_socket (drop 6 url)
  | some tcp ↦ parse_socket (drop 6 url)
  | some rtmp ↦ endpoint (record { ip_addr = []; sport = 80; location = [] })
  | none ↦ endpoint (record { ip_addr = []; sport = 80; location = [] })
]

unfoldable pub fresh_channel : List ℕ → ℕ → ℕ → Channel
fresh_channel url skt buffer = record {
  connection = new_connection skt;
  channel_name = [];
  input_protocol = input_protocol url;
  input_media_type = undetected;
  buffer = buffer;
  ts_media = none;
  flv_media = none;
}

-- `clive_new_channel` over the socket that it got, which is unset for HTTP, RTMP and an unknown
-- protocol, and the address of its ring. The name is a parameter of the function, and nothing reads
-- it: the memory of a fresh channel is zero, so its name is empty.
unfoldable pub clive_new_channel : List ℕ → List ℕ → ℕ → ℕ → Option Channel
unfolding fresh_channel
clive_new_channel url name skt buffer = elim (parse_url url) [
  | crashed ↦ none
  | asserted ↦ none
  | endpoint _ ↦ some (fresh_channel url skt buffer)
]
