-- ===== src/Channel/Address.antt =====
-- The input URLs that `clive_new_channel` documents, read back, and the name that it drops.
use cliveserver.Base.{
  ℕ, suc, ◌%◌, ◌^◌, ◌≤◌, ◌<◌, ◌≡◌, refl, ap, ◌∙◌, some, List, [], ◌∷◌, ◌++◌, arith, if◌then◌else◌,
  length, lt→ltb,
}
use native.Mathlib.Nat.{pow-le-pow_right}
use cliveserver.Base.Int.{pos_part}
use cliveserver.Text.{strncmp_eq, starts_with}
use cliveserver.Text.Find.{Without, strchr-append}
use cliveserver.Util.Atoi.{value_of, AreDigits, written, Stops, value_of-lt, clive_atoi-written}
use cliveserver.Channel.{Channel, udp, tcp, http, clive_channel_find, find_loop}
use cliveserver.Channel.Url.{
  udp_prefix, tcp_prefix, http_prefix, input_protocol, endpoint, asserted, fresh_channel, read_port,
  resolvable, location_found, location_in, http_found, parse_http, socket_found, parse_socket,
  parse_url, clive_new_channel,
}

-- host, ':' and the digits of a port
abbrev pub address : List ℕ → List ℕ → List ℕ → List ℕ
address ip ds rest = ip ++ b':' ∷ (written ds ++ rest)

module _ (ip ds : List ℕ) (host : Without b':' ip) (short : length ip < 64) (digits : AreDigits ds)
    (five : length ds ≤ 5) where
  read_port-written :
      (rest : List ℕ) → Stops rest → read_port (written ds ++ rest) ≡ value_of ds % 2 ^ 16
  read_port-written rest stops =
      ap (λ z. pos_part z % 2 ^ 16)
        (clive_atoi-written ds rest 5 digits stops five (omega arith) (
          omega (
            arith,
            value_of-lt ds digits,
            pow-le-pow_right {n = 10} (omega arith) {i = length ds} {j = 5} five,
          )))

  parse_socket-address :
      parse_socket (address ip ds [])
      ≡ endpoint (record { ip_addr = ip; sport = value_of ds % 2 ^ 16; location = [] })
  unfolding parse_socket
  parse_socket-address =
      ap (socket_found (address ip ds [])) (strchr-append b':' ip (written ds ++ []) host)
      ∙ rw (lt→ltb (length ip) 64 short, read_port-written [] tt) refl

  -- A UDP or TCP URL with host and port, the port of at most five digits and the host of at most 63
  -- bytes without a colon, gives that protocol, that host and the port modulo 2 ^ 16.
  pub parse_url-socket :
      (input_protocol (udp_prefix ++ address ip ds []) ≡ some udp)
      × (parse_url (udp_prefix ++ address ip ds [])
          ≡ endpoint (record { ip_addr = ip; sport = value_of ds % 2 ^ 16; location = [] }))
      × (input_protocol (tcp_prefix ++ address ip ds []) ≡ some tcp)
      × (parse_url (tcp_prefix ++ address ip ds [])
          ≡ endpoint (record { ip_addr = ip; sport = value_of ds % 2 ^ 16; location = [] }))
  unfolding parse_url input_protocol starts_with strncmp_eq
  parse_url-socket = (refl, parse_socket-address, refl, parse_socket-address)

  -- An HTTP URL with a port and a path of at most 31 bytes, slash included, gives host, port modulo
  -- 2 ^ 16 and path, if that port is not 0; otherwise the process aborts, but for a host that begins
  -- with a slash.
  pub parse_url-http :
      (path : List ℕ)
      → length path < 31
      → (input_protocol (http_prefix ++ address ip ds (b'/' ∷ path)) ≡ some http)
        × (parse_url (http_prefix ++ address ip ds (b'/' ∷ path)) ≡ (
            if resolvable ip (value_of ds % 2 ^ 16)
            then endpoint
                (record { ip_addr = ip; sport = value_of ds % 2 ^ 16; location = b'/' ∷ path })
            else asserted))
  unfolding parse_url input_protocol parse_http starts_with strncmp_eq
  parse_url-http path fits31 = (refl, parsed)
    where
      digits_without : (ds' : List ℕ) → AreDigits ds' → Without b'/' (written ds')
      digits_without [] h = tt
      digits_without (d ∷ ds') h = (ground (arith, h.0), digits_without ds' h.1)

      located : location_in (written ds ++ b'/' ∷ path) ≡ b'/' ∷ path
      located =
          unfold location_in in
          ap location_found (strchr-append b'/' (written ds) path (digits_without ds digits))

      parsed : parse_http (address ip ds (b'/' ∷ path)) ≡ (
          if resolvable ip (value_of ds % 2 ^ 16)
          then endpoint
              (record { ip_addr = ip; sport = value_of ds % 2 ^ 16; location = b'/' ∷ path })
          else asserted)
      parsed =
          ap (http_found (address ip ds (b'/' ∷ path)))
            (strchr-append b':' ip (written ds ++ b'/' ∷ path) host)
          ∙ rw
              (
                read_port-written (b'/' ∷ path) refl,
                located,
                lt→ltb (length ip) 64 short,
                lt→ltb (suc (length path)) 32 (omega arith),
              )
              refl

-- The name that `clive_new_channel` is given does not reach the channel.
name-new_channel :
    (url name : List ℕ) (skt buffer : ℕ) (c : Channel)
    → clive_new_channel url name skt buffer ≡ some c
    → c.channel_name ≡ []
unfolding clive_new_channel fresh_channel
name-new_channel url name skt buffer c h = ground arith

-- Every channel made by `clive_new_channel` answers to every name: once one is registered, the
-- search ends at the oldest, whatever text is looked for.
pub find-new_channel :
    (url name : List ℕ) (skt buffer : ℕ) (c : Channel) (channels : List Channel) (text : List ℕ)
    → clive_new_channel url name skt buffer ≡ some c
    → clive_channel_find (c ∷ channels) (some text) ≡ some c
unfolding clive_channel_find find_loop
find-new_channel url name skt buffer c channels text h =
    rw (ap (λ t. starts_with text t) (name-new_channel url name skt buffer c h))
      (unfold starts_with strncmp_eq in refl)
