-- ===== src/Channel.antt =====
-- channel/channel.c and channel.h: the channels, their registry, outputs and event registration.
-- `Channel.Url` has the parsing of `clive_new_channel` and `Channel.Receive` the UDP input.
pub mod Url
pub mod Names
pub mod Address
pub mod Receive
pub mod Flow
pub mod Start
pub mod Detect
pub mod Sockets
pub mod Opened
pub mod Handed
mod Tests
use cliveserver.Base.{
  ℕ, zero, suc, ◌+◌, ◌≡◌, Bool, true, false, ◌||◌, Option, none, some, List, [], ◌∷◌, ◌++◌, ◌==◌,
  if◌then◌else◌,
}
use cliveserver.Base.Int.{ℤ, pos, negsuc}
use cliveserver.Event.{
  Con, Epoll, Answer, Run, ◌>>=◌, returned, event_add_conn, event_del_out, event_del_conn,
}
use cliveserver.Media.{MediaType, PackType, unknown, undetected, World, clive_media_create}
use cliveserver.Text.{starts_with, contains}

-- `enum Protocol`; HLS and HDS are never the input of a channel
pub data Protocol : Type 0 where
  udp tcp http rtmp : Protocol

-- `Channel`. The ring and the medias are addresses in `Media.World`; no protocol is -1.
pub record Channel : Type 0 where
  pub connection : Con
  pub channel_name : List ℕ
  pub input_protocol : Option Protocol
  pub input_media_type : MediaType
  pub buffer : ℕ
  pub ts_media : Option ℕ
  pub flv_media : Option ℕ

-- `all_channels` is the list of what was added, oldest first.
pub clive_init_channel : List Channel
clive_init_channel = []

-- `allocated` says whether `ListAdd` got its entry.
pub clive_channel_add : List Channel → Option Channel → Bool → Bool × List Channel
clive_channel_add channels none allocated = (false, channels)
clive_channel_add channels (some channel) allocated =
    if allocated then (true, channels ++ (channel ∷ [])) else (false, channels)

-- the loop over the registry
unfoldable pub find_loop : List Channel → List ℕ → Option Channel
find_loop [] name = none
find_loop (p ∷ channels) name =
    let rest = find_loop channels name in if starts_with name p.channel_name then some p else rest

unfoldable pub clive_channel_find : List Channel → Option (List ℕ) → Option Channel
unfolding find_loop
clive_channel_find channels none = none
clive_channel_find channels (some name) = find_loop channels name

unfoldable pub existed_loop : List Channel → List ℕ → Bool
existed_loop [] name = false
existed_loop (p ∷ channels) name =
    let rest = existed_loop channels name in if starts_with name p.channel_name then true else rest

unfoldable pub clive_channel_is_existed : List Channel → Option (List ℕ) → Bool
unfolding existed_loop
clive_channel_is_existed channels none = false
clive_channel_is_existed channels (some name) = existed_loop channels name

-- `clive_channel_add_output`, with the address at which a new media would lie
pub clive_channel_add_output : World → Channel → List ℕ → ℕ → ℤ × Channel × World
clive_channel_add_output w channel url address =
    let made = clive_media_create w address unknown undetected in
    if contains url (b'_' ∷ b'f' ∷ b'l' ∷ b'v' ∷ [])
      || contains url (b'r' ∷ b't' ∷ b'm' ∷ b'p' ∷ b':' ∷ [])
    then (pos 0, record channel { flv_media = some address }, made)
    else if contains url (b'_' ∷ b't' ∷ b's' ∷ [])
        || contains url (b'.' ∷ b'm' ∷ b'3' ∷ b'u' ∷ b'8' ∷ [])
    then (pos 0, record channel { ts_media = some address }, made)
    else (negsuc 0, channel, w)

abbrev pub is_listening : Option Protocol → Bool
is_listening (some tcp) = true
is_listening (some udp) = true
is_listening _ = false

abbrev pub is_zero : ℤ → Bool
is_zero (pos n) = n == 0
is_zero (negsuc n) = false

module _ (epoll : Epoll) where
  unfoldable pub clive_channel_start : epoll.Kernel → Channel → Run (ℤ × Channel × epoll.Kernel)
  clive_channel_start k channel = event_add_conn epoll k channel.connection >>= λ (val, conn, k').
      let added = record channel { connection = conn } in
      if is_zero val
      then (if is_listening channel.input_protocol
          then (event_del_out epoll k' conn >>= λ (val', conn', k'').
              returned (val', record channel { connection = conn' }, k''))
          else returned (val, added, k'))
      else returned (val, added, k')

  pub clive_channel_stop : epoll.Kernel → Channel → Run (ℤ × Channel × epoll.Kernel)
  clive_channel_stop k channel = event_del_conn epoll k channel.connection >>= λ (val, conn, k').
      returned (val, record channel { connection = conn }, k')
