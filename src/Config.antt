-- ===== src/Config.antt =====
-- The configuration in main.c: from the tokens that jsmn makes of the file to the channels that are
-- set up. The file and jsmn are not modelled: the bytes and the tokens are arguments. A pointer into
-- the buffer is an index, and NULL is `none`.
pub mod Scan
pub mod Outputs
pub mod Tokens
mod Tests
use cliveserver.Base.{
  ℕ, zero, suc, ◌+◌, ◌-◌, Bool, true, false, ◌&&◌, Option, none, some, List, [], ◌∷◌, ◌++◌, ◌==◌,
  if◌then◌else◌, length, drop, set, ltb, leb,
}
use cliveserver.Text.{strncmp_eq}
use cliveserver.Config.Scan.{text_at, terminate, scan_outputs, texts}

pub data TokenType : Type 0 where
  primitive : TokenType
  object : TokenType
  array : TokenType
  string : TokenType

-- `jsmntok_t`; a position of -1 is `none`
pub record Token : Type 0 where
  pub type : TokenType
  pub start : Option ℕ
  pub end : Option ℕ
  pub size : ℕ

abbrev pub up_to_nul : List ℕ → List ℕ
up_to_nul [] = []
up_to_nul (x ∷ s) = if x == 0 then [] else x ∷ up_to_nul s

pub json_token_streq : List ℕ → ℕ → ℕ → List ℕ → Bool
json_token_streq js start end s =
    strncmp_eq (up_to_nul (drop start js)) s (end - start) && (length s == end - start)

abbrev pub channel_name_key : List ℕ
channel_name_key =
    b'c' ∷ b'h' ∷ b'a' ∷ b'n' ∷ b'n' ∷ b'e' ∷ b'l' ∷ b'_' ∷ b'n' ∷ b'a' ∷ b'm' ∷ b'e' ∷ []

abbrev pub input_url_key : List ℕ
input_url_key = b'i' ∷ b'n' ∷ b'p' ∷ b'u' ∷ b't' ∷ b'_' ∷ b'u' ∷ b'r' ∷ b'l' ∷ []

abbrev pub output_key : List ℕ
output_key = b'o' ∷ b'u' ∷ b't' ∷ b'p' ∷ b'u' ∷ b't' ∷ []

abbrev pub max_outputs : ℕ
max_outputs = 5

-- the state, and with `print` the index of the key that has been read
pub data State : Type 0 where
  start_state : State
  key : State
  print : ℕ → State
  skip : State

pub match_key : List ℕ → ℕ → ℕ → State
match_key js start end =
    if json_token_streq js start end channel_name_key
    then print 0
    else if json_token_streq js start end input_url_key
    then print 1
    else if json_token_streq js start end output_key
    then print 2
    else skip

-- `CfgStore` without its outputs, which each array of outputs sets anew
pub record CfgStore : Type 0 where
  pub channel_name : Option ℕ
  pub input_url : Option ℕ

-- the calls that set up a channel: its URL, its name and its outputs
pub record Setup : Type 0 where
  pub url : List ℕ
  pub name : Option (List ℕ)
  pub outputs : List (List ℕ)

abbrev pub name_text : List ℕ → Option ℕ → Option (Option (List ℕ))
name_text js none = some none
name_text js (some p) = elim (text_at js p) [ none ↦ none | some text ↦ some (some text) ]

-- A missing URL is a read through NULL.
unfoldable pub set_up : List ℕ → CfgStore → List ℕ → Option Setup
set_up js temp outputs = elim temp.input_url [
  | none ↦ none
  | some p ↦ elim (text_at js p) [
    | none ↦ none
    | some url ↦ elim (name_text js temp.channel_name) [
      | none ↦ none
      | some name ↦ elim (texts js outputs) [
        | none ↦ none
        | some texts ↦ some (record { url = url; name = name; outputs = texts })
      ]
    ]
  ]
]

-- `case PRINT` with the index of the key: the buffer, the store and the channels set up. An output
-- beyond the array of `max_outputs` is a write outside it.
unfoldable pub print_value :
    List ℕ → CfgStore → ℕ → ℕ → ℕ → ℕ → Option (List ℕ × CfgStore × List Setup)
print_value js temp m start end size = elim (terminate js end) [
  | none ↦ none
  | some js' ↦
      if m == 0
      then some (js', record { channel_name = some start; input_url = none }, [])
      else if m == 1
      then some (js', record temp { input_url = some start }, [])
      else if ltb max_outputs size
      then none
      else elim (scan_outputs size js' start) [
        | none ↦ none
        | some (outputs, js'') ↦ elim (set_up js'' temp outputs) [
          | none ↦ none
          | some channel ↦ some (js'', temp, channel ∷ [])
        ]
      ]
]

abbrev pub is_container : TokenType → Bool
is_container object = true
is_container array = true
is_container _ = false

abbrev pub is_object : TokenType → Bool
is_object object = true
is_object _ = false

abbrev pub is_primitive : TokenType → Bool
is_primitive primitive = true
is_primitive _ = false

-- how the walk goes on behind a token
pub data Next : Type 0 where
  stop : Next
  crash : Next
  go_on : List ℕ → State → CfgStore → List Setup → Next

abbrev pub read_key : List ℕ → CfgStore → TokenType → ℕ → ℕ → Next
read_key js temp type start end =
    if is_primitive type then go_on js (match_key js start end) temp [] else go_on js key temp []

abbrev pub printed : Option (List ℕ × CfgStore × List Setup) → Next
printed none = crash
printed (some (js, temp, channels)) = go_on js key temp channels

abbrev pub in_state : List ℕ → State → CfgStore → Token → ℕ → ℕ → Next
in_state js start_state temp t start end =
    if is_object t.type then read_key js temp t.type start end else stop
in_state js key temp t start end = read_key js temp t.type start end
in_state js skip temp t start end = go_on js key temp []
in_state js (print m) temp t start end = printed (print_value js temp m start end t.size)

-- the body of the loop, on one token
unfoldable pub on_token : List ℕ → State → CfgStore → Token → Next
on_token js state temp t = elim t.start [
  | none ↦ stop
  | some start ↦ elim t.end [ none ↦ stop | some end ↦ in_state js state temp t start end ]
]

-- the tokens that are still to be read behind a token
abbrev pub remaining : ℕ → Token → ℕ
remaining j t = if is_container t.type then j + t.size else j

-- How the loop ends: behind all tokens, by the return of -1, by an access outside the buffer or the
-- outputs, or by the read of a token that jsmn has not given; and the channels set up.
pub data Ending : Type 0 where
  finished : Ending
  refused : Ending
  outside : Ending
  no_token : Ending

unfoldable pub walk : List Token → ℕ → List ℕ → State → CfgStore → Ending × List Setup
walk ts zero js state temp = (finished, [])
walk [] (suc j) js state temp = (no_token, [])
walk (t ∷ ts) (suc j) js state temp = elim (on_token js state temp t) [
  | stop ↦ (refused, [])
  | crash ↦ (outside, [])
  | go_on js' state' temp' channels ↦
      let (ending, more) = walk ts (remaining j t) js' state' temp' in (ending, channels ++ more)
]

unfoldable pub configure : List Token → List ℕ → Ending × List Setup
configure tokens js =
    walk tokens 1 js start_state (record { channel_name = none; input_url = none })
