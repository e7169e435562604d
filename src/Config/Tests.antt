-- ===== src/Config/Tests.antt =====
-- The walk over small configurations.
use cliveserver.Base.{ℕ, ◌≡◌, ◌≢◌, refl, some, List, [], ◌∷◌, ◌++◌, arith}
use cliveserver.Text.{strncmp_eq}
use cliveserver.Config.{
  TokenType, primitive, object, array, string, Token, json_token_streq, match_key, set_up,
  print_value, on_token, Setup, finished, outside, no_token, walk, configure,
}
use cliveserver.Config.Scan.{
  text_from, text_at, terminate, find_start, find_quote, scan_output, scan_outputs, texts,
}
use cliveserver.Config.Outputs.{Output}
use cliveserver.Config.Tokens.{
  Value, value, no_values, values, number, tokens_of, tokens_of_all, IsSized, AreSized,
  configure-tokens_of,
}

abbrev token : TokenType → ℕ → ℕ → ℕ → Token
token type start end size = record { type = type; start = some start; end = some end; size = size }

-- {channels:[{channel_name:"c",input_url:"udp://h:9",output:["http://h/c_ts","http://h/c_flv"]}]}
abbrev bytes : List ℕ
bytes =
    123 ∷ 99 ∷ 104 ∷ 97 ∷ 110 ∷ 110 ∷ 101 ∷ 108 ∷ 115 ∷ 58 ∷ 91 ∷ 123 ∷ 99 ∷ 104 ∷ 97 ∷ 110 ∷ 110
    ∷ 101 ∷ 108 ∷ 95 ∷ 110 ∷ 97 ∷ 109 ∷ 101 ∷ 58 ∷ 34 ∷ 99 ∷ 34 ∷ 44 ∷ 105 ∷ 110 ∷ 112 ∷ 117 ∷ 116
    ∷ 95 ∷ 117 ∷ 114 ∷ 108 ∷ 58 ∷ 34 ∷ 117 ∷ 100 ∷ 112 ∷ 58 ∷ 47 ∷ 47 ∷ 104 ∷ 58 ∷ 57 ∷ 34 ∷ 44
    ∷ 111 ∷ 117 ∷ 116 ∷ 112 ∷ 117 ∷ 116 ∷ 58 ∷ 91 ∷ 34 ∷ 104 ∷ 116 ∷ 116 ∷ 112 ∷ 58 ∷ 47 ∷ 47 ∷ 104
    ∷ 47 ∷ 99 ∷ 95 ∷ 116 ∷ 115 ∷ 34 ∷ 44 ∷ 34 ∷ 104 ∷ 116 ∷ 116 ∷ 112 ∷ 58 ∷ 47 ∷ 47 ∷ 104 ∷ 47 ∷ 99
    ∷ 95 ∷ 102 ∷ 108 ∷ 118 ∷ 34 ∷ 93 ∷ 125 ∷ 93 ∷ 125 ∷ []

abbrev json : Value
json =
    (value (token object 0 95 2) (
      values (value (token primitive 1 9 0) no_values) (
        values
          (value (token array 10 94 1) (
            values
              (value (token object 11 93 6) (
                values (value (token primitive 12 24 0) no_values) (
                  values (value (token string 26 27 0) no_values) (
                    values (value (token primitive 29 38 0) no_values) (
                      values (value (token string 40 49 0) no_values) (
                        values (value (token primitive 51 57 0) no_values) (
                          values
                            (value (token array 58 92 2) (
                              values (value (token string 60 73 0) no_values)
                                (values (value (token string 76 90 0) no_values) no_values)))
                            no_values)))))))
              no_values))
          no_values)))

abbrev set_up_of : Setup
set_up_of = record {
  url = 117 ∷ 100 ∷ 112 ∷ 58 ∷ 47 ∷ 47 ∷ 104 ∷ 58 ∷ 57 ∷ [];
  name = some (99 ∷ []);
  outputs =
      (104 ∷ 116 ∷ 116 ∷ 112 ∷ 58 ∷ 47 ∷ 47 ∷ 104 ∷ 47 ∷ 99 ∷ 95 ∷ 116 ∷ 115 ∷ [])
      ∷ (104 ∷ 116 ∷ 116 ∷ 112 ∷ 58 ∷ 47 ∷ 47 ∷ 104 ∷ 47 ∷ 99 ∷ 95 ∷ 102 ∷ 108 ∷ 118 ∷ [])
      ∷ [];
}

configure-json : configure (tokens_of json) bytes ≡ (finished, set_up_of ∷ [])
unfolding configure walk on_token match_key json_token_streq strncmp_eq print_value terminate
    scan_outputs scan_output find_start find_quote set_up texts text_at text_from tokens_of
    tokens_of_all
configure-json = refl

-- {channels:[{input_url:"udp://h:9",channel_name:"c",output:["http://h/c_ts"]}]}
abbrev url_first : List ℕ
url_first =
    123 ∷ 99 ∷ 104 ∷ 97 ∷ 110 ∷ 110 ∷ 101 ∷ 108 ∷ 115 ∷ 58 ∷ 91 ∷ 123 ∷ 105 ∷ 110 ∷ 112 ∷ 117 ∷ 116
    ∷ 95 ∷ 117 ∷ 114 ∷ 108 ∷ 58 ∷ 34 ∷ 117 ∷ 100 ∷ 112 ∷ 58 ∷ 47 ∷ 47 ∷ 104 ∷ 58 ∷ 57 ∷ 34 ∷ 44 ∷ 99
    ∷ 104 ∷ 97 ∷ 110 ∷ 110 ∷ 101 ∷ 108 ∷ 95 ∷ 110 ∷ 97 ∷ 109 ∷ 101 ∷ 58 ∷ 34 ∷ 99 ∷ 34 ∷ 44 ∷ 111
    ∷ 117 ∷ 116 ∷ 112 ∷ 117 ∷ 116 ∷ 58 ∷ 91 ∷ 34 ∷ 104 ∷ 116 ∷ 116 ∷ 112 ∷ 58 ∷ 47 ∷ 47 ∷ 104 ∷ 47
    ∷ 99 ∷ 95 ∷ 116 ∷ 115 ∷ 34 ∷ 93 ∷ 125 ∷ 93 ∷ 125 ∷ []

abbrev url_first_tokens : List Token
url_first_tokens =
    token object 0 78 2
    ∷ token primitive 1 9 0
    ∷ token array 10 77 1
    ∷ token object 11 76 6
    ∷ token primitive 12 21 0
    ∷ token string 23 32 0
    ∷ token primitive 34 46 0
    ∷ token string 48 49 0
    ∷ token primitive 51 57 0
    ∷ token array 58 75 1
    ∷ token string 60 73 0
    ∷ []

-- The name clears the whole store: a URL in front of it is lost, and read through NULL.
url_lost : configure url_first_tokens url_first ≡ (outside, [])
unfolding configure walk on_token match_key json_token_streq strncmp_eq print_value terminate
    scan_outputs scan_output find_start find_quote set_up texts text_at text_from
url_lost = refl

json-IsSized : IsSized json
unfolding IsSized AreSized number
json-IsSized = ground arith

configure-tokens_of_example :
    (configure (tokens_of json ++ token string 0 0 0 ∷ []) bytes ≡ configure (tokens_of json) bytes)
    × ((configure (tokens_of json) bytes).0 ≢ no_token)
configure-tokens_of_example = configure-tokens_of json (token string 0 0 0 ∷ []) bytes json-IsSized

abbrev two_outputs : List Output
two_outputs =
    record {
      gap = 34 ∷ [];
      head = 104;
      tail = 116 ∷ 116 ∷ 112 ∷ 58 ∷ 47 ∷ 47 ∷ 104 ∷ 47 ∷ 99 ∷ 95 ∷ 116 ∷ 115 ∷ [];
    }
    ∷ record { gap = 44 ∷ 34 ∷ []; head = 114; tail = 116 ∷ 109 ∷ 112 ∷ 58 ∷ 47 ∷ 47 ∷ 104 ∷ [] }
    ∷ []
