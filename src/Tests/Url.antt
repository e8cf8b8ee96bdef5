-- ===== src/Tests/Url.antt =====
-- Tests and witnesses of the parser of URLs.
use wirekrak.Common.{ℕ, ◌≡◌, refl, true, false, List, [], ◌∷◌, some, none, arith, contains}
use wirekrak.Transport.Url.{
  ParsedUrl, slash, colon, after_prefix, cut, read_port, parse_port, split_port, parse_hostport,
  split_path, parse_rest, parse_url,
}
use wirekrak.Transport.Url.Printing.{print_url, parse_url-print_url}
use wirekrak.Transport.Url.Ports.{IsPort, parse_url-IsPort}

-- wss://a:8080/v
abbrev with_port : ParsedUrl
with_port = record { secure = true; host = 97 ∷ []; port = 8080; path = slash ∷ 118 ∷ [] }

no_colon : contains colon (97 ∷ []) ≡ false
unfolding contains
no_colon = refl

no_slash : contains slash (97 ∷ []) ≡ false
unfolding contains
no_slash = refl

parse_url-print_url_example : parse_url (print_url with_port) ≡ some with_port
parse_url-print_url_example =
    parse_url-print_url true (97 ∷ []) 8080 (118 ∷ []) no_colon no_slash (omega arith) (omega arith)

-- ws://a:81
abbrev other_port : List ℕ
other_port = 119 ∷ 115 ∷ 58 ∷ 47 ∷ 47 ∷ 97 ∷ 58 ∷ 56 ∷ 49 ∷ []

other_port_parsed :
    parse_url other_port
    ≡ some (record { secure = false; host = 97 ∷ []; port = 81; path = slash ∷ [] })
unfolding parse_url parse_rest split_path parse_hostport split_port parse_port read_port cut
    after_prefix
other_port_parsed = refl

parse_url-IsPort_example : IsPort 81
parse_url-IsPort_example =
    parse_url-IsPort other_port
      (record { secure = false; host = 97 ∷ []; port = 81; path = slash ∷ [] }) other_port_parsed

-- ws://a:65535
last_port_refused :
    parse_url (119 ∷ 115 ∷ 58 ∷ 47 ∷ 47 ∷ 97 ∷ 58 ∷ 54 ∷ 53 ∷ 53 ∷ 51 ∷ 53 ∷ []) ≡ none
unfolding parse_url parse_rest split_path parse_hostport split_port parse_port read_port cut
    after_prefix
last_port_refused = refl
