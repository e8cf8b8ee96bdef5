-- ===== src/Transport/Url.antt =====
-- include/wirekrak/core/transport/parse_url.hpp: the parser of WebSocket URLs. A text is the list of its
-- bytes. A result of none is `Error::InvalidUrl`; what was written to `out` before it is left out.
pub mod Printing
pub mod Ports
use wirekrak.Common.{
  ℕ, suc, ◌+◌, ◌-◌, ◌*◌, Bool, true, false, ◌||◌, List, [], ◌∷◌, Option, none, some, ◌==◌, ltb, leb,
  if◌then◌else◌, ◌>>=◌,
}

pub record ParsedUrl : Type 0 where
  pub secure : Bool
  pub host : List ℕ
  pub port : ℕ
  pub path : List ℕ

abbrev pub slash : ℕ
slash = 47

abbrev pub colon : ℕ
colon = 58

abbrev pub ws : List ℕ
ws = 119 ∷ 115 ∷ 58 ∷ 47 ∷ 47 ∷ []

abbrev pub wss : List ℕ
wss = 119 ∷ 115 ∷ 115 ∷ 58 ∷ 47 ∷ 47 ∷ []

-- `starts_with` and the text after the prefix, none where the text starts otherwise.
unfoldable pub after_prefix : List ℕ → List ℕ → Option (List ℕ)
after_prefix [] url = some url
after_prefix (p ∷ prefix) [] = none
after_prefix (p ∷ prefix) (c ∷ url) =
    let rest = after_prefix prefix url in if c == p then rest else none

-- `find` with the text before the first `mark`, and the text from there on where there is one.
unfoldable pub cut : ℕ → List ℕ → List ℕ × Option (List ℕ)
cut mark [] = ([], none)
cut mark (c ∷ text) =
    let (before, found) = cut mark text in
    if c == mark then ([], some (c ∷ text)) else (c ∷ before, found)

-- The loop over the digits of a port.
unfoldable pub read_port : List ℕ → ℕ → Option ℕ
read_port [] port = some port
read_port (c ∷ port_str) port =
    let port' = port * 10 + (c - 48) in
    let rest = read_port port_str port' in
    if ltb c 48 || ltb 57 c then none else if leb 65535 port' then none else rest

unfoldable pub parse_port : List ℕ → Option ℕ
unfolding read_port
parse_port [] = none
parse_port (c ∷ port_str) = do
  port ← read_port (c ∷ port_str) 0
  if port == 0 then none else some port

-- The host and the port of the text before the path, where it is cut at its colon.
unfoldable pub split_port : Bool → List ℕ → List ℕ × Option (List ℕ) → Option (List ℕ × ℕ)
unfolding parse_port
split_port secure hostport (host, none) = some (hostport, if secure then 443 else 80)
split_port secure hostport (host, some []) = none
split_port secure hostport (host, some (mark ∷ port_str)) = do
  port ← parse_port port_str
  some (host, port)

unfoldable pub parse_hostport : Bool → List ℕ → Option (List ℕ × ℕ)
unfolding cut split_port
parse_hostport secure [] = none
parse_hostport secure (c ∷ hostport) = split_port secure (c ∷ hostport) (cut colon (c ∷ hostport))

-- What follows the scheme, where it is cut at its first slash. The path starts at that slash, so that
-- its check never fails.
unfoldable pub split_path : Bool → List ℕ × Option (List ℕ) → Option ParsedUrl
unfolding parse_hostport
split_path secure (hostport, found) = do
  (host, port) ← parse_hostport secure hostport
  some (record {
    secure = secure;
    host = host;
    port = port;
    path = elim found [ none ↦ slash ∷ [] | some path ↦ path ];
  })

unfoldable pub parse_rest : Bool → List ℕ → Option ParsedUrl
unfolding cut split_path
parse_rest secure rest = split_path secure (cut slash rest)

unfoldable pub parse_url : List ℕ → Option ParsedUrl
unfolding after_prefix parse_rest
parse_url url = elim (after_prefix ws url) [
  | some rest ↦ parse_rest false rest
  | none ↦ elim (after_prefix wss url) [ some rest ↦ parse_rest true rest | none ↦ none ]
]
