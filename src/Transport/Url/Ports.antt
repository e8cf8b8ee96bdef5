-- ===== src/Transport/Url/Ports.antt =====
-- The ports that the parser of URLs accepts.
use wirekrak.Common.{
  ℕ, ◌+◌, ◌-◌, ◌*◌, ◌<◌, ◌≡◌, ap, subst, Bool, true, false, ◌||◌, List, [], ◌∷◌, Option, none, some,
  ◌==◌, ltb, leb, if◌then◌else◌, arith, bind-some, some-injective, Bool-cases, inl, inr,
}
use wirekrak.Transport.Url.{
  ParsedUrl, ws, wss, slash, colon, after_prefix, cut, read_port, parse_port, split_port,
  parse_hostport, split_path, parse_rest, parse_url,
}

-- A port that a URL can name here.
unfoldable pub IsPort : ℕ → Type 0
IsPort port = (0 < port) × (port < 65535)

read_port-lt : (ps : List ℕ) (p q : ℕ) → p < 65535 → read_port ps p ≡ some q → q < 65535
unfolding read_port
read_port-lt [] p q l e = omega (arith, l, some-injective p q e)
read_port-lt (c ∷ ps) p q l e = elim (Bool-cases (ltb c 48 || ltb 57 c)) [
  | inl f ↦ absurd (ground (arith, e, f))
  | inr f ↦ elim (Bool-cases (leb 65535 (p * 10 + (c - 48)))) [
    | inl g ↦ absurd (ground (arith, e, f, g))
    | inr g ↦ read_port-lt ps (p * 10 + (c - 48)) q (ground (arith, g)) (ground (arith, e, f, g))
  ]
]

not_zero : (p q : ℕ) → (if p == 0 then none else some p) ≡ some q → (0 < q) × (q ≡ p)
not_zero p q e = elim (Bool-cases (p == 0)) [
  | inl f ↦ absurd (ground (arith, e, f))
  | inr f ↦ (ground (arith, e, f), ground (arith, e, f))
]

parse_port-IsPort : (ps : List ℕ) (q : ℕ) → parse_port ps ≡ some q → IsPort q
unfolding parse_port IsPort
parse_port-IsPort [] q e = absurd (ground (arith, e))
parse_port-IsPort (c ∷ ps) q e =
    let (p, e1, e2) = bind-some (read_port (c ∷ ps) 0) (λ p. if p == 0 then none else some p) q e in
    let (positive, same) = not_zero p q e2 in
    (positive, omega (arith, same, read_port-lt (c ∷ ps) 0 p (omega arith) e1))

split_port-IsPort :
    (secure : Bool) (hostport : List ℕ) (parts : List ℕ × Option (List ℕ)) (host : List ℕ) (q : ℕ)
    → ◌≡◌ {A = Option (List ℕ × ℕ)} (split_port secure hostport parts) (some (host, q))
    → IsPort q
unfolding split_port IsPort
split_port-IsPort true hostport (h, none) host q e =
    let same = ap (λ (r : List ℕ × ℕ). r.1) (some-injective (hostport, 443) (host, q) e) in
    (omega (arith, same), omega (arith, same))
split_port-IsPort false hostport (h, none) host q e =
    let same = ap (λ (r : List ℕ × ℕ). r.1) (some-injective (hostport, 80) (host, q) e) in
    (omega (arith, same), omega (arith, same))
split_port-IsPort secure hostport (h, some []) host q e = absurd (ground (arith, e))
split_port-IsPort secure hostport (h, some (mark ∷ ps)) host q e =
    let (p, e1, e2) = bind-some (parse_port ps) (λ p. some (h, p)) (host, q) e in
    let (positive, small) = parse_port-IsPort ps p e1 in
    let same = ap (λ (r : List ℕ × ℕ). r.1) (some-injective (h, p) (host, q) e2) in
    (omega (arith, same, positive), omega (arith, same, small))

parse_hostport-IsPort :
    (secure : Bool) (hostport host : List ℕ) (q : ℕ)
    → ◌≡◌ {A = Option (List ℕ × ℕ)} (parse_hostport secure hostport) (some (host, q))
    → IsPort q
unfolding parse_hostport
parse_hostport-IsPort secure [] host q e = absurd (ground (arith, e))
parse_hostport-IsPort secure (c ∷ hostport) host q e =
    split_port-IsPort secure (c ∷ hostport) (cut colon (c ∷ hostport)) host q e

parse_rest-IsPort :
    (secure : Bool) (rest : List ℕ) (u : ParsedUrl)
    → parse_rest secure rest ≡ some u
    → IsPort u.port
unfolding parse_rest split_path
parse_rest-IsPort secure rest u e =
    let ((host, q), e1, e2) = bind-some (parse_hostport secure (cut slash rest).0) _ u e in
    let same = ap (λ (u : ParsedUrl). u.port) (some-injective _ u e2) in
    subst IsPort same (parse_hostport-IsPort secure (cut slash rest).0 host q e1)

-- A URL that is parsed has a port from 1 to 65534, whether it names the port or not.
pub parse_url-IsPort : (url : List ℕ) (u : ParsedUrl) → parse_url url ≡ some u → IsPort u.port
unfolding parse_url
parse_url-IsPort url u e =
    elim (after_prefix ws url)
        as (λ r.
          elim r [
            | some rest ↦ parse_rest false rest
            | none ↦ elim (after_prefix wss url) [ some rest ↦ parse_rest true rest | none ↦ none ]
          ]
            ≡ some u
          → IsPort u.port) [
            | some rest ↦ parse_rest-IsPort false rest u
            | none ↦
                elim (after_prefix wss url)
                  as (λ r.
                    elim r [ some rest ↦ parse_rest true rest | none ↦ none ] ≡ some u
                    → IsPort u.port) [
                      | some rest ↦ parse_rest-IsPort true rest u
                      | none ↦ λ f. absurd (ground (arith, f))
                    ]
          ]
      e
