-- ===== src/Transport/Url/Printing.antt =====
-- URLs printed and parsed again, and what a parsed URL is like.
use wirekrak.Common.{
  ℕ, zero, suc, ◌+◌, ◌-◌, ◌*◌, ◌/◌, ◌%◌, ◌<◌, ◌≡◌, refl, ap, ◌∙◌, Bool, true, false, ◌||◌, List, [],
  ◌∷◌, ◌++◌, Option, some, ◌==◌, ltb, leb, if◌then◌else◌, contains, contains-append, arith,
  bind-of_some, some-injective, Bool-cases, inl, inr,
}
use wirekrak.Transport.Url.{
  ParsedUrl, slash, colon, ws, wss, after_prefix, cut, read_port, parse_port, split_port,
  parse_hostport, split_path, parse_rest, parse_url,
}

-- The decimal digits of a number, in at most `fuel` of them.
unfoldable pub digits : ℕ → ℕ → List ℕ
digits zero n = []
digits (suc fuel) n =
    let rest = digits fuel (n / 10) in
    if ltb n 10 then (48 + n) ∷ [] else rest ++ ((48 + n % 10) ∷ [])

unfoldable pub print_url : ParsedUrl → List ℕ
unfolding digits
print_url u =
    (if u.secure then wss else ws) ++ ((u.host ++ (colon ∷ digits (suc u.port) u.port)) ++ u.path)

read_port-append :
    (xs ys : List ℕ) (p q : ℕ) → read_port xs p ≡ some q → read_port (xs ++ ys) p ≡ read_port ys q
unfolding read_port
read_port-append [] ys p q e = ap (read_port ys) (some-injective p q e)
read_port-append (x ∷ xs) ys p q e = elim (Bool-cases (ltb x 48 || ltb 57 x)) [
  | inl f ↦ absurd (ground (arith, e, f))
  | inr f ↦ elim (Bool-cases (leb 65535 (p * 10 + (x - 48)))) [
    | inl g ↦ absurd (ground (arith, e, f, g))
    | inr g ↦ rw (f, g) (read_port-append xs ys (p * 10 + (x - 48)) q (ground (arith, e, f, g)))
  ]
]

read_port-digit :
    (p d : ℕ) → d < 10 → p * 10 + d < 65535 → read_port ((48 + d) ∷ []) p ≡ some (p * 10 + d)
unfolding read_port
read_port-digit p d l m = ground (arith, l, m)

read_port-digits : (fuel n : ℕ) → n < fuel → n < 65535 → read_port (digits fuel n) 0 ≡ some n
unfolding digits
read_port-digits zero n l m = absurd (omega (arith, l))
read_port-digits (suc fuel) n l m = elim (Bool-cases (ltb n 10)) [
  | inl e ↦
      rw (digits, e)
        (read_port-digit 0 n (ground (arith, e)) (omega (arith, m))
          ∙ ap (λ x. some x) (omega arith))
  | inr e ↦
      rw (digits, e)
        (read_port-append (digits fuel (n / 10)) ((48 + n % 10) ∷ []) 0 (n / 10)
            (read_port-digits fuel (n / 10) (ground (arith, l, e)) (omega (arith, m)))
          ∙ read_port-digit (n / 10) (n % 10) (omega arith) (omega (arith, m))
          ∙ ap (λ x. some x) (omega arith))
]

-- No digit is a slash.
contains-digits : (fuel n : ℕ) → contains slash (digits fuel n) ≡ false
unfolding digits contains
contains-digits zero n = refl
contains-digits (suc fuel) n = elim (Bool-cases (ltb n 10)) [
  | inl e ↦ rw (digits, e) (ground arith)
  | inr e ↦
      rw (digits, e)
        (contains-append slash (digits fuel (n / 10)) ((48 + n % 10) ∷ [])
          ∙ ground (arith, contains-digits fuel (n / 10)))
]

otherwise : {A : Type 0} (b : Bool) (x y : A) → b ≡ false → (if b then x else y) ≡ y
otherwise true x y e = absurd (ground (arith, e))
otherwise false x y e = refl

cut-append :
    (mark : ℕ) (before text : List ℕ)
    → contains mark before ≡ false
    → cut mark (before ++ (mark ∷ text)) ≡ (before, some (mark ∷ text))
unfolding cut contains
cut-append mark [] text e = ground arith
cut-append mark (c ∷ before) text e =
    let rest = cut mark (before ++ (mark ∷ text)) in
    let whole : List ℕ × Option (List ℕ) = ([], some (c ∷ (before ++ (mark ∷ text)))) in
    otherwise (c == mark) whole (c ∷ rest.0, rest.1) (ground (arith, e))
    ∙ ap (λ (r : List ℕ × Option (List ℕ)). (c ∷ r.0, r.1))
        (cut-append mark before text (ground (arith, e)))

parse_port-lem :
    (ps : List ℕ) (port : ℕ) → 0 < port → read_port ps 0 ≡ some port → parse_port ps ≡ some port
unfolding parse_port read_port
parse_port-lem [] port l e = absurd (omega (arith, l, some-injective 0 port e))
parse_port-lem (c ∷ ps) port l e = bind-of_some (read_port (c ∷ ps) 0) _ port e ∙ ground (arith, l)

parse_hostport-lem :
    (secure : Bool) (host ps : List ℕ) (port : ℕ)
    → contains colon host ≡ false
    → parse_port ps ≡ some port
    → parse_hostport secure (host ++ (colon ∷ ps)) ≡ some (host, port)
unfolding parse_hostport split_port
parse_hostport-lem secure [] ps port n e =
    ap (split_port secure (colon ∷ ps)) (cut-append colon [] ps n)
    ∙ bind-of_some (parse_port ps) (λ p. some ([], p)) port e
parse_hostport-lem secure (h ∷ host) ps port n e =
    ap (split_port secure (h ∷ (host ++ (colon ∷ ps)))) (cut-append colon (h ∷ host) ps n)
    ∙ bind-of_some (parse_port ps) (λ p. some (h ∷ host, p)) port e

neither :
    (host ds : List ℕ)
    → contains slash host ≡ false
    → contains slash ds ≡ false
    → (contains slash host || contains slash (colon ∷ ds)) ≡ false
unfolding contains
neither host ds e f = ground (arith, e, f)

-- A URL that is printed with its port is parsed again, where the host has neither a colon nor a slash
-- and the port is not 0 and below 65535. The host may be empty.
pub parse_url-print_url :
    (secure : Bool) (host : List ℕ) (port : ℕ) (tail : List ℕ)
    → contains colon host ≡ false
    → contains slash host ≡ false
    → 0 < port
    → port < 65535
    → let u : ParsedUrl = record {
      secure = secure;
      host = host;
      port = port;
      path = slash ∷ tail;
    } in
      parse_url (print_url u) ≡ some u
unfolding parse_url print_url parse_rest split_path after_prefix
parse_url-print_url secure host port tail c s l m =
    let ds = digits (suc port) port in
    let hostport = host ++ (colon ∷ ds) in
    let u : ParsedUrl = record { secure = secure; host = host; port = port; path = slash ∷ tail } in
    let rest = hostport ++ (slash ∷ tail) in
    let clean : contains slash hostport ≡ false =
      contains-append slash host (colon ∷ ds)
      ∙ neither host ds s (contains-digits (suc port) port) in
    let parts : cut slash rest ≡ (hostport, some (slash ∷ tail)) =
      cut-append slash hostport tail clean in
    let read = parse_port-lem ds port l (read_port-digits (suc port) port (omega arith) m) in
    let parsed : parse_rest secure rest ≡ some u =
      ap (split_path secure) parts
      ∙ bind-of_some (parse_hostport secure hostport) _ (host, port)
          (parse_hostport-lem secure host ds port c read) in
    elim secure
        as (λ b.
          parse_rest b rest ≡ some (record u { secure = b })
          → parse_url (print_url (record u { secure = b })) ≡ some (record u { secure = b })) [
            | true ↦ λ e. e
            | false ↦ λ e. e
          ]
      parsed
