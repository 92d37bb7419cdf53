-- ===== src/Api/Endpoint/Reads.antt =====
-- What `parseEndpoint` makes of a base URL and a path, each with or without the slash between them.
use tiny_voice.Api.Endpoint.{
  join_uri, parse_endpoint, Scheme, scheme_text, default_port, port_text, prefix_text, Clean,
  is_https, written_port, Readable, parse_endpoint-written,
}
use tiny_voice.Prelude.{
  ℕ, ◌+◌, ◌-◌, ◌*◌, ◌%◌, ◌^◌, ◌<◌, min, ◌≡◌, refl, sym, ap, ap₂, ◌∙◌, subst, Bool, true, false,
  Option, none, some, List, [], ◌∷◌, ◌++◌, append-nil, append_assoc, arith, starts_with, ends_with,
  Lacks, digits_value, atoi, digits_value-digit, digits_value-nil, atoi-digit,
}

-- The digits of a port, by their values, and the number that they stand for.
abbrev pub digits_text : List ℕ → List ℕ
digits_text [] = []
digits_text (d ∷ digits) = (b'0' + d) ∷ digits_text digits

abbrev pub Digits : List ℕ → Type 0
Digits [] = Unit
Digits (d ∷ digits) = (d < 10) × Digits digits

abbrev pub number : ℕ → List ℕ → ℕ
number value [] = value
number value (d ∷ digits) = number (value * 10 + d) digits

digits_value-digits_text :
    (value : ℕ) (digits : List ℕ)
    → Digits digits
    → digits_value value (digits_text digits) ≡ number value digits
digits_value-digits_text value [] h = digits_value-nil value
digits_value-digits_text value (d ∷ digits) (small, h) =
    digits_value-digit value d (digits_text digits) small
    ∙ digits_value-digits_text (value * 10 + d) digits h

-- The number of the port, or the scheme's own.
abbrev pub the_port : Scheme → Option (List ℕ) → ℕ
the_port scheme none = default_port scheme
the_port scheme (some digits) = number 0 digits

abbrev pub IsPort : Option (List ℕ) → Type 0
IsPort none = Unit
IsPort (some digits) = Digits digits × (number 0 digits < 2 ^ 16)

abbrev pub port_digits : Option (List ℕ) → Option (List ℕ)
port_digits none = none
port_digits (some digits) = some (digits_text digits)

digits_text-Lacks : (digits : List ℕ) → Digits digits → Lacks b'/' (digits_text digits)
digits_text-Lacks [] h = tt
digits_text-Lacks (d ∷ digits) (small, h) = (ground (arith, small), digits_text-Lacks digits h)

port_digits-Clean : (port : Option (List ℕ)) → IsPort port → Clean b'/' (port_digits port)
port_digits-Clean none h = tt
port_digits-Clean (some digits) (h, small) = digits_text-Lacks digits h

written_port-port_digits :
    (scheme : Scheme) (port : Option (List ℕ))
    → IsPort port
    → written_port (default_port scheme) (port_digits port) ≡ the_port scheme port
written_port-port_digits scheme none h = refl
written_port-port_digits scheme (some []) h = unfold atoi in refl
written_port-port_digits scheme (some (d ∷ digits)) ((small, h), fits) =
    rw (atoi-digit d (digits_text digits) small, digits_value-digits_text d digits h)
      (at_most (number d digits)
          (subst (λ v. number v digits < 2 ^ 16) {x = 0 * 10 + d} {y = d} (omega arith) fits)
        ∙ ap (λ v. number v digits) {x = d} {y = 0 * 10 + d} (omega arith))
  where
    at_most : (n : ℕ) → n < 2 ^ 16 → min (2 ^ 31 - 1) n % 2 ^ 16 ≡ n
    at_most n h = omega arith

-- A slash that is written or left out.
abbrev pub slash : Bool → List ℕ
slash true = b'/' ∷ []
slash false = []

-- What follows the slash that the prefix starts with.
abbrev behind : Option (List ℕ) → Bool → Option (List ℕ)
behind none false = none
behind none true = some []
behind (some stem) closed = some (stem ++ slash closed)

prefix_text-behind :
    (stem : Option (List ℕ)) (closed : Bool)
    → prefix_text (behind stem closed) ≡ prefix_text stem ++ slash closed
prefix_text-behind none true = refl
prefix_text-behind none false = refl
prefix_text-behind (some stem) closed = refl

ends_with-append : (c : ℕ) (xs : List ℕ) → ends_with c (xs ++ (c ∷ [])) ≡ true
ends_with-append c [] = ground arith
ends_with-append c (x ∷ []) = ground arith
ends_with-append c (x ∷ y ∷ xs) = ends_with-append c (y ∷ xs)

-- A path does not start with two slashes where its first is left out.
abbrev pub Rooted : Bool → List ℕ → Type 0
Rooted true name = Unit
Rooted false name = starts_with (b'/' ∷ []) name ≡ false

join_uri-slash :
    (prefix name : List ℕ) (closed rooted : Bool)
    → ends_with b'/' prefix ≡ false
    → Rooted rooted name
    → join_uri (prefix ++ slash closed) (slash rooted ++ name) ≡ prefix ++ (b'/' ∷ name)
unfolding join_uri
join_uri-slash prefix name true true ends root =
    rw (ends_with-append b'/' prefix) (append_assoc prefix (b'/' ∷ []) name)
join_uri-slash prefix name true false ends root =
    rw (ends_with-append b'/' prefix, root) (append_assoc prefix (b'/' ∷ []) name)
join_uri-slash prefix name false true ends root =
    rw (append-nil prefix, ends) (append_assoc prefix (b'/' ∷ []) name)
join_uri-slash prefix name false false ends root =
    rw (append-nil prefix, ends, root) (append_assoc prefix (b'/' ∷ []) name)

-- A base URL as it is written: the scheme, the host, the port or none, and the prefix or none, with
-- or without a slash at its end.
abbrev pub url : Scheme → List ℕ → Option (List ℕ) → Option (List ℕ) → Bool → List ℕ
url scheme host port stem closed =
    scheme_text scheme
    ++ ((host ++ port_text (port_digits port)) ++ (prefix_text stem ++ slash closed))

-- The parts of a base URL are read as they are written: the host, the port's number or the scheme's
-- own, TLS for https alone; and the URI is the prefix, one slash and the path, whether the prefix
-- ends with a slash or not and whether the path starts with one or not. The host has no colon and no
-- slash, the port is digits of a number below 2^16, the prefix ends with no second slash, and a URL
-- without a scheme does not start like one.
pub parse_endpoint_lem :
    (scheme : Scheme) (host : List ℕ) (port stem : Option (List ℕ)) (closed rooted : Bool)
    (name : List ℕ)
    → Lacks b':' host
    → Lacks b'/' host
    → IsPort port
    → ends_with b'/' (prefix_text stem) ≡ false
    → Rooted rooted name
    → Readable scheme ((host ++ port_text (port_digits port)) ++ (prefix_text stem ++ slash closed))
    → parse_endpoint (url scheme host port stem closed) (slash rooted ++ name) ≡ record {
      host = host;
      port = the_port scheme port;
      uri = prefix_text stem ++ (b'/' ∷ name);
      tls = is_https scheme;
    }
parse_endpoint_lem scheme host port stem closed rooted name colon no_slash digits ends root
      readable =
    let same = prefix_text-behind stem closed in
    let front = host ++ port_text (port_digits port) in
    ap (λ t. parse_endpoint (scheme_text scheme ++ (front ++ t)) (slash rooted ++ name)) (sym same)
    ∙ parse_endpoint-written scheme host (port_digits port) (behind stem closed)
        (slash rooted ++ name) colon no_slash (port_digits-Clean port digits)
        (subst (λ t. Readable scheme (front ++ t)) (sym same) readable)
    ∙ ap₂ (λ p u. record { host = host; port = p; uri = u; tls = is_https scheme })
        (written_port-port_digits scheme port digits)
        (ap (λ t. join_uri t (slash rooted ++ name)) same
          ∙ join_uri-slash (prefix_text stem) name closed rooted ends root)
