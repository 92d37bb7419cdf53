-- ===== src/Api/Endpoint.antt =====
-- `parseEndpoint` of firmware/tinyvoice/src/api_client.cpp: host, port and URI of a path under the
-- base URL, which the configuration gives.
pub mod Reads
use tiny_voice.Prelude.{
  ℕ, ◌%◌, ◌^◌, ◌≡◌, refl, ap, ◌∙◌, Bool, true, false, Option, none, some, List, [], ◌∷◌, ◌++◌,
  append-nil, if◌then◌else◌, drop, codes, starts_with, before, from_first, ends_with, Lacks,
  before-Lacks_cons, before-Lacks, from_first-Lacks_cons, from_first-Lacks, Lacks-append, atoi,
}

pub record ApiEndpoint : Type 0 where
  pub host : List ℕ
  pub port : ℕ
  pub uri : List ℕ
  pub tls : Bool

abbrev pub http_text : List ℕ
http_text = codes "http://"

abbrev pub https_text : List ℕ
https_text = codes "https://"

-- `apiUsesTls`
unfoldable pub api_uses_tls : List ℕ → Bool
api_uses_tls base_url = starts_with https_text base_url

-- The base URL without its scheme, the default port, and whether TLS is used.
unfoldable pub split_scheme : List ℕ → List ℕ × ℕ × Bool
split_scheme base =
    if starts_with http_text base
    then (drop 7 base, 80, false)
    else (if starts_with https_text base then (drop 8 base, 443, true) else (base, 80, false))

abbrev pub or_nothing : Option (List ℕ) → List ℕ
or_nothing none = []
or_nothing (some text) = text

-- The port of the host part: the number after its first colon.
unfoldable pub port_of : ℕ → Option (List ℕ) → ℕ
port_of default none = default
port_of default (some text) = atoi (drop 1 text) % 2 ^ 16

-- The prefix with a slash at its end, and the path without the one at its start.
unfoldable pub join_uri : List ℕ → List ℕ → List ℕ
join_uri prefix path =
    let closed = if ends_with b'/' prefix then prefix else prefix ++ (b'/' ∷ []) in
    closed ++ (if starts_with (b'/' ∷ []) path then drop 1 path else path)

unfoldable pub parse_endpoint : List ℕ → List ℕ → ApiEndpoint
parse_endpoint base_url path =
    let (base, default_port, uses_tls) = split_scheme base_url in
    let host_part = before b'/' base in
    record {
      host = before b':' host_part;
      port = port_of default_port (from_first b':' host_part);
      uri = join_uri (or_nothing (from_first b'/' base)) path;
      tls = uses_tls;
    }

-- A URL as it is written: the scheme, the host, a port behind a colon or none, a prefix that starts
-- with a slash or none.
pub data Scheme : Type 0 where
  http https bare : Scheme

abbrev pub scheme_text : Scheme → List ℕ
scheme_text http = http_text
scheme_text https = https_text
scheme_text bare = []

abbrev pub default_port : Scheme → ℕ
default_port http = 80
default_port https = 443
default_port bare = 80

abbrev pub port_text : Option (List ℕ) → List ℕ
port_text none = []
port_text (some digits) = b':' ∷ digits

abbrev pub prefix_text : Option (List ℕ) → List ℕ
prefix_text none = []
prefix_text (some rest) = b'/' ∷ rest

abbrev pub Clean : ℕ → Option (List ℕ) → Type 0
Clean c none = Unit
Clean c (some text) = Lacks c text

abbrev pub is_https : Scheme → Bool
is_https http = false
is_https https = true
is_https bare = false

abbrev pub written_port : ℕ → Option (List ℕ) → ℕ
written_port default none = default
written_port default (some digits) = atoi digits % 2 ^ 16

abbrev pub written : List ℕ → Option (List ℕ) → Option (List ℕ) → List ℕ
written host digits rest = (host ++ port_text digits) ++ prefix_text rest

-- A URL without a scheme does not look like one with a scheme.
abbrev pub Readable : Scheme → List ℕ → Type 0
Readable http text = Unit
Readable https text = Unit
Readable bare text = (starts_with http_text text ≡ false) × (starts_with https_text text ≡ false)

Lacks-port_text :
    (host : List ℕ) (digits : Option (List ℕ))
    → Lacks b'/' host
    → Clean b'/' digits
    → Lacks b'/' (host ++ port_text digits)
Lacks-port_text host none h k = Lacks-append b'/' host [] h tt
Lacks-port_text host (some digits) h k = Lacks-append b'/' host (b':' ∷ digits) h (refl, k)

before-prefix_text :
    (text : List ℕ) (rest : Option (List ℕ))
    → Lacks b'/' text
    → before b'/' (text ++ prefix_text rest) ≡ text
before-prefix_text text none h = ap (before b'/') (append-nil text) ∙ before-Lacks b'/' text h
before-prefix_text text (some rest) h = before-Lacks_cons b'/' text rest h

from_first-prefix_text :
    (text : List ℕ) (rest : Option (List ℕ))
    → Lacks b'/' text
    → or_nothing (from_first b'/' (text ++ prefix_text rest)) ≡ prefix_text rest
from_first-prefix_text text none h =
    ap (λ t. or_nothing (from_first b'/' t)) (append-nil text)
    ∙ ap or_nothing (from_first-Lacks b'/' text h)
from_first-prefix_text text (some rest) h = ap or_nothing (from_first-Lacks_cons b'/' text rest h)

before-port_text :
    (host : List ℕ) (digits : Option (List ℕ))
    → Lacks b':' host
    → before b':' (host ++ port_text digits) ≡ host
before-port_text host none h = ap (before b':') (append-nil host) ∙ before-Lacks b':' host h
before-port_text host (some digits) h = before-Lacks_cons b':' host digits h

port_of-port_text :
    (default : ℕ) (host : List ℕ) (digits : Option (List ℕ))
    → Lacks b':' host
    → port_of default (from_first b':' (host ++ port_text digits)) ≡ written_port default digits
unfolding port_of
port_of-port_text default host none h =
    ap (λ t. port_of default (from_first b':' t)) (append-nil host)
    ∙ ap (port_of default) (from_first-Lacks b':' host h)
port_of-port_text default host (some digits) h =
    ap (port_of default) (from_first-Lacks_cons b':' host digits h)

split_scheme-written :
    (scheme : Scheme) (text : List ℕ)
    → Readable scheme text
    → split_scheme (scheme_text scheme ++ text) ≡ (text, default_port scheme, is_https scheme)
unfolding split_scheme
split_scheme-written http text h = refl
split_scheme-written https text h = refl
split_scheme-written bare text h = rw (h.0, h.1) refl

-- Where the parts of a base URL end: the port is what stands behind the colon, and the URI is joined
-- from what starts at the slash.
pub parse_endpoint-written :
    (scheme : Scheme) (host : List ℕ) (digits rest : Option (List ℕ)) (path : List ℕ)
    → Lacks b':' host
    → Lacks b'/' host
    → Clean b'/' digits
    → Readable scheme (written host digits rest)
    → parse_endpoint (scheme_text scheme ++ written host digits rest) path ≡ record {
      host = host;
      port = written_port (default_port scheme) digits;
      uri = join_uri (prefix_text rest) path;
      tls = is_https scheme;
    }
unfolding parse_endpoint
parse_endpoint-written scheme host digits rest path colon slash clean readable =
    let slashes = Lacks-port_text host digits slash clean in
    rw
      (
        split_scheme-written scheme (written host digits rest) readable,
        before-prefix_text (host ++ port_text digits) rest slashes,
        from_first-prefix_text (host ++ port_text digits) rest slashes,
        before-port_text host digits colon,
        port_of-port_text (default_port scheme) host digits colon,
      )
      refl
