-- ===== src/Tests/SimpleUrls.antt =====
-- A plain parser and printer of URLs without fragments, user names or escapes, for the tests: the
-- record that the admission policy takes for `urllib.parse`.
use web_search.Prelude.{
  ℕ, ◌+◌, ◌-◌, ◌*◌, Option, none, some, List, [], ◌∷◌, ◌++◌, map, nat_beq, if◌then◌else◌, drop,
  is_empty, nat_eq, list_eq, Text, codes, split, join, ascii_lower,
}
use web_search.Core.UrlAdmission.{SplitUrl, UrlLib}

-- The text before the first occurrence of a character, and the text behind it.
abbrev pub partition : ℕ → Text → Text × Text
partition c [] = ([], [])
partition c (d ∷ s) =
    let (before, behind) = partition c s in if nat_beq d c then ([], s) else (d ∷ before, behind)

-- The text from the first occurrence on, and the text before it.
abbrev pub break_at : ℕ → Text → Text × Text
break_at c [] = ([], [])
break_at c (d ∷ s) =
    let (before, rest) = break_at c s in if nat_beq d c then ([], d ∷ s) else (d ∷ before, rest)

abbrev read_port : ℕ → Text → ℕ
read_port n [] = n
read_port n (c ∷ s) = read_port (n * 10 + (c - b'0')) s

abbrev split_rest : Text → Text → SplitUrl
split_rest scheme rest =
    let (address, query) = partition b'?' (drop 2 rest) in
    let (netloc, path) = break_at b'/' address in
    let (host, port) = partition b':' netloc in
    record {
      scheme = scheme;
      hostname = if is_empty host then none else some host;
      port = some (if is_empty port then none else some (read_port 0 port));
      path = path;
      query = query;
    }

abbrev pub simple_urlsplit : Text → Option SplitUrl
simple_urlsplit url = let (scheme, rest) = partition b':' url in some (split_rest scheme rest)

abbrev parse_pairs : List Text → List (Text × Text)
parse_pairs [] = []
parse_pairs (p ∷ ps) = partition b'=' p ∷ parse_pairs ps

abbrev simple_parse_qsl : Text → List (Text × Text)
simple_parse_qsl query = if is_empty query then [] else parse_pairs (split b'&' query)

abbrev simple_urlencode : List (Text × Text) → Text
simple_urlencode pairs = join b'&' (map (λ pair. pair.0 ++ (b'=' ∷ pair.1)) pairs)

abbrev simple_urlunsplit : Text → Text → Text → Text → Text
simple_urlunsplit scheme netloc path query =
    scheme ++ (codes "://" ++ (netloc ++ (path ++ (if is_empty query then [] else b'?' ∷ query))))

abbrev pub simple_urls : UrlLib
simple_urls = record {
  lower = ascii_lower;
  urlsplit = simple_urlsplit;
  parse_qsl = simple_parse_qsl;
  urlencode = simple_urlencode;
  urlunsplit = simple_urlunsplit;
}

abbrev pub simple_domain : Text → Text
simple_domain url = elim (simple_urlsplit url) [
  | none ↦ []
  | some parts ↦ elim parts.hostname [ none ↦ [] | some h ↦ h ]
]
