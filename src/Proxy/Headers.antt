-- ===== src/Proxy/Headers.antt =====
-- copyHeaders and removeHopByHopHeaders of internal/proxy/proxy.go. An http.Header has its values
-- under canonical names; its methods bring the name that they are given into that form.
pub mod Removed
use langley.Prelude.{
  ℕ, ◌+◌, ◌-◌, Bool, true, false, not, ◌&&◌, ◌||◌, List, [], ◌∷◌, ◌++◌, Option, none, some, Bytes,
  codes, beq, is_empty, Dict, lookup, insert, leb, ◌==◌, if◌then◌else◌,
}
use langley.Go.Strings.{is_one_of, split_on, trim_space}

abbrev pub Header : Type 0
Header = Dict (List Bytes)

abbrev pub is_lower : ℕ → Bool
is_lower c = leb b'a' c && leb c b'z'

abbrev pub is_upper : ℕ → Bool
is_upper c = leb b'A' c && leb c b'Z'

-- the bytes of a header name
unfoldable pub is_token : Bytes → Bool
unfolding is_one_of
is_token [] = true
is_token (c ∷ s) =
    (is_lower c || is_upper c || leb b'0' c && leb c b'9' || is_one_of (codes "!#$%&'*+-.^_`|~") c)
    && is_token s

-- upper case at the start and after a dash, lower case elsewhere
unfoldable pub recase : Bool → Bytes → Bytes
recase start [] = []
recase start (c ∷ s) =
    let rest = recase (c == b'-') s in
    if start && is_lower c
    then (c - 32) ∷ rest
    else if not start && is_upper c
    then (c + 32) ∷ rest
    else c ∷ rest

-- http.CanonicalHeaderKey: a text that is no header name stays as it is
unfoldable pub canonical : Bytes → Bytes
unfolding is_token recase
canonical name = if is_token name then recase true name else name

-- Header.Get: the first value, or ""
unfoldable pub get : Header → Bytes → Bytes
get h name = elim (lookup (canonical name) h) [
  | none ↦ []
  | some values ↦ elim values [ [] ↦ [] | v ∷ vs ↦ v ]
]

-- delete(h, key)
unfoldable pub delete : Bytes → Header → Header
delete key [] = []
delete key ((k, values) ∷ h) = if beq k key then delete key h else (k, values) ∷ delete key h

-- Header.Add
unfoldable pub add : Header → Bytes → Bytes → Header
add h name value = elim (lookup (canonical name) h) [
  | none ↦ insert (canonical name) (value ∷ []) h
  | some values ↦ insert (canonical name) (values ++ value ∷ []) h
]

unfoldable pub add_values : Header → Bytes → List Bytes → Header
add_values dst name [] = dst
add_values dst name (v ∷ vs) = add_values (add dst name v) name vs

unfoldable pub copy_headers : Header → Header → Header
copy_headers dst [] = dst
copy_headers dst ((name, values) ∷ src) = copy_headers (add_values dst name values) src

abbrev pub hop_by_hop_headers : List Bytes
hop_by_hop_headers =
    codes "Connection"
    ∷ codes "Keep-Alive"
    ∷ codes "Proxy-Authenticate"
    ∷ codes "Proxy-Authorization"
    ∷ codes "Te"
    ∷ codes "Trailers"
    ∷ codes "Transfer-Encoding"
    ∷ codes "Upgrade"
    ∷ []

-- Header.Del of some names
unfoldable pub delete_all : Header → List Bytes → Header
delete_all h [] = h
delete_all h (name ∷ names) = delete_all (delete (canonical name) h) names

-- the names in a Connection value, trimmed, without the empty ones
unfoldable pub trimmed : List Bytes → List Bytes
trimmed [] = []
trimmed (f ∷ fs) =
    let rest = trimmed fs in if is_empty (trim_space f) then rest else trim_space f ∷ rest

unfoldable pub connection_names : Bytes → List Bytes
unfolding trimmed
connection_names [] = []
connection_names (c ∷ conn) = trimmed (split_on b',' (c ∷ conn))

unfoldable pub remove_hop_by_hop_headers : Header → Header
remove_hop_by_hop_headers h =
    delete_all (delete_all h hop_by_hop_headers) (connection_names (get h (codes "Connection")))
