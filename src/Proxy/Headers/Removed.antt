-- ===== src/Proxy/Headers/Removed.antt =====
-- What removeHopByHopHeaders of internal/proxy/proxy.go leaves of a header.
use langley.Prelude.{
  ◌≡◌, refl, ◌∙◌, Bool, true, false, ◌||◌, List, [], ◌∷◌, Option, none, Bytes, codes, beq, beq_iff,
  lookup, if◌then◌else◌, arith,
}
use langley.Proxy.Headers.{
  Header, canonical, get, delete, delete_all, hop_by_hop_headers, connection_names,
  remove_hop_by_hop_headers,
}

-- a key is the canonical form of one of the names
unfoldable pub is_named : Bytes → List Bytes → Bool
is_named key [] = false
is_named key (name ∷ names) = beq (canonical name) key || is_named key names

pub lookup-delete :
    (key name : Bytes) (h : Header)
    → lookup key (delete name h) ≡ (if beq name key then none else lookup key h)
unfolding lookup delete
lookup-delete key name [] = ground arith
lookup-delete key name ((k, values) ∷ h) =
    let rest = lookup-delete key name h in
    ground (arith, rest, beq_iff k name, beq_iff name key, beq_iff k key)

lookup-delete_all :
    (key : Bytes) (h : Header) (names : List Bytes)
    → lookup key (delete_all h names) ≡ (if is_named key names then none else lookup key h)
unfolding delete_all is_named
lookup-delete_all key h [] = refl
lookup-delete_all key h (name ∷ names) =
    let rest = lookup-delete_all key (delete (canonical name) h) names in
    let first = lookup-delete key (canonical name) h in ground (arith, rest, first)

-- After removeHopByHopHeaders a key has no values if it is the canonical form of a hop-by-hop name
-- or of a name in the first Connection value, and the values that it had otherwise.
pub lookup-remove_hop_by_hop_headers :
    (key : Bytes) (h : Header)
    → lookup key (remove_hop_by_hop_headers h) ≡ (
        if is_named key hop_by_hop_headers
          || is_named key (connection_names (get h (codes "Connection")))
        then none
        else lookup key h)
unfolding remove_hop_by_hop_headers
lookup-remove_hop_by_hop_headers key h =
    let listed = connection_names (get h (codes "Connection")) in
    let rest = lookup-delete_all key (delete_all h hop_by_hop_headers) listed in
    let first = lookup-delete_all key h hop_by_hop_headers in
    rest ∙ both (is_named key listed) (is_named key hop_by_hop_headers) _ (lookup key h) first
  where
    both :
        (a b : Bool) (o p : Option (List Bytes))
        → o ≡ (if b then none else p)
        → (if a then none else o) ≡ (if b || a then none else p)
    both true true o p e = refl
    both true false o p e = refl
    both false true o p e = e
    both false false o p e = e
