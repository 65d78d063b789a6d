-- ===== src/Url/Query.antt =====
-- src/url.cpp: the query of a URL. `boost::split` is a parameter.
use klib.Base.{
  ℕ, suc, ◌≡◌, ◌≢◌, refl, ap, ◌∙◌, false, Option, none, some, List, [], ◌∷◌, ◌++◌, append-nil,
  append_assoc, arith, Bytes, Dict, codes, emplace, take, drop, map, bytes_eq, All, All-append,
  length, take-length-append, ◌==◌, if◌then◌else◌,
}
use klib.Http.Post.Fields.{join_and}

-- `s.find(c)`, `none` for `npos`
unfoldable pub find : ℕ → Bytes → Option ℕ
find c [] = none
find c (d ∷ s) =
    let rest = find c s in
    if d == c then some 0 else elim rest [ none ↦ none | some i ↦ some (suc i) ]

abbrev pub split_at : Bytes → Option ℕ → Bytes × Bytes
split_at item none = (item, item)
split_at item (some i) = (take i item, drop (suc i) item)

-- `(item.substr(0, index), item.substr(index + 1))`: with no `=` the index is `npos`, the first of
-- these is the whole item, and `npos + 1` is 0.
unfoldable pub query_entry : Bytes → Bytes × Bytes
unfolding find
query_entry item = split_at item (find b'=' item)

unfoldable pub add_entries : List Bytes → Dict → Dict
unfolding query_entry emplace
add_entries [] d = d
add_entries (item ∷ items) d =
    add_entries items (emplace (query_entry item).0 (query_entry item).1 d)

-- The loop over `boost::split(query, query_str, is_any_of("&"), token_compress_on)`.
unfoldable pub parse_query : (Bytes → Bytes → List Bytes) → Bytes → Dict → Dict
unfolding add_entries
parse_query split query_str d = add_entries (split query_str (codes "&")) d

-- An item with no `=` gets itself for its value.
pub query_entry_no_value :
    (item : Bytes) → All (λ c. c ≢ b'=') item → query_entry item ≡ (item, item)
unfolding query_entry
query_entry_no_value item h = ap (split_at item) (find_none item h)
  where
    find_none : (s : Bytes) → All (λ c. c ≢ b'=') s → find b'=' s ≡ none
    find_none [] _ = refl
    find_none (c ∷ s) (h, hs) = ground (arith, find_none s hs)

find-append :
    (key value : Bytes)
    → All (λ c. c ≢ b'=') key
    → find b'=' (key ++ (b'=' ∷ value)) ≡ some (length key)
unfolding find
find-append [] value _ = refl
find-append (c ∷ key) value (h, hs) = ground (arith, find-append key value hs)

drop-suc : (key value : Bytes) → drop (suc (length key)) (key ++ (b'=' ∷ value)) ≡ value
drop-suc [] value = refl
drop-suc (c ∷ key) value = drop-suc key value

abbrev pub item_of : Bytes × Bytes → Bytes
item_of (key, value) = key ++ (b'=' ∷ value)

query_entry-item_of :
    (key value : Bytes)
    → All (λ c. c ≢ b'=') key
    → query_entry (item_of (key, value)) ≡ (key, value)
unfolding query_entry
query_entry-item_of key value h =
    rw (find-append key value h)
      (λ i. (take-length-append key (b'=' ∷ value) i, drop-suc key value i))

-- A key that a dictionary lacks.
abbrev pub Fresh : Bytes → Dict → Type 0
Fresh k [] = Unit
Fresh k ((j, v) ∷ d) = (bytes_eq j k ≡ false) × Fresh k d

abbrev pub Distinct : Dict → Dict → Type 0
Distinct before [] = Unit
Distinct before ((k, v) ∷ d) = Fresh k before × Distinct (before ++ (k, v) ∷ []) d

emplace-Fresh : (k v : Bytes) (d : Dict) → Fresh k d → emplace k v d ≡ d ++ (k, v) ∷ []
unfolding emplace
emplace-Fresh k v [] _ = refl
emplace-Fresh k v ((j, w) ∷ d) (h, hs) = rw (h, emplace-Fresh k v d hs)

abbrev pub KeysLackEquals : Dict → Type 0
KeysLackEquals [] = Unit
KeysLackEquals ((k, v) ∷ d) = All (λ c. c ≢ b'=') k × KeysLackEquals d

add_entries-cons :
    (item : Bytes) (items : List Bytes) (d : Dict)
    → add_entries (item ∷ items) d
      ≡ add_entries items (emplace (query_entry item).0 (query_entry item).1 d)
unfolding add_entries
add_entries-cons item items d = refl

add_entries-nil : (d : Dict) → add_entries [] d ≡ d
unfolding add_entries
add_entries-nil d = refl

add_entries-items :
    (d before : Dict)
    → KeysLackEquals d
    → Distinct before d
    → add_entries (map item_of d) before ≡ before ++ d
add_entries-items [] before _ _ = rw (add_entries-nil, append-nil)
add_entries-items ((k, v) ∷ d) before (h, hs) (f, fs) =
    rw (add_entries-cons, query_entry-item_of k v h, emplace-Fresh k v before f)
      (add_entries-items d (before ++ (k, v) ∷ []) hs fs ∙ append_assoc before ((k, v) ∷ []) d)

abbrev pub LacksAnd : Bytes → Type 0
LacksAnd = All (λ c. c ≢ b'&')

-- What the documentation of `boost::split` says of texts with single separators between parts that
-- are not empty and hold no separator: it gives the parts.
pub record IsSplitter (split : Bytes → Bytes → List Bytes) : Type 0 where
  pub split_join :
      (p : Bytes) (ps : List Bytes)
      → All (λ q. (q ≢ []) × LacksAnd q) (p ∷ ps)
      → split (join_and (p ∷ ps)) (codes "&") ≡ p ∷ ps

-- No key holds `=`, and no key or value holds `&`.
abbrev pub IsPlain : Dict → Type 0
IsPlain [] = Unit
IsPlain ((k, v) ∷ d) = (All (λ c. c ≢ b'=') k × LacksAnd k × LacksAnd v) × IsPlain d

plain_keys : (d : Dict) → IsPlain d → KeysLackEquals d
plain_keys [] _ = tt
plain_keys ((k, v) ∷ d) ((e, a, b), h) = (e, plain_keys d h)

plain_item :
    (k v : Bytes) → LacksAnd k → LacksAnd v → (item_of (k, v) ≢ []) × LacksAnd (item_of (k, v))
plain_item k v a b = (item_ne k v, All-append (λ c. c ≢ b'&') k (b'=' ∷ v) a ((omega arith), b))
  where
    item_ne : (k v : Bytes) → item_of (k, v) ≢ []
    item_ne [] v = cc
    item_ne (c ∷ k) v = cc

plain_items : (d : Dict) → IsPlain d → All (λ q. (q ≢ []) × LacksAnd q) (map item_of d)
plain_items [] _ = tt
plain_items ((k, v) ∷ d) ((e, a, b), h) = (plain_item k v a b, plain_items d h)

-- With a splitter that does what `IsSplitter` says: for a dictionary with at least one entry,
-- distinct keys, no `=` in a key and no `&` in a key or a value, the query `k=v&k=v…` of its
-- entries in their order is read as the dictionary.
pub parse_query-join_and :
    (split : Bytes → Bytes → List Bytes)
    → IsSplitter split
    → (d : Dict) → d ≢ []
    → IsPlain d
    → Distinct [] d
    → parse_query split (join_and (map item_of d)) [] ≡ d
unfolding parse_query
parse_query-join_and split S [] ne plain distinct = absurd (ne refl)
parse_query-join_and split S ((k, v) ∷ d) ne plain distinct =
    rw (S.split_join (item_of (k, v)) (map item_of d) (plain_items ((k, v) ∷ d) plain))
      (add_entries-items ((k, v) ∷ d) [] (plain_keys ((k, v) ∷ d) plain) distinct)
