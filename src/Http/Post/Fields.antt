-- ===== src/Http/Post/Fields.antt =====
-- src/http.cpp: the body of a form, against the pairs joined by separators; the header lists.
use klib.Base.{
  ℕ, ◌≡◌, ◌≢◌, refl, ap, ◌∙◌, true, false, ◌||◌, none, some, List, [], ◌∷◌, ◌++◌, append_assoc,
  append-nil, Bytes, Dict, codes, c_str, map, is_empty,
}
use klib.Exception.{ok, throw, runtime_error}
use klib.Http.Curl.{Curl}
use klib.Http.Request.{add_lines, add_header}
use klib.Http.Post.{drop_last_and, splice, splicing_post_fields}

-- Texts with `&` between them.
unfoldable pub join_and : List Bytes → Bytes
join_and [] = []
join_and (p ∷ []) = p
join_and (p ∷ q ∷ ps) = p ++ (b'&' ∷ join_and (q ∷ ps))

-- Texts with `&` behind each.
each_and : List Bytes → Bytes
each_and [] = []
each_and (p ∷ ps) = p ++ (b'&' ∷ each_and ps)

drop_last_and-cons : (c : ℕ) (s : Bytes) → s ≢ [] → drop_last_and (c ∷ s) ≡ c ∷ drop_last_and s
unfolding drop_last_and
drop_last_and-cons c [] ne = absurd (ne refl)
drop_last_and-cons c (d ∷ s) ne = refl

drop_last_and-append : (p s : Bytes) → s ≢ [] → drop_last_and (p ++ s) ≡ p ++ drop_last_and s
drop_last_and-append [] s ne = refl
drop_last_and-append (c ∷ p) s ne =
    drop_last_and-cons c (p ++ s) (append-ne-nil p s ne)
    ∙ ap (λ t. c ∷ t) (drop_last_and-append p s ne)
  where
    append-ne-nil : (p s : Bytes) → s ≢ [] → p ++ s ≢ []
    append-ne-nil [] s ne = ne
    append-ne-nil (c ∷ p) s ne = cc

each_and-ne-nil : (p : Bytes) (ps : List Bytes) → each_and (p ∷ ps) ≢ []
unfolding each_and
each_and-ne-nil [] ps = cc
each_and-ne-nil (c ∷ p) ps = cc

drop_last_and-each_and : (ps : List Bytes) → drop_last_and (each_and ps) ≡ join_and ps
unfolding each_and join_and drop_last_and
drop_last_and-each_and [] = refl
drop_last_and-each_and (p ∷ []) = drop_last_and-append p (b'&' ∷ []) (cc) ∙ append-nil p
drop_last_and-each_and (p ∷ q ∷ ps) =
    drop_last_and-append p (b'&' ∷ each_and (q ∷ ps)) (cc)
    ∙ ap (λ t. p ++ t)
        (drop_last_and-cons b'&' (each_and (q ∷ ps)) (each_and-ne-nil q ps)
          ∙ ap (λ t. b'&' ∷ t) (drop_last_and-each_and (q ∷ ps)))

module _ (c : Curl) (escaped : Bytes → Bytes)
    (total : (s : Bytes) → c.escape s ≡ some (escaped s)) where
  -- `key=value`, both escaped up to their first NUL
  abbrev pub pair : Bytes × Bytes → Bytes
  pair (key, value) = escaped (c_str key) ++ (codes "=" ++ escaped (c_str value))

  splice_lem :
      (fields : Dict) (result : Bytes) (w : c.World)
      → splice c fields result w ≡ (ok (result ++ each_and (map pair fields)), w)
  unfolding splice each_and
  splice_lem [] result w = rw append-nil
  splice_lem ((key, value) ∷ fields) result w =
      rw (total (c_str key), total (c_str value)) (splice_lem fields _ w ∙ simp append_assoc)

  -- Where libcurl escapes every text, the body of a form is its `key=value` pairs, escaped, in the order
  -- of the map and with one `&` between them; making it does not touch libcurl's state.
  pub splicing_post_fields-join_and :
      (fields : Dict) (w : c.World)
      → splicing_post_fields c fields w ≡ (ok (join_and (map pair fields)), w)
  unfolding splicing_post_fields
  splicing_post_fields-join_and fields w =
      rw (splice_lem fields [] w) (ap (λ t. (ok t, w)) (drop_last_and-each_and (map pair fields)))

module _ (c : Curl) where
  -- If a header with an empty key or value stands behind a good one, `add_header` throws in the
  -- state in which the list of the good one has been allocated: nothing frees that list.
  pub add_header_leak :
      (h : ℕ) (key value key' value' : Bytes) (headers : Dict) (w : c.World)
      → is_empty key || is_empty value ≡ false
      → is_empty key' || is_empty value' ≡ true
      → add_header c h ((key, value) ∷ (key', value') ∷ headers) w ≡ (
        throw (runtime_error (codes "The header key and value can not be empty") []),
        (c.slist_append none (c_str (key ++ (codes ": " ++ value))) w).1,
      )
  unfolding add_header add_lines
  add_header_leak h key value key' value' headers w good bad = rw (good, bad) refl
