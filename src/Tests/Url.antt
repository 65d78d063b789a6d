-- ===== src/Tests/Url.antt =====
-- src/url.cpp with a splitter.
use klib.Base.{
  ◌≡◌, ◌≢◌, refl, ap, ◌∙◌, false, List, [], ◌∷◌, ◌++◌, append-nil, append_assoc, arith, Bytes, Dict,
  codes, All, ◌==◌, if◌then◌else◌, bytes_eq,
}
use mathlib.Core.List.{cons-ne-nil}
use klib.Http.Post.Fields.{join_and}
use klib.Url.Query.{parse_query, LacksAnd, IsSplitter, Distinct, parse_query-join_and}

-- The parts between the separators, from the part so far.
split_and : Bytes → Bytes → List Bytes
split_and part [] = part ∷ []
split_and part (c ∷ s) =
    let rest = split_and (part ++ c ∷ []) s in
    let next = split_and [] s in if c == b'&' then part ∷ next else rest

split_and-last : (part p : Bytes) → LacksAnd p → split_and part p ≡ (part ++ p) ∷ []
unfolding split_and
split_and-last part [] _ = rw append-nil
split_and-last part (c ∷ p) (h, hs) =
    let other : (c == b'&') ≡ false = ground arith in
    rw other
      (split_and-last (part ++ c ∷ []) p hs ∙ ap (λ t. t ∷ []) (append_assoc part (c ∷ []) p))

split_and-append :
    (part p s : Bytes)
    → LacksAnd p
    → split_and part (p ++ (b'&' ∷ s)) ≡ (part ++ p) ∷ split_and [] s
unfolding split_and
split_and-append part [] s _ = rw append-nil
split_and-append part (c ∷ p) s (h, hs) =
    let other : (c == b'&') ≡ false = ground arith in
    rw other (
      split_and-append (part ++ c ∷ []) p s hs
      ∙ ap (λ t. t ∷ split_and [] s) (append_assoc part (c ∷ []) p))

abbrev splitter : Bytes → Bytes → List Bytes
splitter s separators = split_and [] s

split_and-join_and :
    (p : Bytes) (ps : List Bytes)
    → All (λ q. (q ≢ []) × LacksAnd q) (p ∷ ps)
    → split_and [] (join_and (p ∷ ps)) ≡ p ∷ ps
unfolding join_and
split_and-join_and p [] ((ne, h), _) = split_and-last [] p h
split_and-join_and p (q ∷ ps) ((ne, h), hs) =
    split_and-append [] p (join_and (q ∷ ps)) h ∙ ap (λ t. p ∷ t) (split_and-join_and q ps hs)

splitter-IsSplitter : IsSplitter splitter
splitter-IsSplitter = record { split_join = split_and-join_and }

abbrev entries : Dict
entries = (codes "a", codes "1=1") ∷ (codes "b", []) ∷ []

entries-Distinct : Distinct [] entries
unfolding bytes_eq
entries-Distinct = (tt, ((refl, tt), tt))

parse_query-join_and_example : parse_query splitter (codes "a=1=1&b=") [] ≡ entries
unfolding join_and
parse_query-join_and_example =
    parse_query-join_and splitter splitter-IsSplitter entries (cons-ne-nil _ _) (omega arith)
      entries-Distinct
