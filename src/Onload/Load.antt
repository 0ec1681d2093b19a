-- ===== src/Onload/Load.antt =====
-- src/onload.c: what a file's lines do to the prefix lists.
use flower_route.Base.{ℕ, ◌≡◌, refl, ap, ◌∙◌, Option, none, some, List, [], ◌∷◌}
use flower_route.Onload.{
  onload_store_prefix, stored, Prefix, PrefixList, Pton, read_prefix, onload_add_prefix,
}
use flower_route.Onload.Lines.{
  add_found, unless_failed, line_prefix, LoadResult, loaded, einval, onload_fread_prefix,
}
use flower_route.Onload.Store.{PrefixMap, push, prefixes, onload_store_prefix-push}

-- The specification: prefixes in their order, up to the first that cannot be read.
abbrev pub push_all : List ℕ → List Prefix → PrefixMap → PrefixMap
push_all list_name [] m = m
push_all list_name (pfx ∷ pfxs) m = push_all list_name pfxs (push list_name pfx m)

module _ (inet_pton : ℕ → List ℕ → Pton) where
  abbrev pub then_prefix : Option Prefix → List Prefix × LoadResult → List Prefix × LoadResult
  then_prefix none rest = ([], einval)
  then_prefix (some pfx) (pfxs, result) = (pfx ∷ pfxs, result)

  abbrev pub then_line : Option (List ℕ) → List Prefix × LoadResult → List Prefix × LoadResult
  then_line none rest = rest
  then_line (some text) rest = then_prefix (read_prefix inet_pton text) rest

  unfoldable pub accepted : List (List ℕ) → List Prefix × LoadResult
  unfolding line_prefix read_prefix
  accepted [] = ([], loaded)
  accepted (buf ∷ bufs) = then_line (line_prefix buf) (accepted bufs)

  module _ (name : List ℕ) where
    -- The lists and the result agree with what was accepted.
    abbrev pub Agrees :
        List PrefixList → List PrefixList × LoadResult → List Prefix × LoadResult → Type 0
    Agrees ls r a = (prefixes r.0 ≡ push_all name a.0 (prefixes ls)) × (r.1 ≡ a.1)

    module _ (next : List PrefixList → List PrefixList × LoadResult)
        (rest : List Prefix × LoadResult)
        (agrees : (ls : List PrefixList) → Agrees ls (next ls) rest) (ls : List PrefixList) where
      stored-Agrees :
          (o : Option Prefix)
          → Agrees ls
              (unless_failed inet_pton name next (stored inet_pton name o ls))
              (then_prefix o rest)
      stored-Agrees none = (refl, refl)
      stored-Agrees (some pfx) =
          let (same, result) = agrees (onload_store_prefix name pfx ls) in
          (same ∙ ap (push_all name rest.0) (onload_store_prefix-push name pfx ls), result)

      found-Agrees :
          (o : Option (List ℕ))
          → Agrees ls
              (unless_failed inet_pton name next (add_found inet_pton name o ls))
              (then_line o rest)
      unfolding onload_add_prefix
      found-Agrees none = agrees ls
      found-Agrees (some text) = stored-Agrees (read_prefix inet_pton text)

    -- Reading a file's lines adds to the list of the name, in the order of the lines, the prefixes
    -- up to the first line whose prefix cannot be read, and reports exactly whether there was one;
    -- the lines without a prefix are passed over, and every other name finds what it found before.
    pub fread_prefix-Agrees :
        (bufs : List (List ℕ)) (ls : List PrefixList)
        → Agrees ls (onload_fread_prefix inet_pton name bufs ls) (accepted bufs)
    unfolding onload_fread_prefix accepted
    fread_prefix-Agrees [] ls = (refl, refl)
    fread_prefix-Agrees (buf ∷ bufs) ls =
        found-Agrees (onload_fread_prefix inet_pton name bufs) (accepted bufs)
          (fread_prefix-Agrees bufs) ls (line_prefix buf)
