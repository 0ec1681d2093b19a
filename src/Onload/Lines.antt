-- ===== src/Onload/Lines.antt =====
-- src/onload.c: `onload_fread_prefix` and `onload_load_prefixes`, which read the prefixes of a file.
-- A pointer into `buf` is the rest of the buffer.
use flower_route.Base.{
  ℕ, zero, suc, ◌-◌, Bool, true, false, ◌&&◌, ◌||◌, Option, none, some, List, [], ◌∷◌, ◌++◌, ltb,
  leb, ◌==◌, length, if◌then◌else◌,
}
use flower_route.Base.Chars.{skip_while, is_digit}
use flower_route.AfAddr.{take}
use flower_route.Onload.{PrefixList, Pton, onload_add_prefix}

abbrev pub is_blank : ℕ → Bool
is_blank c = (c == 32) || (c == 9)

-- `*p == '#' || *p == '\n' || *p == 0`
abbrev pub at_end : List ℕ → Bool
at_end [] = true
at_end (c ∷ _) = (c == 35) || (c == 10) || (c == 0)

abbrev pub is_lower_hex : ℕ → Bool
is_lower_hex c = leb 97 c && leb c 102

abbrev pub is_upper_hex : ℕ → Bool
is_upper_hex c = leb 65 c && leb c 70

abbrev pub is_separator : ℕ → Bool
is_separator c = (c == 46) || (c == 58) || (c == 47)

-- The body of the do-while loop.
unfoldable pub token_pass : List ℕ → List ℕ
unfolding skip_while
token_pass p =
    skip_while is_separator
      (skip_while is_upper_hex (skip_while is_lower_hex (skip_while is_digit p)))

-- The do-while loop, on fuel: `p > p_was_here` where less is left than before.
unfoldable pub token_end : ℕ → List ℕ → List ℕ
unfolding token_pass
token_end zero p = p
token_end (suc fuel) p =
    let q = token_pass p in
    let rest = token_end fuel q in if ltb (length q) (length p) then rest else q

-- From `begin` up to `end`, where a NUL has been written.
abbrev pub between : List ℕ → List ℕ → List ℕ
between begin end = take (length begin - length end) begin

-- With `begin` and `end` found: the text, or `continue`.
abbrev pub bounded_text : List ℕ → List ℕ → Option (List ℕ)
bounded_text begin end =
    if at_end begin
    then none
    else if at_end (skip_while is_blank end)
    then some (between begin end)
    else none

-- The loop's body up to the call that adds the prefix; `none` is `continue`.
unfoldable pub line_prefix : List ℕ → Option (List ℕ)
unfolding skip_while token_end
line_prefix buf =
    let begin = skip_while is_blank buf in bounded_text begin (token_end (suc (length begin)) begin)

-- What `fgets` puts into the buffer, call after call: up to `room` bytes more, after `cur`.
abbrev pub unless_empty : List ℕ → List (List ℕ)
unless_empty [] = []
unless_empty (c ∷ cs) = (c ∷ cs) ∷ []

abbrev pub buffer_size : ℕ
buffer_size = 512

unfoldable pub fgets : ℕ → List ℕ → List ℕ → List (List ℕ)
fgets room cur [] = unless_empty cur
fgets room cur (c ∷ cs) =
    let full = (c == 10) || (room == 1) in
    let line = cur ++ c ∷ [] in
    let rest = fgets (if full then buffer_size - 1 else room - 1) (if full then [] else line) cs in
    if full then line ∷ rest else rest

-- How `onload_load_prefixes` ends: 0, -EINVAL, or the error of `fopen`.
pub data LoadResult : Type 0 where
  loaded einval not_opened : LoadResult

module _ (inet_pton : ℕ → List ℕ → Pton) (list_name : List ℕ) where
  abbrev pub add_found : Option (List ℕ) → List PrefixList → List PrefixList × Bool
  add_found none ls = (ls, true)
  add_found (some text) ls = onload_add_prefix inet_pton list_name text ls

  abbrev pub unless_failed :
      (List PrefixList → List PrefixList × LoadResult)
      → List PrefixList × Bool
      → List PrefixList × LoadResult
  unless_failed next (ls, true) = next ls
  unless_failed next (ls, false) = (ls, einval)

  -- The loop over the buffers.
  unfoldable pub onload_fread_prefix :
      List (List ℕ) → List PrefixList → List PrefixList × LoadResult
  unfolding line_prefix onload_add_prefix
  onload_fread_prefix [] ls = (ls, loaded)
  onload_fread_prefix (buf ∷ bufs) ls =
      unless_failed (onload_fread_prefix bufs) (add_found (line_prefix buf) ls)

  -- The file's bytes, or `none` where it cannot be opened. The outer loop ends after one call,
  -- whatever that returns.
  unfoldable pub onload_load_prefixes :
      Option (List ℕ) → List PrefixList → List PrefixList × LoadResult
  unfolding onload_fread_prefix fgets
  onload_load_prefixes none ls = (ls, not_opened)
  onload_load_prefixes (some file) ls = onload_fread_prefix (fgets (buffer_size - 1) [] file) ls
