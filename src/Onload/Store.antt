-- ===== src/Onload/Store.antt =====
-- src/onload.c: the prefix lists as a map from names to sequences of prefixes.
use flower_route.Base.{
  All-append, ℕ, ◌≡◌, sym, ap, ◌∙◌, fun_ext, true, false, Option, none, some, List, [], ◌∷◌, ◌++◌,
  inl, inr, Bool-cases, is_some, if◌then◌else◌, All,
}
use flower_route.Base.Chars.{str_equal, str_equal→≡, str_equal_comm, str_equal_refl}
use flower_route.Onload.{
  Prefix, PrefixList, lookup_prefix_list, get_or_create_prefix_list, append_entry,
  onload_store_prefix,
}

-- The specification: a map from names to prefixes in the order in which they came.
abbrev pub PrefixMap : Type 0
PrefixMap = List ℕ → List Prefix

abbrev pub push : List ℕ → Prefix → PrefixMap → PrefixMap
push list_name pfx m = λ n. if str_equal n list_name then m n ++ pfx ∷ [] else m n

abbrev pub entries_of : Option PrefixList → List Prefix
entries_of none = []
entries_of (some l) = l.entries

unfoldable pub prefixes : List PrefixList → PrefixMap
unfolding lookup_prefix_list
prefixes ls n = entries_of (lookup_prefix_list n ls)

-- A name that is compared with two others.
str_equal_trans : (s t u : List ℕ) → str_equal s t ≡ true → str_equal s u ≡ str_equal t u
str_equal_trans s t u e = ap (λ x. str_equal x u) (str_equal→≡ s t e)

-- For a name that is in the lists, appending is `push`.
append_entry-push :
    (name : List ℕ) (pfx : Prefix) (ls : List PrefixList)
    → is_some (lookup_prefix_list name ls) ≡ true
    → (n : List ℕ) → prefixes (append_entry name pfx ls) n ≡ push name pfx (prefixes ls) n
unfolding append_entry lookup_prefix_list prefixes
append_entry-push name pfx [] e n = cc
append_entry-push name pfx (l ∷ ls) e n = elim (Bool-cases (str_equal l.name name)) [
  | inl h ↦
      let same : str_equal l.name n ≡ str_equal n name =
        str_equal_trans l.name name n h ∙ str_equal_comm name n in
      elim (Bool-cases (str_equal n name)) [
        | inl k ↦ rw (h, k, same ∙ k)
        | inr k ↦ rw (h, k, same ∙ k)
      ]
  | inr h ↦
      let later : is_some (lookup_prefix_list name ls) ≡ true = rw h at e in
      elim (Bool-cases (str_equal l.name n)) [
        | inl k ↦
            let other : str_equal n name ≡ false = sym (str_equal_trans l.name n name k) ∙ h in
            rw (h, k, other)
        | inr k ↦ rw (h, k) (append_entry-push name pfx ls later n)
      ]
]

-- A new list is empty, and is found.
append-new :
    (name : List ℕ) (ls : List PrefixList)
    → is_some (lookup_prefix_list name ls) ≡ false
    → let new = ls ++ record { name = name; entries = [] } ∷ [] in
      (is_some (lookup_prefix_list name new) ≡ true)
      × ((n : List ℕ) → prefixes new n ≡ prefixes ls n)
unfolding lookup_prefix_list prefixes
append-new name [] e = (
  rw (str_equal_refl name),
  λ n. elim (Bool-cases (str_equal name n)) [ inl k ↦ rw (k) | inr k ↦ rw (k) ],
)
append-new name (l ∷ ls) e = elim (Bool-cases (str_equal l.name name)) [
  | inl h ↦ let bad : true ≡ false = rw h at e in cc
  | inr h ↦
      let (found, same) = append-new name ls (rw h at e) in
      (
        rw (h) found,
        λ n. elim (Bool-cases (str_equal l.name n)) [ inl k ↦ rw (k) | inr k ↦ rw (k) (same n) ],
      )
]

get_or_create-found :
    (name : List ℕ) (ls : List PrefixList)
    → (is_some (lookup_prefix_list name (get_or_create_prefix_list name ls)) ≡ true)
      × ((n : List ℕ) → prefixes (get_or_create_prefix_list name ls) n ≡ prefixes ls n)
unfolding get_or_create_prefix_list
get_or_create-found name ls = elim (Bool-cases (is_some (lookup_prefix_list name ls))) [
  | inl h ↦ (rw (h, h), λ n. rw (h))
  | inr h ↦ let (found, same) = append-new name ls h in (rw (h) found, λ n. rw (h) (same n))
]

-- Storing a prefix appends it to what the list of its name holds, which may be a new list, and
-- leaves what every other name finds as it is.
pub onload_store_prefix-push :
    (name : List ℕ) (pfx : Prefix) (ls : List PrefixList)
    → prefixes (onload_store_prefix name pfx ls) ≡ push name pfx (prefixes ls)
unfolding onload_store_prefix
onload_store_prefix-push name pfx ls =
    let (found, same) = get_or_create-found name ls in
    fun_ext (λ n.
      append_entry-push name pfx (get_or_create_prefix_list name ls) found n
      ∙ ap (λ es. if str_equal n name then es ++ pfx ∷ [] else es) (same n))

module _ (P : Prefix → Type 0) where
  -- Every stored prefix satisfies `P`.
  abbrev pub AllStored : List PrefixList → Type 0
  AllStored = All (λ l. All P l.entries)

  append_entry-AllStored :
      (name : List ℕ) (pfx : Prefix) (ls : List PrefixList)
      → P pfx
      → AllStored ls
      → AllStored (append_entry name pfx ls)
  unfolding append_entry
  append_entry-AllStored name pfx [] p h = tt
  append_entry-AllStored name pfx (l ∷ ls) p h = elim (Bool-cases (str_equal l.name name)) [
    | inl e ↦ rw (e) (All-append P l.entries (pfx ∷ []) h.0 (p, tt), h.1)
    | inr e ↦ rw (e) (h.0, append_entry-AllStored name pfx ls p h.1)
  ]

  pub store-AllStored :
      (name : List ℕ) (pfx : Prefix) (ls : List PrefixList)
      → P pfx
      → AllStored ls
      → AllStored (onload_store_prefix name pfx ls)
  unfolding onload_store_prefix get_or_create_prefix_list
  store-AllStored name pfx ls p h =
      append_entry-AllStored name pfx (get_or_create_prefix_list name ls) p
        (elim (Bool-cases (is_some (lookup_prefix_list name ls))) [
          | inl e ↦ rw (e) h
          | inr e ↦ rw (e) (All-append _ ls _ h (tt, tt))
        ])
