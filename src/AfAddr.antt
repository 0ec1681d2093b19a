-- ===== src/AfAddr.antt =====
-- `struct af_addr` of src/common.h and `build_af_addr` of src/common.c.
use flower_route.Base.{
  ℕ, length, ◌≡◌, refl, ap, arith, zero, suc, Option, none, some, List, [], ◌∷◌, ◌++◌, ◌==◌,
  if◌then◌else◌,
}
use flower_route.Ret.{Ret, ok, aborted}

abbrev pub af_inet : ℕ
af_inet = 2

abbrev pub af_inet6 : ℕ
af_inet6 = 10

abbrev pub replicate : ℕ → ℕ → List ℕ
replicate zero b = []
replicate (suc n) b = b ∷ replicate n b

abbrev pub take : ℕ → List ℕ → List ℕ
take zero bs = []
take (suc n) [] = []
take (suc n) (b ∷ bs) = b ∷ take n bs

-- What has the length is taken whole.
pub take-length : (n : ℕ) (bs : List ℕ) → length bs ≡ n → take n bs ≡ bs
take-length zero [] h = refl
take-length zero (b ∷ bs) h = absurd (omega arith)
take-length (suc n) [] h = refl
take-length (suc n) (b ∷ bs) h = ap (λ t. b ∷ t) (take-length n bs (omega arith))

-- `addr` is the sixteen bytes of `union some_in_addr`; an IPv4 address is the first four.
pub record AfAddr : Type 0 where
  pub af : ℕ
  pub mask_len : ℕ
  pub addr : List ℕ

abbrev pub zero_af_addr : AfAddr
zero_af_addr = record { af = 0; mask_len = 0; addr = replicate 16 0 }

-- The object in memory, as `memcmp` reads it: two bytes of padding, which `memset` has cleared.
abbrev pub af_addr_bytes : AfAddr → List ℕ
af_addr_bytes a = a.af ∷ a.mask_len ∷ 0 ∷ 0 ∷ a.addr

-- `addr` points to at least as many bytes as the family has, or is NULL.
unfoldable pub build_af_addr : ℕ → Option (List ℕ) → ℕ → Ret AfAddr
build_af_addr af none mask_len = ok (record { af = af; mask_len = mask_len; addr = replicate 16 0 })
build_af_addr af (some addr) mask_len =
    if af == af_inet
    then ok (record { af = af; mask_len = mask_len; addr = take 4 addr ++ replicate 12 0 })
    else if af == af_inet6
    then ok (record { af = af; mask_len = mask_len; addr = take 16 addr })
    else aborted
