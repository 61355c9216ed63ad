-- ===== src/Service/CacheKey/Injective.antt =====
-- pkg/service/book_service.go: the texts that `BooksListDataCacheKey` makes of different queries.
use golang_rest_api_template.Base.{
  ℕ, ◌≡◌, refl, sym, ap, subst, ◌≢◌, inl, inr, Bool, true, false, ◌&&◌, Option, none, some, List,
  [], ◌∷◌, ◌++◌, arith, if◌then◌else◌, Bool-cases, any, All, Bytes, lit, ◌=s◌, =s_sound, =s_refl,
  is_empty, format_uint, IsDigit, format_uint-IsDigit, is_empty-format_uint, format_uint-injective,
  hex_encode-NoUnderscore, hex_encode-injective,
}
use golang_rest_api_template.Repository.Persistence.{BookListQuery}
use golang_rest_api_template.Repository.ListQuery.{orders, sort_fields, IsListQuery}
use golang_rest_api_template.Service.CacheKey.{owner_text, books_list_data_cache_key}
use mathlib.Core.List.{cons-eq-cons}

-- No underscore, the separator of the key.
abbrev pub IsPlain : Bytes → Type 0
IsPlain s = All (λ b. b ≢ 95) s

-- A plain text ends at the first underscore.
split_plain :
    (a b c d : Bytes) → IsPlain a → IsPlain b → a ++ (95 ∷ c) ≡ b ++ (95 ∷ d) → (a ≡ b) × (c ≡ d)
split_plain [] [] c d pa pb e = (refl, (cons-eq-cons.0 e).1)
split_plain [] (y ∷ b) c d pa (ny, pb) e = absurd (ny (sym (cons-eq-cons.0 e).0))
split_plain (x ∷ a) [] c d (nx, pa) pb e = absurd (nx (cons-eq-cons.0 e).0)
split_plain (x ∷ a) (y ∷ b) c d (nx, pa) (ny, pb) e =
    let (head, tail) = cons-eq-cons.0 e in
    let (same, rest) = split_plain a b c d pa pb tail in (cc (head, same), rest)

digits-IsPlain : (s : Bytes) → All IsDigit s → IsPlain s
digits-IsPlain [] h = tt
digits-IsPlain (b ∷ s) ((lo, hi), h) = (λ e. omega arith, digits-IsPlain s h)

format_uint-IsPlain : (n : ℕ) → IsPlain (format_uint n)
format_uint-IsPlain n = digits-IsPlain _ (format_uint-IsDigit n)

-- A fixed text in front of both sides drops.
drop_prefix : (s a b : Bytes) → s ++ a ≡ s ++ b → a ≡ b
drop_prefix [] a b e = e
drop_prefix (x ∷ s) a b e = drop_prefix s a b (cons-eq-cons.0 e).1

-- A plain text before a fixed one that begins with an underscore.
field :
    (s a b c d : Bytes)
    → IsPlain a
    → IsPlain b
    → a ++ (95 ∷ (s ++ c)) ≡ b ++ (95 ∷ (s ++ d))
    → (a ≡ b) × (c ≡ d)
field s a b c d pa pb e =
    let (same, rest) = split_plain a b (s ++ c) (s ++ d) pa pb e in (same, drop_prefix s c d rest)

digit_first : (s c d : Bytes) → IsPlain s → is_empty s ≡ false → 95 ∷ c ≡ s ++ d → ⊥
digit_first [] c d p e h = cc
digit_first (b ∷ s) c d (nb, p) e h = nb (sym (cons-eq-cons.0 h).0)

-- `_` in place of an owner is no number.
no_owner : (n : ℕ) (c d : Bytes) → lit "_" ++ (95 ∷ c) ≡ format_uint n ++ (95 ∷ d) → ⊥
no_owner n c d e =
    digit_first (format_uint n) (95 ∷ c) (95 ∷ d) (format_uint-IsPlain n) (is_empty-format_uint n) e

-- The owner is written apart from every id.
owner_text-injective :
    (a b : Option ℕ) (c d : Bytes)
    → owner_text a ++ (95 ∷ c) ≡ owner_text b ++ (95 ∷ d)
    → (a ≡ b) × (c ≡ d)
owner_text-injective none none c d e = (refl, drop_prefix (lit "__") c d e)
owner_text-injective none (some y) c d e = absurd (no_owner y c d e)
owner_text-injective (some x) none c d e = absurd (no_owner x d c (sym e))
owner_text-injective (some x) (some y) c d e =
    let (same, rest) =
      split_plain (format_uint x) (format_uint y) c d (format_uint-IsPlain x)
        (format_uint-IsPlain y) e in
    (ap some (format_uint-injective x y same), rest)

-- What ends the key.
abbrev tail_text : Bytes → Bytes → Bytes
tail_text sort order = sort ++ (lit "_order_" ++ order)

abbrev is_separate : (s o s' o' : Bytes) → Bool
is_separate s o s' o' = if tail_text s o =s tail_text s' o' then s =s s' && o =s o' else true

abbrev every : {A : Type 0} → (A → Bool) → List A → Bool
every f [] = true
every f (a ∷ s) = let rest = every f s in f a && rest

every_member :
    (f : Bytes → Bool) (s : List Bytes) (b : Bytes)
    → every f s ≡ true
    → any (λ a. a =s b) s ≡ true
    → f b ≡ true
every_member f [] b h m = absurd (cc m)
every_member f (a ∷ s) b h m = elim (Bool-cases (a =s b)) [
  | inl same ↦ ground (arith, =s_sound a b same)
  | inr other ↦ every_member f s b (ground arith) (rw other at m)
]

tails_separate :
    every
      (λ s. every (λ s'. every (λ o. every (is_separate s o s') orders) orders) sort_fields)
      sort_fields
    ≡ true
tails_separate = refl

is_separate_of :
    (q q' : BookListQuery)
    → IsListQuery q
    → IsListQuery q'
    → is_separate q.sort q.order q'.sort q'.order ≡ true
is_separate_of q q' h h' =
    every_member (is_separate q.sort q.order q'.sort) orders q'.order
      (every_member (λ o. every (is_separate q.sort o q'.sort) orders) orders q.order
        (every_member (λ s'. every (λ o. every (is_separate q.sort o s') orders) orders) sort_fields
          q'.sort
          (every_member
            (λ s. every (λ s'. every (λ o. every (is_separate s o s') orders) orders) sort_fields)
            sort_fields q.sort tails_separate h.known_sort)
          h'.known_sort)
        h.known_order)
      h'.known_order

both_true : (a b : Bool) → (a && b) ≡ true → (a ≡ true) × (b ≡ true)
both_true true b e = (refl, e)
both_true false b e = absurd (cc e)

tail_text-injective :
    (q q' : BookListQuery)
    → IsListQuery q
    → IsListQuery q'
    → tail_text q.sort q.order ≡ tail_text q'.sort q'.order
    → (q.sort ≡ q'.sort) × (q.order ≡ q'.order)
tail_text-injective q q' h h' e =
    let same : (tail_text q.sort q.order =s tail_text q'.sort q'.order) ≡ true =
      subst (λ t. (tail_text q.sort q.order =s t) ≡ true) e (=s_refl (tail_text q.sort q.order)) in
    let both = rw same at (is_separate_of q q' h h') in
    let (one, two) = both_true (q.sort =s q'.sort) (q.order =s q'.order) both in
    (=s_sound q.sort q'.sort one, =s_sound q.order q'.order two)

-- Two list queries, each with a generation that is not negative, have the same cache key only if
-- the generations and the queries are the same. Condition: both have a sort field and an order of
-- the known ones, and title and author filters that are bytes.
pub books_list_data_cache_key-injective :
    (gen gen' : ℕ) (q q' : BookListQuery)
    → IsListQuery q
    → IsListQuery q'
    → books_list_data_cache_key gen q ≡ books_list_data_cache_key gen' q'
    → (gen ≡ gen') × (q ≡ q')
unfolding books_list_data_cache_key
books_list_data_cache_key-injective gen gen' q q' h h' e =
    let number = format_uint-IsPlain in
    let hex = hex_encode-NoUnderscore in
    let (same_gen, e1) =
      field (lit "offset_") _ _ _ _ (number gen) (number gen')
        (drop_prefix (lit "books_g") _ _ e) in
    let (same_offset, e2) = field (lit "limit_") _ _ _ _ (number q.offset) (number q'.offset) e1 in
    let (same_limit, e3) = field (lit "title_") _ _ _ _ (number q.limit) (number q'.limit) e2 in
    let (same_title, e4) =
      field (lit "author_") _ _ _ _ (hex q.title_like h.title_bytes)
        (hex q'.title_like h'.title_bytes) e3 in
    let (same_author, e5) =
      field (lit "owner_") _ _ _ _ (hex q.author_like h.author_bytes)
        (hex q'.author_like h'.author_bytes) e4 in
    let (same_owner, e6) = owner_text-injective q.owner_id q'.owner_id _ _ e5 in
    let (same_sort, same_order) =
      tail_text-injective q q' h h' (drop_prefix (lit "sort_") _ _ e6) in
    let offset = format_uint-injective q.offset q'.offset same_offset in
    let limit = format_uint-injective q.limit q'.limit same_limit in
    let title = hex_encode-injective q.title_like q'.title_like same_title in
    let author = hex_encode-injective q.author_like q'.author_like same_author in
    let same_query : q ≡ q' = λ i. record {
      offset = offset i;
      limit = limit i;
      title_like = title i;
      author_like = author i;
      owner_id = same_owner i;
      sort = same_sort i;
      order = same_order i;
    } in
    (format_uint-injective gen gen' same_gen, same_query)
