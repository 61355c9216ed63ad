-- ===== src/Service/CacheKey.antt =====
-- pkg/service/book_service.go: `BooksListCacheGenKey` and `BooksListDataCacheKey`.
pub mod Injective
use golang_rest_api_template.Base.{ℕ, Bytes, lit, ◌++◌, Option, none, some, format_uint, hex_encode}
use golang_rest_api_template.Repository.Persistence.{BookListQuery}

abbrev pub books_list_cache_gen_key : Bytes
books_list_cache_gen_key = lit "v1:books:list_cache_gen"

abbrev pub owner_text : Option ℕ → Bytes
owner_text none = lit "_"
owner_text (some id) = format_uint id

-- The parts of the key behind the generation.
abbrev pub query_text : BookListQuery → Bytes
query_text q =
    format_uint q.offset
    ++ (lit "_limit_"
        ++ (format_uint q.limit
            ++ (lit "_title_"
                ++ (hex_encode q.title_like
                    ++ (lit "_author_"
                        ++ (hex_encode q.author_like
                            ++ (lit "_owner_"
                                ++ (owner_text q.owner_id
                                    ++ (lit "_sort_"
                                        ++ (q.sort ++ (lit "_order_" ++ q.order)))))))))))

unfoldable pub books_list_data_cache_key : ℕ → BookListQuery → Bytes
books_list_data_cache_key gen q =
    lit "books_g" ++ (format_uint gen ++ (lit "_offset_" ++ query_text q))
