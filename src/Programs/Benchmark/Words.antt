-- ===== src/Programs/Benchmark/Words.antt =====
-- BinanceMDPerformanceTests.cpp: what its messages say last about a key and a topic.
use multi_market_prices.Prelude.{
  ◌≡◌, refl, ◌∙◌, Bool, false, ◌&&◌, ◌||◌, List, [], ◌∷◌, ◌++◌, String, string_eq, nat_eq, ◌==◌,
  if◌then◌else◌, contains, contains-append, All, arith, string_dec,
}
use multi_market_prices.Constants.Market.{PriceType}
use multi_market_prices.Binance.Streams.{key_of}
use multi_market_prices.Platform.{Routes, handle_book_keeping}
use multi_market_prices.Platform.Routing.{Book, keep_books, last_word}
use multi_market_prices.Programs.Benchmark.{symbols}

-- What a list of symbols makes of the table, and the keys.
abbrev pub books_of : String → PriceType → Bool → List String → List Book
books_of app_id p is_sub [] = []
books_of app_id p is_sub (symbol ∷ more) =
    (is_sub, key_of symbol p, app_id) ∷ books_of app_id p is_sub more

abbrev pub keys_of : PriceType → List String → List String
keys_of p [] = []
keys_of p (symbol ∷ more) = key_of symbol p ∷ keys_of p more

last_word-append :
    (bs cs : List Book) (k x : String) (d : Bool)
    → last_word (bs ++ cs) k x d ≡ last_word cs k x (last_word bs k x d)
last_word-append [] cs k x d = refl
last_word-append ((is_sub, key, topic) ∷ bs) cs k x d =
    last_word-append bs cs k x (if key == k && topic == x then is_sub else d)

last_word-books_of :
    (app_id : String) (p : PriceType) (is_sub : Bool) (syms : List String) (k x : String) (d : Bool)
    → last_word (books_of app_id p is_sub syms) k x d
      ≡ (if app_id == x && contains k (keys_of p syms) then is_sub else d)
unfolding contains
last_word-books_of app_id p is_sub [] k x d = ground arith
last_word-books_of app_id p is_sub (symbol ∷ syms) k x d = ground (
  arith,
  last_word-books_of app_id p is_sub syms k x
      (if key_of symbol p == k && app_id == x then is_sub else d),
)

pub keep_books-append :
    (bs cs : List Book) (t : Routes) → keep_books (bs ++ cs) t ≡ keep_books cs (keep_books bs t)
unfolding keep_books
keep_books-append [] cs t = refl
keep_books-append ((is_sub, key, topic) ∷ bs) cs t =
    keep_books-append bs cs (handle_book_keeping key topic is_sub t).0

pub named_symbols : All (λ symbol. (symbol == "") ≡ false) symbols
unfolding string_dec
named_symbols = (refl, (refl, (refl, (refl, (refl, tt)))))

split_both :
    (mine a b is_sub d : Bool)
    → (if mine && b then is_sub else if mine && a then is_sub else d)
      ≡ (if mine && (a || b) then is_sub else d)
split_both mine a b is_sub d = ground arith

joined :
    (k x : String) (mine is_sub d e : Bool)
    → e ≡ (if mine && contains k (keys_of PriceType.trade symbols) then is_sub else d)
    → (if mine && contains k (keys_of PriceType.depth symbols) then is_sub else e) ≡ (
        if mine && contains k (keys_of PriceType.trade symbols ++ keys_of PriceType.depth symbols)
        then is_sub
        else d)
joined k x mine is_sub d e h =
    rw (contains-append k (keys_of PriceType.trade symbols) (keys_of PriceType.depth symbols), h)
      (split_both mine (contains k (keys_of PriceType.trade symbols))
        (contains k (keys_of PriceType.depth symbols)) is_sub d)

-- The keys of the test.
abbrev pub test_keys : List String
test_keys = keys_of PriceType.trade symbols ++ keys_of PriceType.depth symbols

pub test_word :
    (app_id : String) (is_sub : Bool) (k x : String) (d : Bool)
    → last_word
        (books_of app_id PriceType.trade is_sub symbols
          ++ books_of app_id PriceType.depth is_sub symbols)
        k
        x
        d
      ≡ (if app_id == x && contains k test_keys then is_sub else d)
test_word app_id is_sub k x d =
    last_word-append (books_of app_id PriceType.trade is_sub symbols)
      (books_of app_id PriceType.depth is_sub symbols) k x d
    ∙ last_word-books_of app_id PriceType.depth is_sub symbols k x
        (last_word (books_of app_id PriceType.trade is_sub symbols) k x d)
    ∙ joined k x (app_id == x) is_sub d _
        (last_word-books_of app_id PriceType.trade is_sub symbols k x d)
